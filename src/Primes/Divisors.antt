-- ===== src/Primes/Divisors.antt =====
-- The trial division of rlimit_primes.c, mt_primes1.c and mt_primes2.c.
use sp327_butt_k.Base.{
  ℕ, zero, suc, ◌+◌, ◌-◌, ◌*◌, ◌/◌, ◌%◌, ◌≤◌, ◌<◌, ◌≡◌, ◌≢◌, refl, true, false, ◌==◌, arith, ap,
  ltb, Bool-cases, inl, inr,
}
use native.Mathlib.Nat.{div-add-mod', mul-le-mul_right, mod-eq_of_lt}
use sp327_butt_k.Primes.{divisor_loop, is_prime}

pub record IsPrime (n : ℕ) : Type 0 where
  pub least : 2 ≤ n
  pub indivisible : (d : ℕ) → 2 ≤ d → d < n → n % d ≢ 0

loop_sound :
    (k j i : ℕ) → divisor_loop k j i ≡ true → (d : ℕ) → j ≤ d → d < j + k → d ≢ i → i % d ≢ 0
unfolding divisor_loop
loop_sound zero j i e d above below ne = absurd (omega arith)
loop_sound (suc k) j i e d above below ne = elim (Bool-cases (d == j)) [
  | inl same ↦ ground (arith, e, same, ne)
  | inr other ↦
      let differs : d ≢ j = ground (arith, other) in
      loop_sound k (j + 1) i (ground (arith, e)) d (omega (arith, differs)) (omega arith) ne
]

loop_complete :
    (k j i : ℕ) → ((d : ℕ) → j ≤ d → d < j + k → d ≢ i → i % d ≢ 0) → divisor_loop k j i ≡ true
unfolding divisor_loop
loop_complete zero j i h = refl
loop_complete (suc k) j i h =
    ground
      (arith, h j, loop_complete k (j + 1) i (λ d above below. h d (omega arith) (omega arith)))

-- A divisor and its cofactor.
cofactor : (i d : ℕ) → d < i → i % d ≡ 0 → (i / d * d ≡ i) × (2 ≤ i / d)
cofactor i d lt e = (product, two (i / d) product)
  where
    product : i / d * d ≡ i
    product = omega (arith, div-add-mod' i d, e)

    two : (q : ℕ) → q * d ≡ i → 2 ≤ q
    two zero f = absurd (omega (arith, f))
    two (suc zero) f = absurd (omega (arith, f))
    two (suc (suc q)) f = omega arith

-- Where the divisor is out of the loop's reach, the cofactor is 2.
cofactor-two : (limit i d q : ℕ) → 6 ≤ limit → i ≤ limit → limit / 2 ≤ d → q * d ≡ i → 2 ≤ q → q ≡ 2
cofactor-two limit i d zero six le far f two = absurd (omega arith)
cofactor-two limit i d (suc zero) six le far f two = absurd (omega arith)
cofactor-two limit i d (suc (suc zero)) six le far f two = refl
cofactor-two limit i d (suc (suc (suc q))) six le far f two =
    let more : 3 * d ≤ suc (suc (suc q)) * d = mul-le-mul_right d (omega arith) in
    absurd (omega (arith, more, f))

reached : (limit : ℕ) → 6 ≤ limit → 2 + (limit / 2 - 2) ≡ limit / 2
reached limit six = omega arith

module _ (limit i : ℕ) (six : 6 ≤ limit) (le : i ≤ limit) where
  pub is_prime-IsPrime : 2 ≤ i → is_prime limit i ≡ true → IsPrime i
  unfolding is_prime
  is_prime-IsPrime least e = record { least = least; indivisible = indivisible }
    where
      sound : (d : ℕ) → 2 ≤ d → d < limit / 2 → d ≢ i → i % d ≢ 0
      sound d two near ne =
          loop_sound (limit / 2 - 2) 2 i e d two (omega (arith, reached limit six)) ne

      indivisible : (d : ℕ) → 2 ≤ d → d < i → i % d ≢ 0
      indivisible d two lt div = elim (Bool-cases (ltb d (limit / 2))) [
        | inl near ↦ sound d two (ground (arith, near)) (omega arith) div
        | inr far ↦
            let (product, large) = cofactor i d lt div in
            let q : i / d ≡ 2 =
              cofactor-two limit i d (i / d) six le (ground (arith, far)) product large in
            let even : i ≡ 2 * d = omega (arith, product, ap (λ t. t * d) q) in
            sound 2 (omega arith) (omega arith) (omega arith) (omega arith)
      ]

  pub IsPrime-is_prime : IsPrime i → is_prime limit i ≡ true
  unfolding is_prime
  IsPrime-is_prime p = loop_complete (limit / 2 - 2) 2 i λ d two below ne.
      elim (Bool-cases (ltb d i)) [
        | inl lt ↦ p.indivisible d two (ground (arith, lt))
        | inr ge ↦ let over : i < d = ground (arith, ge, ne) in λ e. small d over e
      ]
    where
      small : (d : ℕ) → i < d → i % d ≢ 0
      small d over e = omega (arith, mod-eq_of_lt over, e, p.least)

-- A number that is neither 0 nor prime passes only if it is 1; 0 does not pass.
pub is_prime-zero : (limit : ℕ) → 6 ≤ limit → is_prime limit 0 ≡ false
unfolding is_prime
is_prime-zero limit six = elim (Bool-cases (divisor_loop (limit / 2 - 2) 2 0)) [
  | inl e ↦
      absurd (loop_sound (limit / 2 - 2) 2 0 e 2 (omega arith) (omega arith) (omega arith) refl)
  | inr e ↦ e
]

pub is_prime-one : (limit : ℕ) → is_prime limit 1 ≡ true
unfolding is_prime
is_prime-one limit =
    loop_complete (limit / 2 - 2) 2 1
      λ d two below ne e. omega (arith, mod-eq_of_lt {n = 1} {m = d} (omega arith), e)
