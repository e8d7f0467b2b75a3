-- ===== src/Primes/Threads.antt =====
-- What the threads of mt_primes1 and mt_primes2 put into their buffers, and into the file.
use sp327_butt_k.Base.{
  ℕ, zero, suc, ◌+◌, ◌-◌, ◌*◌, ◌≤◌, ◌<◌, ◌≡◌, refl, sym, ap, ◌∙◌, true, false, some, List, [], ◌∷◌,
  ◌++◌, append-nil, append_assoc, arith, Bool-cases, ◌⊎◌, inl, inr, length, ltb, leb,
}
use mathlib.Core.Logic.{◌↔◌}
use sp327_butt_k.Primes.{
  is_prime, entry_width, strlen, Generated, place, primegen_loop, simple_primegen,
}
use sp327_butt_k.Primes.Divisors.{
  IsPrime, is_prime-IsPrime, IsPrime-is_prime, is_prime-zero, is_prime-one,
}
use sp327_butt_k.Primes.Listing.{Member, listed, listed_sound, listed_complete}

strlen-snoc : (is : List ℕ) (i : ℕ) → strlen (is ++ i ∷ []) ≡ strlen is + entry_width i
unfolding strlen
strlen-snoc [] i = omega arith
strlen-snoc (j ∷ is) i = omega (arith, strlen-snoc is i)

entry_width-small : (i : ℕ) → i < 1000000 → entry_width i ≡ 8
entry_width-small i lt = ground arith

abbrev extended : Generated → List ℕ → Generated
extended g is = record { num_primes = g.num_primes + length is; buf = g.buf ++ is }

abbrev placed : Generated → ℕ → Generated
placed g i = record { num_primes = g.num_primes + 1; buf = g.buf ++ i ∷ [] }

place-some :
    (i : ℕ) (g : Generated)
    → i < 1000000
    → strlen g.buf + 8 < 100000
    → place i g ≡ some (placed g i)
unfolding place
place-some i g small fits =
    let width : entry_width i ≡ 8 = entry_width-small i small in
    let room : ltb (strlen g.buf + entry_width i) 100000 ≡ true = ground (arith, width, fits) in
    rw room

extended-placed :
    (g : Generated) (i : ℕ) (is : List ℕ) → extended (placed g i) is ≡ extended g (i ∷ is)
extended-placed g i is =
    let count : g.num_primes + 1 + length is ≡ g.num_primes + suc (length is) = omega arith in
    ap (λ n. record { num_primes = n; buf = (g.buf ++ i ∷ []) ++ is }) count
    ∙ ap (λ b. record { num_primes = g.num_primes + suc (length is); buf = b })
        (append_assoc g.buf (i ∷ []) is)

extended-nil : (g : Generated) → g ≡ extended g []
extended-nil g =
    let count : g.num_primes ≡ g.num_primes + 0 = omega arith in
    ap (λ n. record { num_primes = n; buf = g.buf }) count
    ∙ ap (λ b. record { num_primes = g.num_primes + 0; buf = b }) (sym (append-nil g.buf))

primegen_loop-listed :
    (limit rounds i : ℕ) (g : Generated)
    → i + rounds ≤ 1000000
    → strlen g.buf + rounds * 8 < 100000
    → primegen_loop limit rounds i g ≡ some (extended g (listed limit rounds i))
unfolding primegen_loop listed
primegen_loop-listed limit zero i g small fits = ap some (extended-nil g)
primegen_loop-listed limit (suc rounds) i g small fits = elim (Bool-cases (is_prime limit i)) [
  | inl e ↦
      let room : strlen (g.buf ++ i ∷ []) + rounds * 8 < 100000 =
        omega (arith, strlen-snoc g.buf i, entry_width-small i (omega arith)) in
      rw (e, place-some i g (omega arith) (omega arith))
        (primegen_loop-listed limit rounds (i + 1) (placed g i) (omega arith) room
          ∙ ap some (extended-placed g i (listed limit rounds (i + 1))))
  | inr e ↦ rw e (primegen_loop-listed limit rounds (i + 1) g (omega arith) (omega arith))
]

-- The buffer for a range.
abbrev pub generated : (start limit : ℕ) → Generated
generated start limit =
    let is = listed limit (limit + 1 - start) start in record { num_primes = length is; buf = is }

pub simple_primegen-generated :
    (start limit : ℕ)
    → start ≤ limit
    → limit < 1000000
    → (limit + 1 - start) * 8 < 100000
    → simple_primegen start limit ≡ some (generated start limit)
unfolding simple_primegen strlen
simple_primegen-generated start limit le small fits =
    let ordered : leb start limit ≡ true = ground arith in
    rw ordered (
      primegen_loop-listed limit (limit + 1 - start) start (record { num_primes = 0; buf = [] })
        (omega arith) (omega arith)
      ∙ ap (λ n. some (record { num_primes = n; buf = listed limit (limit + 1 - start) start }))
          (let e : 0 + length (listed limit (limit + 1 - start) start)
                ≡ length (listed limit (limit + 1 - start) start) =
              omega arith in
            e))

module _ (start limit n : ℕ) (le : start ≤ limit) (six : 6 ≤ limit) where
  generated_sound :
      Member n (generated start limit).buf → (start ≤ n) × (n ≤ limit) × (n ≡ 1 ⊎ IsPrime n)
  generated_sound m =
      let (above, below, p) = listed_sound limit (limit + 1 - start) start n m in
      (above, omega arith, kind n (omega arith) p)
    where
      kind : (n : ℕ) → n ≤ limit → is_prime limit n ≡ true → n ≡ 1 ⊎ IsPrime n
      kind zero le p = absurd (let q : is_prime limit 0 ≡ false = is_prime-zero limit six in cc)
      kind (suc zero) le p = inl refl
      kind (suc (suc n)) le p = inr (is_prime-IsPrime limit (suc (suc n)) six le (omega arith) p)

  generated_complete :
      start ≤ n → n ≤ limit → n ≡ 1 ⊎ IsPrime n → Member n (generated start limit).buf
  generated_complete above below k =
      listed_complete limit (limit + 1 - start) start n above (omega arith) (passes k)
    where
      passes : n ≡ 1 ⊎ IsPrime n → is_prime limit n ≡ true
      passes (inl e) = rw e (is_prime-one limit)
      passes (inr p) = IsPrime-is_prime limit n six below p

-- A thread whose range ends at 6 or later, below a million, and whose entries fit the buffer fills it
-- without an overrun, counts its entries, and lists exactly the primes of the range, and 1 if the
-- range has it.
pub simple_primegen-IsPrime :
    (start limit : ℕ)
    → start ≤ limit
    → 6 ≤ limit
    → limit < 1000000
    → (limit + 1 - start) * 8 < 100000
    → (g : Generated) × (simple_primegen start limit ≡ some g)
      × (g.num_primes ≡ length g.buf)
      × ((n : ℕ) → Member n g.buf ↔ ((start ≤ n) × (n ≤ limit) × (n ≡ 1 ⊎ IsPrime n)))
simple_primegen-IsPrime start limit le six small fits = (
  generated start limit,
  simple_primegen-generated start limit le small fits,
  refl,
  λ n. (
    generated_sound start limit n le six,
    λ (above, below, k). generated_complete start limit n le six above below k,
  ),
)
