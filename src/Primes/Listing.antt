-- ===== src/Primes/Listing.antt =====
-- The numbers that the loops over a range list.
use sp327_butt_k.Base.{
  ℕ, zero, suc, ◌+◌, ◌-◌, ◌≤◌, ◌<◌, ◌≡◌, ◌≢◌, append-nil, refl, ap, ◌∙◌, Bool, true, false, List,
  [], ◌∷◌, ◌++◌, ◌==◌, arith, Bool-cases, ◌⊎◌, inl, inr, if◌then◌else◌,
}
use mathlib.Core.Logic.{◌↔◌}
use sp327_butt_k.Primes.{is_prime, Piece, number, newline, piece, print_loop, print_primes}
use sp327_butt_k.Primes.Divisors.{IsPrime, is_prime-IsPrime, IsPrime-is_prime}

abbrev pub Member : ℕ → List ℕ → Type 0
Member n [] = ⊥
Member n (x ∷ xs) = (n ≡ x) ⊎ Member n xs

abbrev pub put : Bool → ℕ → List ℕ → List ℕ
put b i is = if b then i ∷ is else is

-- The `rounds` numbers from `i` on that pass the trial division.
unfoldable pub listed : (limit rounds i : ℕ) → List ℕ
listed limit zero i = []
listed limit (suc rounds) i = put (is_prime limit i) i (listed limit rounds (i + 1))

put-Member :
    (b : Bool) (n i : ℕ) (is : List ℕ)
    → Member n (put b i is)
    → ((n ≡ i) × (b ≡ true)) ⊎ Member n is
put-Member true n i is (inl e) = inl (e, refl)
put-Member true n i is (inr m) = inr m
put-Member false n i is m = inr m

pub listed_sound :
    (limit rounds i n : ℕ)
    → Member n (listed limit rounds i)
    → (i ≤ n) × (n < i + rounds) × (is_prime limit n ≡ true)
unfolding listed
listed_sound limit zero i n m = absurd m
listed_sound limit (suc rounds) i n m =
    elim (put-Member (is_prime limit i) n i (listed limit rounds (i + 1)) m) [
      | inl (e, p) ↦ (omega (arith, e), omega (arith, e), rw e p)
      | inr rest ↦
          let (le, lt, p) = listed_sound limit rounds (i + 1) n rest in
          (omega arith, omega arith, p)
    ]

put-keeps : (b : Bool) (n i : ℕ) (is : List ℕ) → Member n is → Member n (put b i is)
put-keeps true n i is m = inr m
put-keeps false n i is m = m

pub listed_complete :
    (limit rounds i n : ℕ)
    → i ≤ n
    → n < i + rounds
    → is_prime limit n ≡ true
    → Member n (listed limit rounds i)
unfolding listed
listed_complete limit zero i n le lt p = absurd (omega arith)
listed_complete limit (suc rounds) i n le lt p = elim (Bool-cases (i == n)) [
  | inl e ↦ let same : i ≡ n = ground (arith, e) in rw (same, p) (inl refl)
  | inr e ↦
      let ne : i ≢ n = ground (arith, e) in
      put-keeps (is_prime limit i) n i _
        (listed_complete limit rounds (i + 1) n (omega (arith, ne)) (omega arith) p)
]

abbrev pub numbers : List Piece → List ℕ
numbers [] = []
numbers (number i ∷ ps) = i ∷ numbers ps
numbers (newline ∷ ps) = numbers ps

numbers-append : (ps qs : List Piece) → numbers (ps ++ qs) ≡ numbers ps ++ numbers qs
numbers-append [] qs = refl
numbers-append (number i ∷ ps) qs = ap (◌∷◌ i) (numbers-append ps qs)
numbers-append (newline ∷ ps) qs = numbers-append ps qs

numbers-round :
    (b : Bool) (next i : ℕ) (ps : List Piece)
    → numbers ((if b then piece next i else []) ++ ps) ≡ put b i (numbers ps)
numbers-round b next i ps = ground arith

print_loop-listed :
    (limit rounds i num : ℕ) → numbers (print_loop limit rounds i num) ≡ listed limit rounds i
unfolding print_loop listed
print_loop-listed limit zero i num = refl
print_loop-listed limit (suc rounds) i num =
    let next = if is_prime limit i then num + 1 else num in
    numbers-round (is_prime limit i) next i (print_loop limit rounds (i + 1) next)
    ∙ ap (put (is_prime limit i) i) (print_loop-listed limit rounds (i + 1) next)

print_primes-listed :
    (limit : ℕ) → numbers (print_primes limit) ≡ 2 ∷ 3 ∷ listed limit (limit + 1 - 4) 4
unfolding print_primes
print_primes-listed limit =
    ap (λ t. 2 ∷ 3 ∷ t)
      (numbers-append (print_loop limit (limit + 1 - 4) 4 2) (newline ∷ [])
        ∙ append-nil _
        ∙ print_loop-listed limit (limit + 1 - 4) 4 2)

IsPrime-two : IsPrime 2
IsPrime-two = record { least = omega arith; indivisible = λ d le lt. absurd (omega arith) }

IsPrime-three : IsPrime 3
IsPrime-three = record {
  least = omega arith;
  indivisible = λ d le lt e. let two : d ≡ 2 = omega arith in absurd (ground (arith, e, two));
}

module _ (limit n : ℕ) (six : 6 ≤ limit) where
  printed-IsPrime : Member n (2 ∷ 3 ∷ listed limit (limit + 1 - 4) 4) → IsPrime n × n ≤ limit
  printed-IsPrime (inl e) = (rw e IsPrime-two, omega (arith, e))
  printed-IsPrime (inr (inl e)) = (rw e IsPrime-three, omega (arith, e))
  printed-IsPrime (inr (inr m)) =
      let (le, lt, p) = listed_sound limit (limit + 1 - 4) 4 n m in
      (is_prime-IsPrime limit n six (omega arith) (omega arith) p, omega arith)

  IsPrime-printed : IsPrime n × n ≤ limit → Member n (2 ∷ 3 ∷ listed limit (limit + 1 - 4) 4)
  IsPrime-printed (p, le) = elim (Bool-cases (n == 2)) [
    | inl e ↦ inl (ground (arith, e))
    | inr e ↦ elim (Bool-cases (n == 3)) [
      | inl f ↦ inr (inl (ground (arith, f)))
      | inr f ↦
          let ne : n ≢ 2 = ground (arith, e) in
          let nf : n ≢ 3 = ground (arith, f) in
          inr (
            inr (
              listed_complete limit (limit + 1 - 4) 4 n (omega (arith, p.least, ne, nf))
                (omega arith) (IsPrime-is_prime limit n six le p)))
    ]
  ]

-- From 6 on, rlimit_primes prints a number exactly if it is a prime up to the limit.
pub print_primes-IsPrime :
    (limit n : ℕ) → 6 ≤ limit → Member n (numbers (print_primes limit)) ↔ (IsPrime n × n ≤ limit)
print_primes-IsPrime limit n six =
    rw (print_primes-listed limit) (printed-IsPrime limit n six, IsPrime-printed limit n six)
