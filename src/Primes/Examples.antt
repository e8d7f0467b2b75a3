-- ===== src/Primes/Examples.antt =====
-- Small ranges in full, and the theorems at them.
use sp327_butt_k.Base.{◌≡◌, ◌≤◌, refl, true, some, [], ◌∷◌, arith}
use mathlib.Core.Logic.{◌↔◌}
use sp327_butt_k.Primes.{
  divisor_loop, is_prime, print_loop, print_primes, simple_primegen, primegen_loop, place, strlen,
}
use sp327_butt_k.Primes.Divisors.{IsPrime}
use sp327_butt_k.Primes.Listing.{Member, numbers, print_primes-IsPrime}
use sp327_butt_k.Primes.Programs.{Os}

primes_20 : numbers (print_primes 20) ≡ 2 ∷ 3 ∷ 5 ∷ 7 ∷ 11 ∷ 13 ∷ 17 ∷ 19 ∷ []
unfolding print_primes print_loop is_prime divisor_loop
primes_20 = refl

-- At the limit 5, which `main` accepts, 4 is printed.
four_printed : numbers (print_primes 5) ≡ 2 ∷ 3 ∷ 4 ∷ 5 ∷ []
unfolding print_primes print_loop is_prime divisor_loop
four_printed = refl

one_listed : simple_primegen 1 10 ≡ some (record { num_primes = 5; buf = 1 ∷ 2 ∷ 3 ∷ 5 ∷ 7 ∷ [] })
unfolding simple_primegen primegen_loop place strlen is_prime divisor_loop
one_listed = refl

print_primes-IsPrime_example : Member 19 (numbers (print_primes 20)) ↔ (IsPrime 19 × 19 ≤ 20)
print_primes-IsPrime_example = print_primes-IsPrime 20 19 (omega arith)

abbrev willing : Os
willing = record {
  struct_allocated = λ i. true;
  buffer_allocated = λ i. true;
  create = λ i. 0;
  written = λ i. true;
}
