-- ===== src/Primes/DataFile.antt =====
-- The file that mt_primes2 writes.
use sp327_butt_k.Base.{
  ℕ, ◌≡◌, ◌<◌, refl, ap, Bool, true, false, ◌&&◌, some, List, [], ◌∷◌, ◌++◌, append-nil, arith,
}
use sp327_butt_k.Primes.{Generated}
use sp327_butt_k.Primes.Threads.{generated, simple_primegen-generated}
use sp327_butt_k.Primes.Programs.{
  Os, run_threads, started, prime_range, write_the_primes, free_loop, Finished, finish, requested,
  mt_primes2_main,
}

-- Every call for the three threads succeeds.
pub record AllSucceed (os : Os) : Type 0 where
  pub started : (i : ℕ) → i < 3 → started os i ≡ true
  pub written : (i : ℕ) → i < 3 → os.written i ≡ true

abbrev pub three_buffers : List Generated
three_buffers = generated 1 5000 ∷ generated 5001 10000 ∷ generated 20000 20101 ∷ []

run_threads-three : (os : Os) → AllSucceed os → run_threads os 0 prime_range ≡ some three_buffers
unfolding run_threads
run_threads-three os ok = rw (
  ok.started 0 (omega arith),
  ok.started 1 (omega arith),
  ok.started 2 (omega arith),
  simple_primegen-generated 1 5000 (omega arith) (omega arith) (omega arith),
  simple_primegen-generated 5001 10000 (omega arith) (omega arith) (omega arith),
  simple_primegen-generated 20000 20101 (omega arith) (omega arith) (omega arith),
)

-- The end of `main` with all buffers filled.
abbrev pub expected : (acted : Bool) → Finished
expected true = record {
  file = (generated 1 5000).buf ++ (generated 5001 10000).buf;
  freed = 2 ∷ 0 ∷ 1 ∷ [];
}
expected false = record {
  file = (generated 5001 10000).buf ++ (generated 20000 20101).buf;
  freed = 1 ∷ 2 ∷ [];
}

finish-expected :
    (os : Os) (acted : Bool) → AllSucceed os → finish os acted three_buffers ≡ expected acted
unfolding write_the_primes free_loop
finish-expected os true ok =
    rw (
      ok.written 0 (omega arith),
      ok.written 1 (omega arith),
      append-nil (generated 5001 10000).buf,
    )
finish-expected os false ok =
    rw (
      ok.written 1 (omega arith),
      ok.written 2 (omega arith),
      append-nil (generated 20000 20101).buf,
    )

no_failure : (b : Bool) → (b && false) ≡ false
no_failure true = refl
no_failure false = refl

-- Where all calls succeed, the file of mt_primes2 has the primes of two threads only: if the third
-- thread was canceled, those of the first two; and if no thread was, those of the last two. Then the
-- buffers of the first thread are not freed either.
pub first_thread_skipped :
    (os : Os) (argc arg : ℕ) (acts : Bool)
    → AllSucceed os
    → mt_primes2_main os true argc arg 0 acts ≡ some (expected (requested argc arg && acts))
unfolding mt_primes2_main
first_thread_skipped os argc arg acts ok =
    rw (no_failure (requested argc arg), run_threads-three os ok)
      (ap some (finish-expected os (requested argc arg && acts) ok))
