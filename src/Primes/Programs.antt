-- ===== src/Primes/Programs.antt =====
-- `main` of mt_primes1 and mt_primes2: three threads, each with its range and its buffer. Allocation and
-- thread creation are the parameter `Os`; `none` is the end of the process before the buffers are done,
-- by FATAL, an assertion or an overrun buffer. Warnings and other messages are left out.
use sp327_butt_k.Base.{
  ℕ, ◌+◌, Bool, not, ◌&&◌, Option, none, some, and_then, List, [], ◌∷◌, ◌++◌, ◌==◌, leb,
  if◌then◌else◌,
}
use sp327_butt_k.Primes.{Generated, simple_primegen}

-- What the calls for thread `i` return.
pub record Os : Type 0 where
  pub struct_allocated : ℕ → Bool
  pub buffer_allocated : ℕ → Bool
  pub create : ℕ → ℕ
  pub written : ℕ → Bool

abbrev pub prime_range : List (ℕ × ℕ)
prime_range = (1, 5000) ∷ (5001, 10000) ∷ (20000, 20101) ∷ []

abbrev pub started : Os → ℕ → Bool
started os i = os.struct_allocated i && (os.buffer_allocated i && (os.create i == 0))

abbrev pub worker : (start end : ℕ) → Option (List Generated) → Option (List Generated)
worker start end rest =
    and_then (λ gs. and_then (λ g. some (g ∷ gs)) (simple_primegen start end)) rest

-- The thread creation loop from thread `i` on, and what the threads leave when they are joined.
unfoldable pub run_threads : Os → (i : ℕ) → List (ℕ × ℕ) → Option (List Generated)
run_threads os i [] = some []
run_threads os i ((start, end) ∷ ranges) =
    let rest = run_threads os (i + 1) ranges in if started os i then worker start end rest else none

unfoldable pub mt_primes1_main : Os → Option (List Generated)
mt_primes1_main os = run_threads os 0 prime_range

-- The loop of `write_the_primes`: what gets into the file.
unfoldable pub write_the_primes : Os → (canceled_thread i : ℕ) → List Generated → List ℕ
write_the_primes os c i [] = []
write_the_primes os c i (g ∷ gs) =
    (if i == c then [] else if os.written i then g.buf else []) ++ write_the_primes os c (i + 1) gs

-- The last loop of `main`: the threads whose buffers it frees.
unfoldable pub free_loop : (canceled_thread i : ℕ) → List Generated → List ℕ
free_loop c i [] = []
free_loop c i (g ∷ gs) = (if i == c then [] else i ∷ []) ++ free_loop c (i + 1) gs

pub record Finished : Type 0 where
  pub file : List ℕ
  pub freed : List ℕ

-- `cleanup_handler`, which runs if the third thread acts on the cancel request: it sets
-- `gCanceledThread` and frees the thread's buffers.
abbrev pub canceled_thread : (acted : Bool) → ℕ
canceled_thread acted = if acted then 2 else 0

abbrev pub freed_by_handler : (acted : Bool) → List ℕ
freed_by_handler acted = if acted then 2 ∷ [] else []

abbrev pub finish : Os → (acted : Bool) → List Generated → Finished
finish os acted gs = record {
  file = write_the_primes os (canceled_thread acted) 0 gs;
  freed = freed_by_handler acted ++ free_loop (canceled_thread acted) 0 gs;
}

abbrev pub requested : (argc arg : ℕ) → Bool
requested argc arg = leb 2 argc && (arg == 1)

-- `main` of mt_primes2. `acts`: the third thread acts on a cancel request before it ends.
unfoldable pub mt_primes2_main :
    Os → (opened : Bool) (argc arg cancel_result : ℕ) (acts : Bool) → Option Finished
mt_primes2_main os opened argc arg cancel_result acts =
    if opened
    then (if requested argc arg && not (cancel_result == 0)
        then none
        else and_then (λ gs. some (finish os (requested argc arg && acts) gs))
            (run_threads os 0 prime_range))
    else none
