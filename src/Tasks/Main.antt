-- ===== src/Tasks/Main.antt =====
-- `main` of M9/main.c up to the shutdown: its arguments, its pool, and the requests and naps of its
-- loop.
pub mod Rounds
use sp327_butt_k.M9.ThreadPool
use sp327_butt_k.M9.ThreadPool.{ThreadPool, Os, Outcome, built, failed, thread_pool_init}
use sp327_butt_k.Base.{
  ℕ, zero, suc, ◌+◌, ◌%◌, Bool, ◌&&◌, Option, none, some, List, [], ◌∷◌, ltb_ℤ, ltb, if◌then◌else◌,
  ℤ, pos, negsuc,
}
use sp327_butt_k.Text.{Text}
use sp327_butt_k.Tasks.{Timespec, Request, create_request, nap_random}

pub data Action : Type 0 where
  enqueue : Option Request → Action
  nap : Option Timespec → Action

-- The calls of `rand()` in a round; the second is not made for a log message.
pub record Rands : Type 0 where
  pub type : ℕ
  pub arg : ℕ
  pub nap : ℕ

abbrev pub then_nap : (rand : ℕ) → (ℕ → List Action) → ℕ × Option Request → List Action
then_nap rand rest (msg_count, request) = enqueue request ∷ nap (nap_random rand) ∷ rest msg_count

-- The `for`, in its round `i`.
unfoldable pub main_loop : (rounds i : ℕ) → (ℕ → Rands) → (msg_count : ℕ) → List Action
main_loop zero i rand msg_count = []
main_loop (suc rounds) i rand msg_count =
    then_nap (rand i).nap (λ next. main_loop rounds (i + 1) rand next)
      (create_request ((rand i).type % 3) (rand i).arg msg_count)

pub data Run : Type 0 where
  usage : Run  -- `return 1`
  exited : Run  -- `handle_error`
  undefined : Run  -- a store through NULL or behind the array of threads
  ran : ThreadPool → List Action → Run

-- The requests, once the pool is there.
abbrev pub with_pool : Outcome → List Action → Run
with_pool (built pool) actions = ran pool actions
with_pool failed actions = exited
with_pool ThreadPool.undefined actions = undefined

abbrev pub run_with : Os → (ℕ → Rands) → (num_threads num_requests : ℤ) → Run
run_with os rand (pos (suc threads)) (pos (suc requests)) =
    with_pool (thread_pool_init os (suc threads)) (main_loop (suc requests) 1 rand 1)
run_with os rand num_threads num_requests = usage

-- The mutex, the condition variable and the queue are created without failure.
unfoldable pub main : Os → (atoi : Text → ℤ) → (argv : List Text) → (ℕ → Rands) → Run
main os atoi (program ∷ threads ∷ requests ∷ []) rand =
    run_with os rand (atoi threads) (atoi requests)
main os atoi _ rand = usage
