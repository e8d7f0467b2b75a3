-- ===== src/M9/ThreadPool.antt =====
-- M9/thread_pool.c: the threads that `thread_pool_init` creates. The array has `MAX_WORKER_THREADS`
-- entries; what `malloc` and `pthread_create` return is a parameter.
use sp327_butt_k.Base.{
  ℕ, suc, zero, ◌+◌, ◌≤◌, ◌<◌, ◌≡◌, ap, ◌∙◌, Bool, true, ◌&&◌, List, [], ◌∷◌, ◌++◌, arith, ltb,
  Bool-cases, inl, inr, if◌then◌else◌,
}
use sp327_butt_k.Tasks.Requests.{from}

-- The filled entries of `threads` stand for their thread numbers, which the parameters of the threads
-- repeat.
pub record ThreadPool : Type 0 where
  pub next_thread_id : ℕ
  pub num_threads : ℕ
  pub threads : List ℕ

-- The body of the `for`.
unfoldable pub add_thread : ThreadPool → ThreadPool
add_thread p = record p {
  next_thread_id = p.next_thread_id + 1;
  threads = p.threads ++ p.next_thread_id ∷ [];
}

-- Whether the calls succeed, those in the loop by their round.
pub record Os : Type 0 where
  pub pool_malloc : Bool
  pub params_malloc : ℕ → Bool
  pub thread_malloc : ℕ → Bool
  pub created : ℕ → Bool

pub data Outcome : Type 0 where
  built : ThreadPool → Outcome
  failed : Outcome  -- `handle_error`
  undefined : Outcome  -- a store through NULL or behind the array

-- `create_worker_thread` (M9/worker_thread.c), and what follows it.
abbrev pub create_worker_thread : (created : Bool) → Outcome → Outcome
create_worker_thread created rest = if created then rest else failed

-- The `for`, with `rounds` rounds left. The results of its calls of `malloc` are not tested.
unfoldable pub create_threads : Os → (rounds i : ℕ) → ThreadPool → Outcome
create_threads os zero i p = built p
create_threads os (suc rounds) i p =
    let rest = create_threads os rounds (i + 1) (add_thread p) in
    if os.params_malloc i && (ltb i 20 && os.thread_malloc i)
    then create_worker_thread (os.created i) rest
    else undefined

unfoldable pub thread_pool_init : Os → (num_threads : ℕ) → Outcome
thread_pool_init os num_threads =
    if os.pool_malloc
    then create_threads os num_threads 0
        (record { next_thread_id = 1; num_threads = num_threads; threads = [] })
    else failed

-- No call fails.
abbrev pub all_ok : Os
all_ok = record {
  pool_malloc = true;
  params_malloc = λ _. true;
  thread_malloc = λ _. true;
  created = λ _. true;
}

from-snoc : (k n : ℕ) → from k n ++ (k + n) ∷ [] ≡ from k (suc n)
from-snoc k zero = let e : k + 0 ≡ k = omega arith in ap (λ j. j ∷ []) e
from-snoc k (suc n) =
    let e : k + suc n ≡ k + 1 + n = omega arith in
    ap (λ j. k ∷ (from (k + 1) n ++ j ∷ [])) e ∙ ap (◌∷◌ k) (from-snoc (k + 1) n)

-- The pool after `i` rounds.
abbrev pool_at : (num i : ℕ) → ThreadPool
pool_at num i = record { next_thread_id = 1 + i; num_threads = num; threads = from 1 i }

add_thread-pool_at : (num i : ℕ) → add_thread (pool_at num i) ≡ pool_at num (suc i)
unfolding add_thread
add_thread-pool_at num i =
    let e : 1 + i + 1 ≡ 1 + suc i = omega arith in
    ap (λ j. record { next_thread_id = j; num_threads = num; threads = from 1 i ++ (1 + i) ∷ [] }) e
    ∙ ap (λ t. record { next_thread_id = 1 + suc i; num_threads = num; threads = t })
        (from-snoc 1 i)

add_round :
    (num k i : ℕ)
    → i < 20
    → create_threads all_ok (suc k) i (pool_at num i)
      ≡ create_threads all_ok k (suc i) (pool_at num (suc i))
unfolding create_threads
add_round num k i lt =
    let fits : ltb i 20 ≡ true = ground arith in
    let next : i + 1 ≡ suc i = omega arith in rw (fits, next, add_thread-pool_at num i)

create_threads-built :
    (num k i : ℕ)
    → i + k ≤ 20
    → create_threads all_ok k i (pool_at num i) ≡ built (pool_at num (i + k))
unfolding create_threads
create_threads-built num zero i le =
    let e : i ≡ i + 0 = omega arith in ap (λ j. built (pool_at num j)) e
create_threads-built num (suc k) i le =
    let e : suc i + k ≡ i + suc k = omega arith in
    add_round num k i (omega arith)
    ∙ create_threads-built num k (suc i) (omega arith)
    ∙ ap (λ j. built (pool_at num j)) e

create_threads-undefined :
    (num k i : ℕ) → i ≤ 20 → 20 < i + k → create_threads all_ok k i (pool_at num i) ≡ undefined
unfolding create_threads
create_threads-undefined num zero i le over = absurd (omega arith)
create_threads-undefined num (suc k) i le over = elim (Bool-cases (ltb i 20)) [
  | inl fits ↦
      let lt : i < 20 = ground (arith, fits) in
      add_round num k i lt ∙ create_threads-undefined num k (suc i) (omega arith) (omega arith)
  | inr full ↦ rw full
]

-- For at most 20 threads `thread_pool_init` fills the array with the threads 1 to `n`, in order.
pub thread_pool_init-ids :
    (n : ℕ)
    → n ≤ 20
    → thread_pool_init all_ok n
      ≡ built (record { next_thread_id = 1 + n; num_threads = n; threads = from 1 n })
unfolding thread_pool_init
thread_pool_init-ids n le =
    let e : 0 + n ≡ n = omega arith in
    create_threads-built n n 0 (omega arith) ∙ ap (λ j. built (pool_at n j)) e

-- For more than 20 threads, which main does not refuse, it writes behind the array.
pub too_many_threads : (n : ℕ) → 20 < n → thread_pool_init all_ok n ≡ undefined
unfolding thread_pool_init
too_many_threads n over = create_threads-undefined n n 0 (omega arith) (omega arith)
