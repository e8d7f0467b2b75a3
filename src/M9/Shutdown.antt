-- ===== src/M9/Shutdown.antt =====
-- The end of M9/main.c: `thread_pool_destroy` of M9/thread_pool.c beside the workers.
use sp327_butt_k.Base.{ℕ, suc, ◌<◌, ◌≡◌, refl, ap, List, arith, All}
use sp327_butt_k.Memory.{Ptr}
use sp327_butt_k.M9.{
  System, waiting, at_queue, running, exited, set_pc, fetch, process, Reach, wake, dequeue, run,
}
use sp327_butt_k.Pool.Invariant.{IsRequest}
use sp327_butt_k.M9.Workers.{never_exits}

-- A step of one of `n` workers.
pub data Move (n : ℕ) : System → System → Type 0 where
  woken :
      {s : System} (i : ℕ)
      → i < n
      → (s.workers i).pc ≡ waiting
      → Move n s (record s { workers = set_pc s i at_queue })
  dequeued : {s : System} (i : ℕ) → i < n → (s.workers i).pc ≡ at_queue → Move n s (fetch s i)
  ran :
      {s : System} (i : ℕ) (req : Ptr)
      → i < n
      → (s.workers i).pc ≡ running req
      → Move n s (process s i req)

-- Where `thread_pool_destroy` stands: `joined` threads were joined and freed, or the pool is freed too.
pub data DestroyPc : Type 0 where
  joining : (joined : ℕ) → DestroyPc
  returned : DestroyPc

-- The states that the program can reach from the call of `thread_pool_destroy` on.
pub data Shutdown (n : ℕ) (enqueued : List Ptr) : System → DestroyPc → Type 0 where
  called : {s : System} → Reach n enqueued s → Shutdown n enqueued s (joining 0)
  work :
      {s t : System} {pc : DestroyPc}
      → Shutdown n enqueued s pc
      → Move n s t
      → Shutdown n enqueued t pc
  join :
      {s : System} (i : ℕ)
      → Shutdown n enqueued s (joining i)
      → i < n
      → (s.workers i).pc ≡ exited
      → Shutdown n enqueued s (joining (suc i))
  free_pool : {s : System} → Shutdown n enqueued s (joining n) → Shutdown n enqueued s returned

Move-Reach :
    {n : ℕ} {enqueued : List Ptr} {s t : System}
    → Reach n enqueued s
    → Move n s t
    → Reach n enqueued t
Move-Reach r (woken i lt e) = wake i r lt e
Move-Reach r (dequeued i lt e) = dequeue i r lt e
Move-Reach r (ran i req lt e) = run i req r lt e

Shutdown-Reach :
    {n : ℕ} {enqueued : List Ptr} {s : System} {pc : DestroyPc}
    → Shutdown n enqueued s pc
    → Reach n enqueued s
Shutdown-Reach (called r) = r
Shutdown-Reach (work d m) = Move-Reach (Shutdown-Reach d) m
Shutdown-Reach (join i d lt e) = Shutdown-Reach d
Shutdown-Reach (free_pool d) = Shutdown-Reach d

abbrev count_of : DestroyPc → ℕ
count_of (joining joined) = joined
count_of returned = 0

first_join :
    {n : ℕ} {enqueued : List Ptr} {s : System} {pc : DestroyPc}
    → 0 < n
    → All IsRequest enqueued
    → Shutdown n enqueued s pc
    → pc ≡ joining 0
first_join some_worker real (called r) = refl
first_join some_worker real (work d m) = first_join some_worker real d
first_join some_worker real (join i d lt e) = absurd (never_exits (Shutdown-Reach d) real i e)
first_join some_worker real (free_pool {s} d) =
    let none_joined = ap count_of (first_join some_worker real d) in
    absurd (omega (arith, some_worker, none_joined))

-- With at least one worker, and no NULL among the requests that main enqueues, `thread_pool_destroy`
-- never returns, whatever the workers do: the program hangs.
pub never_returns :
    {n : ℕ} {enqueued : List Ptr} {s : System}
    → 0 < n
    → All IsRequest enqueued
    → ¬ Shutdown n enqueued s returned
never_returns some_worker real d = cc (first_join some_worker real d)
