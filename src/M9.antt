-- ===== src/M9.antt =====
-- M9/worker_thread.c and M9/queue.c: worker threads that share one queue, in any interleaving. The
-- `queue_dequeue` of this version waits while the queue is empty and never looks at `closed`. The
-- queue stands here as the list of its items; a step is one critical section or one task.
pub mod Workers
pub mod ThreadPool
pub mod Queue
pub mod Fifo
pub mod Calls
pub mod Shutdown
mod Examples
use sp327_butt_k.Base.{ℕ, ◌+◌, ◌≡◌, ◌<◌, List, [], ◌∷◌, ◌++◌, ◌==◌, if◌then◌else◌}
use sp327_butt_k.Memory.{Ptr, null}
use sp327_butt_k.Pool.Family.{update}

-- Where `do_work` stands.
pub data Pc : Type 0 where
  at_queue : Pc  -- at the call of `queue_dequeue`, or woken inside it
  waiting : Pc  -- in `pthread_cond_wait`
  running : (req : Ptr) → Pc
  exited : Pc  -- after `pthread_exit`

pub record Worker : Type 0 where
  pub pc : Pc
  pub req_count : ℕ
  pub processed : List Ptr  -- a record of the requests that it has run, oldest first

pub record System : Type 0 where
  pub items : List Ptr
  pub workers : ℕ → Worker

-- Worker `i` at `pc`.
abbrev pub set_pc : System → ℕ → Pc → ℕ → Worker
set_pc s i pc = update s.workers i (record (s.workers i) { pc = pc })

-- `req = queue_dequeue(params->que)`, then the test of the `do`-`while`.
abbrev pub received : System → ℕ → List Ptr → System
received s i [] = record { items = []; workers = set_pc s i waiting }
received s i (req ∷ items) = record {
  items = items;
  workers = set_pc s i (if req == null then exited else running req);
}

unfoldable pub fetch : System → ℕ → System
fetch s i = received s i s.items

-- `req->work_fn(req->arg); req_count++; free(req);`
unfoldable pub process : System → ℕ → (req : Ptr) → System
process s i req = record s {
  workers = update s.workers i (record {
    pc = at_queue;
    req_count = (s.workers i).req_count + 1;
    processed = (s.workers i).processed ++ req ∷ [];
  });
}

abbrev pub init : System
init = record { items = []; workers = λ _. record { pc = at_queue; req_count = 0; processed = [] } }

-- The states that `n` workers can reach while main enqueues the given requests, newest first. A
-- waiting worker may wake at any time, by a signal or for no reason.
pub data Reach (n : ℕ) : List Ptr → System → Type 0 where
  started : Reach n [] init
  enqueue :
      {enqueued : List Ptr} {s : System} (req : Ptr)
      → Reach n enqueued s
      → Reach n (req ∷ enqueued) (record s { items = s.items ++ req ∷ [] })
  wake :
      {enqueued : List Ptr} {s : System} (i : ℕ)
      → Reach n enqueued s
      → i < n
      → (s.workers i).pc ≡ waiting
      → Reach n enqueued (record s { workers = set_pc s i at_queue })
  dequeue :
      {enqueued : List Ptr} {s : System} (i : ℕ)
      → Reach n enqueued s
      → i < n
      → (s.workers i).pc ≡ at_queue
      → Reach n enqueued (fetch s i)
  run :
      {enqueued : List Ptr} {s : System} (i : ℕ) (req : Ptr)
      → Reach n enqueued s
      → i < n
      → (s.workers i).pc ≡ running req
      → Reach n enqueued (process s i req)
