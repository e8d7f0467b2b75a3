-- ===== src/Pool.antt =====
-- worker_thread.c, thread_pool.c and the loop of main.c: the threads of the request server, in any
-- interleaving. A step of the system is one critical section, one task or one join. Each worker has
-- its own queue, which stands here by its specification (`Queue.Refinement` justifies that).
pub mod Family
pub mod Invariant
pub mod Counting
pub mod Objects
pub mod Termination
mod Examples
use sp327_butt_k.Base.{
  ℕ, suc, ◌+◌, ◌%◌, ◌<◌, ◌≡◌, Bool, true, false, Option, none, some, List, [], ◌∷◌, ◌++◌, ◌==◌,
  if◌then◌else◌,
}
use sp327_butt_k.Memory.{Ptr, null}
use sp327_butt_k.Queue.Spec
use sp327_butt_k.Queue.Spec.{Fifo}
use Family.{update}

-- Where `worker_func` stands.
pub data WorkerPc : Type 0 where
  starting : WorkerPc  -- before the thread number is taken
  at_queue : WorkerPc  -- at the call of `queue_dequeue`, or woken inside it
  waiting : WorkerPc  -- in `pthread_cond_wait`
  running : (req : Ptr) → WorkerPc  -- in `req->work_fn(req->arg)`
  finished : WorkerPc  -- returned

-- One worker with its request queue. `assigned` and `processed` record the requests that
-- `thread_pool_add` gave to it and those that it has run, oldest first.
pub record Worker : Type 0 where
  pub pc : WorkerPc
  pub local_id : ℕ
  pub queue : Fifo
  pub assigned : List Ptr
  pub processed : List Ptr

-- The main thread: requests still to be added, then the two loops of `thread_pool_destroy`.
pub data MainPc : Type 0 where
  adding : (requests : List Ptr) → MainPc
  closing : (i : ℕ) → MainPc
  joining : (i : ℕ) → MainPc
  destroyed : MainPc

pub record System : Type 0 where
  pub main : MainPc
  pub thread_counter : ℕ
  pub workers : ℕ → Worker

-- A signal or a broadcast wakes the one thread that can wait on this queue.
abbrev pub wake : WorkerPc → WorkerPc
wake waiting = at_queue
wake pc = pc

-- `queue_enqueue(pool->workers[index]->request_queue, req)`
unfoldable pub thread_pool_add : Ptr → Worker → Worker
thread_pool_add req w = record w {
  pc = wake w.pc;
  queue = Spec.enqueue req w.queue;
  assigned = w.assigned ++ req ∷ [];
}

-- `queue_close(pool->workers[i]->request_queue)`
unfoldable pub close_worker : Worker → Worker
close_worker w = record w { pc = wake w.pc; queue = Spec.close w.queue }

-- `req = queue_dequeue(worker->request_queue); if (req == NULL) break;`
abbrev pub received : Option (Ptr × Fifo) → Worker → Worker
received none w = record w { pc = waiting }
received (some (req, f)) w = record w {
  pc = if req == null then finished else running req;
  queue = f;
}

unfoldable pub fetch : Worker → Worker
fetch w = received (Spec.dequeue w.queue) w

-- `req->work_fn(req->arg); free(req); processed_count++;`
unfoldable pub process : Ptr → Worker → Worker
process req w = record w { pc = at_queue; processed = w.processed ++ req ∷ [] }

-- One step of worker_func, the thread counter before and after.
pub data WorkerStep : ℕ → Worker → ℕ → Worker → Type 0 where
  start :
      {k : ℕ} {w : Worker}
      → w.pc ≡ starting
      → WorkerStep k w (k + 1) (record w { pc = at_queue; local_id = k })
  dequeue : {k : ℕ} {w : Worker} → w.pc ≡ at_queue → WorkerStep k w k (fetch w)
  run : {k : ℕ} {w : Worker} (req : Ptr) → w.pc ≡ running req → WorkerStep k w k (process req w)

-- A worker before its thread runs, as `create_worker_thread` leaves it.
abbrev pub new_worker : Worker
new_worker = record {
  pc = starting;
  local_id = 0;
  queue = Spec.empty;
  assigned = [];
  processed = [];
}

-- After `thread_pool_init(num_threads)`, with the requests that main will add.
abbrev pub init : List Ptr → System
init requests = record { main = adding requests; thread_counter = 1; workers = λ _. new_worker }

-- A step of the pool of `n` workers. The value of `rand()` is any number.
pub data Step (n : ℕ) (s : System) : System → Type 0 where
  add :
      (rand req : ℕ) (requests : List Ptr)
      → s.main ≡ adding (req ∷ requests)
      → 0 < n
      → Step n s (record s {
        main = adding requests;
        workers = update s.workers (rand % n) (thread_pool_add req (s.workers (rand % n)));
      })
  destroy : s.main ≡ adding [] → Step n s (record s { main = closing 0 })
  close :
      (i : ℕ)
      → s.main ≡ closing i
      → i < n
      → Step n s (record s {
        main = closing (i + 1);
        workers = update s.workers i (close_worker (s.workers i));
      })
  closed_all : s.main ≡ closing n → Step n s (record s { main = joining 0 })
  join :
      (i : ℕ)
      → s.main ≡ joining i
      → i < n
      → (s.workers i).pc ≡ finished
      → Step n s (record s { main = joining (i + 1) })
  joined_all : s.main ≡ joining n → Step n s (record s { main = destroyed })
  work :
      (i : ℕ) {k : ℕ} {w : Worker}
      → i < n
      → WorkerStep s.thread_counter (s.workers i) k w
      → Step n s (record s { thread_counter = k; workers = update s.workers i w })

-- Reachable states. A waiting thread may also wake for no reason.
pub data Reach (n : ℕ) (requests : List Ptr) : System → Type 0 where
  started : Reach n requests (init requests)
  next : {s t : System} → Reach n requests s → Step n s t → Reach n requests t
  spurious :
      {s : System} (i : ℕ)
      → Reach n requests s
      → i < n
      → (s.workers i).pc ≡ waiting
      → Reach n requests
          (record s { workers = update s.workers i (record (s.workers i) { pc = at_queue }) })
