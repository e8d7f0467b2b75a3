-- ===== src/Worker.antt =====
-- worker_thread.c over the memory: a worker object is built before its thread starts, and given back
-- after its thread is joined. What the thread does in between is modelled in `Pool`.
pub mod Lifetime
pub mod Simple
mod Examples
use sp327_butt_k.Base.{ℕ, Bool, ◌||◌, some, ◌==◌, if◌then◌else◌}
use sp327_butt_k.Memory.{
  Ptr, null, Cell, worker, create, join, Store, write, log, Run, ok, Cmd, pure, ◌>>=◌, ◌>>◌, Os,
  emit, store, exit, load, as_worker, free, as_request, raw,
}
use sp327_butt_k.Queue.{malloc, queue_init, queue_destroy}

-- The sizes of `worker_thread_t`, `pthread_mutex_t` and `pthread_cond_t` on a 64-bit machine.
abbrev pub worker_size : ℕ
worker_size = 16

abbrev pub mutex_size : ℕ
mutex_size = 40

abbrev pub cond_size : ℕ
cond_size = 48

-- `if (ret != 0)` the program reports the error and exits.
unfoldable pub check : (Store → ℕ) → Cmd (Unit {0})
check ret s = if ret s == 0 then ok tt s else (exit s)

module _ (os : Os) where
  -- The thread starts once the queue is in place.
  unfoldable pub start_thread : (w q : Ptr) → Cmd Ptr
  start_thread w q = do
    store w (some (worker 0 q))
    check (os.thread_create w)
    λ s. ok tt (write s w (some (worker (os.thread_id w s) q)))
    emit (create w)
    pure w

  unfoldable pub create_worker_thread : Cmd Ptr
  create_worker_thread = do
    w ← malloc os worker_size
    if w == null then exit else do
      mutex ← malloc os mutex_size
      cond ← malloc os cond_size
      if mutex == null || cond == null then exit else do
        check (os.mutex_init mutex)
        check (os.cond_init cond)
        q ← queue_init os mutex cond
        start_thread w q

  -- `fuel` bounds the rounds of `queue_destroy`.
  unfoldable pub join_worker_thread : (fuel : ℕ) → Ptr → Cmd (Unit {0})
  join_worker_thread fuel w = do
    (thread_id, q) ← (load w >>= as_worker)
    check (os.thread_join thread_id)
    emit (join thread_id)
    queue_destroy fuel q
    free w
