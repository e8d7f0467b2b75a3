-- ===== src/Queue.antt =====
-- queue.c: the request queue, a linked list with pointers to both ends, a mutex and a condition
-- variable. Each function is a command over the memory, with the calls of LOCK_MTX and UNLOCK_MTX
-- (common.h) where the source makes them. `size` is an `int`, kept as its 32-bit pattern: an
-- increment past INT_MAX is undefined, a decrement below 0 gives the pattern of -1.
pub mod Chain
pub mod Spec
pub mod Enqueue
pub mod Dequeue
pub mod Accessors
pub mod Destroy
pub mod Refinement
mod Examples
use sp327_butt_k.Base.{
  ℕ, zero, suc, ◌+◌, ◌-◌, ◌%◌, ◌^◌, Bool, true, false, not, ◌&&◌, some, none, List, [], ◌∷◌, ◌==◌,
  if◌then◌else◌,
}
use sp327_butt_k.Memory.{
  Ptr, null, Queue, Cell, node, queue, raw, Event, lock, unlock, wait, signal, broadcast, Store,
  write, log, Run, ok, exit_failure, fault, blocked, out_of_fuel, Cmd, pure, ◌>>=◌, ◌>>◌, Os, emit,
  store, exit, load_node, load_queue, set_next, free,
}

-- The sizes of `node_t` and `struct queue` on a 64-bit machine.
abbrev pub node_size : ℕ
node_size = 16

abbrev pub queue_size_bytes : ℕ
queue_size_bytes = 48

abbrev pub int_max : ℕ
int_max = 2 ^ 31 - 1

-- `x++` and `x--` on an `int`.
unfoldable pub increment : ℕ → Cmd ℕ
increment x = if x == int_max then (λ _. fault) else pure ((x + 1) % 2 ^ 32)

unfoldable pub decrement : ℕ → Cmd ℕ
decrement x = if x == 2 ^ 31 then (λ _. fault) else pure ((x + 2 ^ 32 - 1) % 2 ^ 32)

-- The block is marked as allocated at once; the caller stores the object there.
unfoldable pub malloc : Os → (size : ℕ) → Cmd Ptr
malloc os size s =
    if os.malloc size s.heap == null
    then ok null s
    else ok (os.malloc size s.heap) (write s (os.malloc size s.heap) (some (raw size)))

-- `if (q->rear) q->rear->next = node; else q->front = node;`
unfoldable pub link : (q n : Ptr) → Cmd (Unit {0})
link q n = do
  r ← load_queue q
  if r.rear == null then store q (some (queue (record r { front = n }))) else set_next r.rear n

-- `q->rear = node; q->size++;`
unfoldable pub advance_rear : (q n : Ptr) → Cmd (Unit {0})
advance_rear q n = do
  r ← load_queue q
  size ← increment r.size
  store q (some (queue (record r { rear = n; size = size })))

-- The two together.
unfoldable pub append_node : (q n : Ptr) → Cmd (Unit {0})
append_node q n = do link q n; advance_rear q n

-- `q->front = node->next; if (!q->front) q->rear = NULL; q->size--;`
unfoldable pub unlink_front : Ptr → Cmd Ptr
unlink_front q = do
  r ← load_queue q
  (_, next) ← load_node r.front
  size ← decrement r.size
  store q (
      some (
        queue
          (record r { front = next; rear = if next == null then null else r.rear; size = size })))
  pure r.front

module _ (os : Os) where
  unfoldable pub lock_mtx : Ptr → Cmd (Unit {0})
  lock_mtx m s = if os.mutex_lock m s == 0 then ok tt (log s (lock m)) else exit_failure

  unfoldable pub unlock_mtx : Ptr → Cmd (Unit {0})
  unlock_mtx m s = if os.mutex_unlock m s == 0 then ok tt (log s (unlock m)) else exit_failure

  unfoldable pub queue_init : (mutex cond_var : Ptr) → Cmd Ptr
  queue_init mutex cond_var = do
    q ← malloc os queue_size_bytes
    if q == null then exit else do
      store q (
          some (
            queue (record {
              front = null;
              rear = null;
              mutex = mutex;
              cond = cond_var;
              closed = false;
              size = 0;
            })))
      pure q

  -- The part of `queue_enqueue` that holds the mutex.
  unfoldable pub enqueue_locked : (q n : Ptr) → Cmd (Unit {0})
  enqueue_locked q n = do
    r ← load_queue q
    if r.closed
        then (do free n; unlock_mtx r.mutex)
        else (do append_node q n; emit (signal r.cond); unlock_mtx r.mutex)

  unfoldable pub queue_enqueue : (q req : Ptr) → Cmd (Unit {0})
  queue_enqueue q req = do
    n ← malloc os node_size
    if n == null then exit else do
      store n (some (node req null))
      r ← load_queue q
      lock_mtx r.mutex
      enqueue_locked q n

  -- The `while` around `pthread_cond_wait`. Each wake-up is what the other threads did to the memory
  -- while this one waited, a spurious one included; with none left the caller stays blocked.
  unfoldable pub wait_loop : List (Store → Store) → Ptr → Cmd (Unit {0})
  wait_loop [] q = do
    r ← load_queue q
    if r.front == null && not r.closed
        then (λ s. blocked (log s (wait r.cond r.mutex)))
        else pure tt
  wait_loop (w ∷ ws) q = do
    r ← load_queue q
    if r.front == null && not r.closed
        then (λ s. wait_loop ws q (w (log s (wait r.cond r.mutex))))
        else pure tt

  -- What `queue_dequeue` does after its wait.
  unfoldable pub take_front : Ptr → Cmd Ptr
  take_front q = do
    r ← load_queue q
    if r.front == null && r.closed
        then (do unlock_mtx r.mutex; pure null)
        else do n ← unlink_front q; unlock_mtx r.mutex; (req, _) ← load_node n; free n; pure req

  unfoldable pub queue_dequeue : List (Store → Store) → Ptr → Cmd Ptr
  queue_dequeue wakes q = do r ← load_queue q; lock_mtx r.mutex; wait_loop wakes q; take_front q

  unfoldable pub queue_close : Ptr → Cmd (Unit {0})
  queue_close q = do
    r ← load_queue q
    lock_mtx r.mutex
    r ← load_queue q
    store q (some (queue (record r { closed = true })))
    emit (broadcast r.cond)
    unlock_mtx r.mutex

  unfoldable pub queue_isclosed : Ptr → Cmd Bool
  queue_isclosed q = do
    r ← load_queue q
    lock_mtx r.mutex
    r ← load_queue q
    unlock_mtx r.mutex
    pure r.closed

  unfoldable pub queue_size : Ptr → Cmd ℕ
  queue_size q = do
    r ← load_queue q
    lock_mtx r.mutex
    r ← load_queue q
    unlock_mtx r.mutex
    pure r.size

-- The `while` of `queue_destroy`, a node and its request freed in each round.
unfoldable pub destroy_loop : ℕ → Ptr → Cmd (Unit {0})
destroy_loop zero q = λ _. out_of_fuel
destroy_loop (suc k) q = do
  r ← load_queue q
  if r.front == null then pure tt else do
    (item, next) ← load_node r.front
    store q (some (queue (record r { front = next })))
    free item
    free r.front
    destroy_loop k q

unfoldable pub queue_destroy : ℕ → Ptr → Cmd (Unit {0})
queue_destroy fuel q = do destroy_loop fuel q; free q
