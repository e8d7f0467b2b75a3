-- ===== src/M9/Queue.antt =====
-- M9/queue.c over the linked nodes in memory. The results of the calls on the mutex and the condition
-- variable are not looked at; both stand inside the queue object. `closed` and `size` are never written.
use sp327_butt_k.Base.{ℕ, ◌+◌, some, List, [], ◌∷◌, ◌==◌, if◌then◌else◌}
use sp327_butt_k.Memory.{
  Ptr, null, Queue, node, queue, lock, unlock, wait, signal, Store, log, blocked, Cmd, pure, ◌>>=◌,
  ◌>>◌, Os, emit, store, exit, load_node, load_queue, free,
}
use sp327_butt_k.Queue.{node_size, malloc, link}

-- The size of `queue_t` on a 64-bit machine, and where its mutex and its condition variable stand.
abbrev pub queue_bytes : ℕ
queue_bytes = 112

abbrev pub mutex_of : Ptr → Ptr
mutex_of q = q + 16

abbrev pub cond_of : Ptr → Ptr
cond_of q = q + 56

-- `raw_block`: what the block from `malloc` holds.
unfoldable pub queue_create : Os → (raw_block : Queue) → Cmd Ptr
queue_create os raw_block = do
  q ← malloc os queue_bytes
  if q == null
      then exit
      else do store q (some (queue (record raw_block { front = null; rear = null }))); pure q

-- The test of `q->rear`, and `q->rear = node`.
unfoldable pub append_last : (q n : Ptr) → Cmd (Unit {0})
append_last q n = do link q n; r ← load_queue q; store q (some (queue (record r { rear = n })))

unfoldable pub queue_enqueue : Os → (q req : Ptr) → Cmd (Unit {0})
queue_enqueue os q req = do
  n ← malloc os node_size
  if n == null then exit else do
    store n (some (node req null))
    emit (lock (mutex_of q))
    append_last q n
    emit (signal (cond_of q))
    emit (unlock (mutex_of q))

-- The `while`; with no wake-up left the caller stays blocked.
unfoldable pub wait_loop : List (Store → Store) → Ptr → Cmd (Unit {0})
wait_loop [] q = do
  r ← load_queue q
  if r.front == null then (λ s. blocked (log s (wait (cond_of q) (mutex_of q)))) else pure tt
wait_loop (w ∷ ws) q = do
  r ← load_queue q
  if r.front == null
      then (λ s. wait_loop ws q (w (log s (wait (cond_of q) (mutex_of q)))))
      else pure tt

-- `node_t* node = q->front; q->front = node->next; if (!q->front) q->rear = NULL;`
unfoldable pub unlink_first : Ptr → Cmd Ptr
unlink_first q = do
  r ← load_queue q
  (_, next) ← load_node r.front
  store q (some (queue (record r { front = next; rear = if next == null then null else r.rear })))
  pure r.front

unfoldable pub take_first : Ptr → Cmd Ptr
take_first q = do
  n ← unlink_first q
  emit (unlock (mutex_of q))
  (req, _) ← load_node n
  free n
  pure req

unfoldable pub queue_dequeue : List (Store → Store) → Ptr → Cmd Ptr
queue_dequeue wakes q = do emit (lock (mutex_of q)); wait_loop wakes q; take_first q

-- The nodes are not given back.
unfoldable pub queue_destroy : Ptr → Cmd (Unit {0})
queue_destroy q = free q
