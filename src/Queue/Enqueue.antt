-- ===== src/Queue/Enqueue.antt =====
-- `queue_enqueue` of queue.c on an open and on a closed queue.
use sp327_butt_k.Base.{
  ◌+◌, ◌<◌, ◌≡◌, refl, true, false, some, [], ◌∷◌, ◌++◌, arith, ◌==◌, length, length-append, ℕ,
  none,
}
use sp327_butt_k.Memory.{
  Ptr, null, Queue, node, queue, raw, read, update, lock, unlock, Store, write, log, ok, Os,
  HasMemory, HasMutexes, signal,
}
use sp327_butt_k.Memory.Access.{Holds, load_queue-ok, set_next-ok, free-ok}
use sp327_butt_k.Memory.Returns.{Returns, returns, bind}
use sp327_butt_k.Queue.{
  increment, malloc, lock_mtx, unlock_mtx, link, advance_rear, node_size, queue_enqueue,
  enqueue_locked, append_node,
}
use sp327_butt_k.Queue.Chain.{
  Nodes, has, Chain, IsQueue, SameOutside, has-append, Chain-rear, rear-Holds, has-rear, snoc, last,
  not-has, frame, Ends, frame-IsQueue,
}

pub increment-ok : (x : ℕ) (s : Store) → x < 2147483647 → increment x s ≡ ok (x + 1) s
unfolding increment
increment-ok x s h = ground arith

module _ {os : Os} (mtx : HasMutexes os) where
  pub lock-ok : (m : Ptr) (s : Store) → lock_mtx os m s ≡ ok tt (log s (lock m))
  unfolding lock_mtx
  lock-ok m s = rw (mtx.lock_ok m s)

  pub unlock-ok : (m : Ptr) (s : Store) → unlock_mtx os m s ≡ ok tt (log s (unlock m))
  unfolding unlock_mtx
  unlock-ok m s = rw (mtx.unlock_ok m s)

pub malloc-ok :
    {os : Os} (mem : HasMemory os) (size : ℕ) (s : Store)
    → malloc os size s
      ≡ ok (os.malloc size s.heap) (write s (os.malloc size s.heap) (some (raw size)))
unfolding malloc
malloc-ok mem size s = ground (arith, mem.ne_null size s.heap)

-- The queue over the old nodes and the new one, with nothing else written.
pub record Appended (s : Store) (q : Ptr) (r : Queue) (xs : Nodes) (n req : Ptr) (t : Store)
    : Type 0 where
  pub after : Queue
  pub is : IsQueue t.heap q after (xs ++ (n, req) ∷ [])
  pub kept : (after.closed ≡ r.closed) × (after.mutex ≡ r.mutex) × (after.cond ≡ r.cond)
  pub same : SameOutside q (xs ++ (n, req) ∷ []) s.heap t.heap
  pub trace : t.trace ≡ s.trace

pub advance_rear-ok :
    (s : Store) {q : Ptr} (n : Ptr) {r : Queue}
    → Holds s.heap q (queue r)
    → r.size < 2147483647
    → advance_rear q n s
      ≡ ok tt (write s q (some (queue (record r { rear = n; size = r.size + 1 }))))
unfolding advance_rear
advance_rear-ok s n {r} e few = rw (load_queue-ok s e, increment-ok r.size s few)

module _ (s : Store) {q n req : Ptr} {r : Queue} (here : Holds s.heap q (queue r))
    (new : Holds s.heap n (node req null)) where
  link-empty :
      r.front ≡ null
      → r.rear ≡ null
      → r.size ≡ 0
      → Returns (λ _. Appended s q r [] n req) (append_node q n s)
  unfolding append_node link read update
  link-empty ef er es =
      let e : (r.rear == null) ≡ true = ground arith in
      let r1 = record r { front = n } in
      let s1 = write s q (some (queue r1)) in
      let here1 : Holds s1.heap q (queue r1) = ground (arith, here.ne_null) in
      rw (load_queue-ok s here, e, advance_rear-ok s1 n here1 (omega arith))
        (returns (record {
          after = record r1 { rear = n; size = r.size + 1 };
          is = record {
            here = ground (arith, here.ne_null);
            ends = last (ground (arith, here.holds, new.holds, new.ne_null)) refl;
            size = omega arith;
            fits = omega arith;
          };
          kept = (refl, refl, refl);
          same = ground arith;
          trace = refl;
        }))

  link-nonempty :
      {x : Ptr × Ptr} {xs : Nodes}
      → Chain s.heap r.rear r.front (x ∷ xs)
      → r.size ≡ length (x ∷ xs)
      → length (x ∷ xs) < 2147483647
      → has n (x ∷ xs) ≡ false
      → Returns (λ _. Appended s q r (x ∷ xs) n req) (append_node q n s)
  unfolding append_node link read update
  link-nonempty {x} {xs} c es few out =
      let (d, at_rear) = rear-Holds c in
      let s1 = write s r.rear (some (node d n)) in
      let here1 : Holds s1.heap q (queue r) =
        ground (arith, here.ne_null, here.holds, at_rear.holds) in
      rw
        (
          load_queue-ok s here,
          Chain-rear c,
          set_next-ok s n at_rear,
          advance_rear-ok s1 n here1 (omega arith),
        )
        (returns (record {
          after = record r { rear = n; size = r.size + 1 };
          is = record {
            here = ground (arith, here.ne_null);
            ends =
                snoc c
                  (ground (arith, here.holds, new.ne_null, new.holds, at_rear.holds, has-rear c))
                  out (λ a d' m e i. ground (arith, here.holds, at_rear.holds));
            size = omega (arith, length-append xs ((n, req) ∷ []));
            fits = omega (arith, length-append xs ((n, req) ∷ []));
          };
          kept = (refl, refl, refl);
          same = λ a ne i. ground (arith, has-rear c, has-append a xs ((n, req) ∷ []));
          trace = refl;
        }))

-- The outcome of a call on an open queue: the list ends in the new node, the waiter is signalled while
-- the mutex is held, and the mutex is released.
pub record Enqueued (s : Store) (q : Ptr) (r : Queue) (xs : Nodes) (n req : Ptr) (t : Store)
    : Type 0 where
  pub after : Queue
  pub is : IsQueue t.heap q after (xs ++ (n, req) ∷ [])
  pub kept : (after.closed ≡ r.closed) × (after.mutex ≡ r.mutex) × (after.cond ≡ r.cond)
  pub same : SameOutside q (xs ++ (n, req) ∷ []) s.heap t.heap
  pub trace : t.trace ≡ unlock r.mutex ∷ signal r.cond ∷ lock r.mutex ∷ s.trace

-- The memory once the new node at `n` is filled in.
abbrev filled : Store → (n req : Ptr) → Store
filled s n req = write (write s n (some (raw node_size))) n (some (node req null))

module _ {os : Os} (mem : HasMemory os) (mtx : HasMutexes os) (s : Store) {q : Ptr} {r : Queue}
    {xs : Nodes} (req : Ptr) (is : IsQueue s.heap q r xs) where
  abbrev n : Ptr
  n = os.malloc node_size s.heap

  abbrev s1 : Store
  s1 = log (filled s n req) (lock r.mutex)

  filled-here : Holds s1.heap q (queue r)
  unfolding read update
  filled-here = ground (arith, is.here.ne_null, is.here.holds, mem.fresh node_size s.heap)

  filled-new : Holds s1.heap n (node req null)
  unfolding read update
  filled-new = ground (arith, mem.ne_null node_size s.heap)

  new-not_has : {rear p : Ptr} {ys : Nodes} → Chain s.heap rear p ys → has n ys ≡ false
  new-not_has c = not-has n c λ d m e. ground (arith, mem.fresh node_size s.heap)

  filled-Chain : {rear p : Ptr} {ys : Nodes} → Chain s.heap rear p ys → Chain s1.heap rear p ys
  unfolding read update
  filled-Chain c = frame c λ a d m e i. ground (arith, mem.fresh node_size s.heap)

  -- The part between lock and signal.
  filled-link :
      (ys : Nodes)
      → Ends s.heap r.front r.rear ys
      → r.size ≡ length ys
      → length ys < 2147483647
      → Returns (λ _. Appended s1 q r ys n req) (append_node q n s1)
  filled-link [] e es few = link-empty s1 filled-here filled-new e.0 e.1 es
  filled-link (y ∷ ys) c es few =
      link-nonempty s1 filled-here filled-new (filled-Chain c) es few (new-not_has c)

  filled-same :
      (t : Store) → Appended s1 q r xs n req t → SameOutside q (xs ++ (n, req) ∷ []) s.heap t.heap
  unfolding read update
  filled-same t ap a ne i = ground (arith, ap.same a, has-append a xs ((n, req) ∷ []))

  unlocked :
      (t : Store)
      → Appended s1 q r xs n req t
      → Returns (λ _. Enqueued s q r xs n req) (unlock_mtx os r.mutex (log t (signal r.cond)))
  unlocked t ap = rw (unlock-ok mtx r.mutex (log t (signal r.cond))) (
      returns (record {
        after = ap.after;
        is = ap.is;
        kept = ap.kept;
        same = filled-same t ap;
        trace = ground (arith, ap.trace);
      }))

  -- After `free(node)` every address reads as before the call.
  unfilled-same : (a : Ptr) → read (write s1 n none).heap a ≡ read s.heap a
  unfolding read update
  unfilled-same a = ground (arith, mem.fresh node_size s.heap)

  unfilled : IsQueue (write s1 n none).heap q r xs
  unfilled = frame-IsQueue is λ a i. unfilled-same a

  -- What the call comes to once the mutex is held.
  enqueue-lock : queue_enqueue os q req s ≡ enqueue_locked os q n s1
  unfolding queue_enqueue
  enqueue-lock =
      let ne : (n == null) ≡ false = ground (arith, mem.ne_null node_size s.heap) in
      rw (
        malloc-ok mem node_size s,
        ne,
        load_queue-ok (filled s n req) filled-here,
        lock-ok mtx r.mutex (filled s n req),
      )

  -- `queue_enqueue` on an open queue puts the request behind all others.
  pub enqueue-open :
      r.closed ≡ false
      → length xs < 2147483647
      → Returns (λ _. Enqueued s q r xs n req) (queue_enqueue os q req s)
  unfolding enqueue_locked
  enqueue-open op few =
      rw (enqueue-lock, load_queue-ok s1 filled-here)
        (simp op (bind (filled-link xs is.ends is.size few) λ _ t ap. unlocked t ap))

  -- `queue_enqueue` on a closed queue it changes nothing, and still releases the mutex.
  pub enqueue-closed :
      r.closed ≡ true
      → Returns
          (λ _ t.
            IsQueue t.heap q r xs
            × ((a : Ptr) → read t.heap a ≡ read s.heap a)
            × (t.trace ≡ unlock r.mutex ∷ lock r.mutex ∷ s.trace))
          (queue_enqueue os q req s)
  unfolding enqueue_locked
  enqueue-closed cl =
      rw (enqueue-lock, load_queue-ok s1 filled-here)
        (simp (cl, free-ok s1 filled-new, unlock-ok mtx) (returns (unfilled, unfilled-same, refl)))
