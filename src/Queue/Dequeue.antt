-- ===== src/Queue/Dequeue.antt =====
-- `queue_dequeue` of queue.c: with a request at hand, after waiting, and on a closed empty queue.
use sp327_butt_k.Base.{
  ℕ, ◌-◌, ◌<◌, ◌≡◌, refl, Bool, true, false, not, ◌&&◌, some, none, List, [], ◌∷◌, arith, ◌==◌,
  if◌then◌else◌,
}
use sp327_butt_k.Memory.{
  Ptr, null, Queue, node, queue, read, update, lock, unlock, wait, Store, write, log, ok, blocked,
  Os, HasMutexes,
}
use sp327_butt_k.Memory.Access.{Holds, free-ok, load_queue-ok, load_node-ok}
use sp327_butt_k.Memory.Returns.{Returns, returns}
use sp327_butt_k.Queue.{decrement, wait_loop, unlink_front, take_front, queue_dequeue}
use sp327_butt_k.Queue.Chain.{Nodes, has, Ends, IsQueue, Head, Rest, Chain-Head, Chain-front, frame}
use sp327_butt_k.Queue.Enqueue.{lock-ok, unlock-ok}

decrement-ok : (x : ℕ) (s : Store) → 0 < x → x < 2147483648 → decrement x s ≡ ok (x - 1) s
unfolding decrement
decrement-ok x s pos small = ground arith

-- The test of the `while`: the caller has to wait.
abbrev must_wait : Queue → Bool
must_wait r = r.front == null && not r.closed

-- The wake-ups `wakes` take the waiting caller from `s` to a memory in which it need not wait.
pub data Woken (q : Ptr) : List (Store → Store) → Store → Store → Type 0 where
  ready :
      {ws : List (Store → Store)} {s : Store} {r : Queue}
      → Holds s.heap q (queue r)
      → must_wait r ≡ false
      → Woken q ws s s
  again :
      {w : Store → Store} {ws : List (Store → Store)} {s t : Store} {r : Queue}
      → Holds s.heap q (queue r)
      → must_wait r ≡ true
      → Woken q ws (w (log s (wait r.cond r.mutex))) t
      → Woken q (w ∷ ws) s t

wait_loop-Woken :
    (os : Os) {q : Ptr} {ws : List (Store → Store)} {s t : Store}
    → Woken q ws s t
    → wait_loop os ws q s ≡ ok tt t
unfolding wait_loop
wait_loop-Woken os {ws = []} {s} (ready here e) = rw (load_queue-ok s here, e)
wait_loop-Woken os {ws = w ∷ ws} {s} (ready here e) = rw (load_queue-ok s here, e)
wait_loop-Woken os {s} (again here e more) = rw (load_queue-ok s here, e) (wait_loop-Woken os more)

-- The queue without its first node, which is given back to the heap. Nothing else is written.
pub record Dequeued (s : Store) (q : Ptr) (r : Queue) (p : Ptr) (xs : Nodes) (t : Store)
    : Type 0 where
  pub after : Queue
  pub is : IsQueue t.heap q after xs
  pub kept : (after.closed ≡ r.closed) × (after.mutex ≡ r.mutex) × (after.cond ≡ r.cond)
  pub same : (a : Ptr) → (q == a) ≡ false → read t.heap a ≡ (if p == a then none else read s.heap a)
  pub trace : t.trace ≡ unlock r.mutex ∷ s.trace

-- The queue object once its first node is unlinked.
abbrev unlinked : Queue → (next : Ptr) → Queue
unlinked r next = record r {
  front = next;
  rear = if next == null then null else r.rear;
  size = r.size - 1;
}

module _ (s : Store) {q : Ptr} {r : Queue} {p d : Ptr} {xs : Nodes}
    (is : IsQueue s.heap q r ((p, d) ∷ xs)) where
  head : Head s.heap r.rear r.front p d xs
  head = Chain-Head is.ends

  open head use {at, next, first, out, rest}

  unlink_front-ok : unlink_front q s ≡ ok r.front (write s q (some (queue (unlinked r next))))
  unfolding unlink_front
  unlink_front-ok = rw (
    load_queue-ok s is.here,
    load_node-ok s first,
    decrement-ok r.size s (omega (arith, is.size)) (omega (arith, is.size, is.fits)),
  )

  -- The memory at the end of the call.
  abbrev taken : Store
  taken = write (log (write s q (some (queue (unlinked r next)))) (unlock r.mutex)) r.front none

  taken-Ends :
      (ys : Nodes)
      → Rest s.heap r.rear next ys
      → has p ys ≡ false
      → Ends taken.heap next (unlinked r next).rear ys
  unfolding read update
  taken-Ends [] e o = ground arith
  taken-Ends (y ∷ ys) c o =
      rw (Chain-front c) (frame c λ a d' m e i. ground (arith, at, is.here.holds))

  taken-Dequeued : Dequeued s q r p xs taken
  unfolding read update
  taken-Dequeued = record {
    after = unlinked r next;
    is = record {
      here = ground (arith, is.here.ne_null, is.here.holds, first.holds);
      ends = taken-Ends xs rest out;
      size = omega (arith, is.size);
      fits = omega (arith, is.fits);
    };
    kept = (refl, refl, refl);
    same = ground (arith, at);
    trace = refl;
  }

  unlinked-first : Holds (write s q (some (queue (unlinked r next)))).heap r.front (node d next)
  unfolding read update
  unlinked-first = ground (arith, is.here.holds, first.ne_null, first.holds)

  pub take-cons :
      {os : Os}
      → HasMutexes os
      → Returns (λ got t. (got ≡ d) × Dequeued s q r p xs t) (take_front os q s)
  unfolding take_front
  take-cons mtx =
      let s1 = write s q (some (queue (unlinked r next))) in
      let e : (r.front == null && r.closed) ≡ false = ground (arith, Chain-front is.ends) in
      rw
        (
          load_queue-ok s is.here,
          e,
          unlink_front-ok,
          unlock-ok mtx r.mutex s1,
          load_node-ok (log s1 (unlock r.mutex)) unlinked-first,
          free-ok (log s1 (unlock r.mutex)) unlinked-first,
        )
        (returns (refl, taken-Dequeued))

module _ {os : Os} (mtx : HasMutexes os) {q : Ptr} where
  -- On an empty closed queue the answer is NULL.
  take-closed :
      (s : Store) {r : Queue}
      → IsQueue s.heap q r []
      → r.closed ≡ true
      → take_front os q s ≡ ok null (log s (unlock r.mutex))
  unfolding take_front
  take-closed s {r} is cl =
      let e : (r.front == null && r.closed) ≡ true = ground (arith, is.ends.0) in
      rw (load_queue-ok s is.here, e, unlock-ok mtx r.mutex s)

  module _ (s : Store) {r : Queue} (here : Holds s.heap q (queue r)) where
    -- The call until the caller need wait no more.
    dequeue-Woken :
        {ws : List (Store → Store)} {t : Store}
        → Woken q ws (log s (lock r.mutex)) t
        → queue_dequeue os ws q s ≡ take_front os q t
    unfolding queue_dequeue
    dequeue-Woken w = rw (load_queue-ok s here, lock-ok mtx r.mutex s, wait_loop-Woken os w)

    -- A caller whose wait ends in a memory with a request at the front of the queue returns that
    -- request, unlinks and frees its node, and writes nothing else.
    pub dequeue-cons :
        {ws : List (Store → Store)} {t : Store} {r' : Queue} {p d : Ptr} {xs : Nodes}
        → Woken q ws (log s (lock r.mutex)) t
        → IsQueue t.heap q r' ((p, d) ∷ xs)
        → Returns (λ got u. (got ≡ d) × Dequeued t q r' p xs u) (queue_dequeue os ws q s)
    dequeue-cons {t} w is = rw (dequeue-Woken w) (take-cons t is mtx)

    -- A caller whose wait ends with the queue closed and empty returns NULL and writes nothing.
    pub dequeue-closed :
        {ws : List (Store → Store)} {t : Store} {r' : Queue}
        → Woken q ws (log s (lock r.mutex)) t
        → IsQueue t.heap q r' []
        → r'.closed ≡ true
        → queue_dequeue os ws q s ≡ ok null (log t (unlock r'.mutex))
    dequeue-closed {t} w is cl = rw (dequeue-Woken w) (take-closed t is cl)

    -- With the queue open and empty and no wake-up to come, the caller stays in the condition wait.
    pub dequeue-blocks :
        IsQueue s.heap q r []
        → r.closed ≡ false
        → queue_dequeue os [] q s ≡ blocked (log (log s (lock r.mutex)) (wait r.cond r.mutex))
    unfolding queue_dequeue wait_loop
    dequeue-blocks is op =
        let e : (r.front == null && not r.closed) ≡ true = ground (arith, is.ends.0) in
        rw (
          load_queue-ok s here,
          lock-ok mtx r.mutex s,
          load_queue-ok (log s (lock r.mutex)) here,
          e,
        )
