-- ===== src/M9/Fifo.antt =====
-- The functions of M9/queue.c on a queue that holds given items.
use sp327_butt_k.Base.{
  ◌≡◌, refl, true, false, some, [], ◌∷◌, ◌++◌, arith, ◌==◌, if◌then◌else◌, none,
}
use sp327_butt_k.Memory.{
  Ptr, null, Queue, node, queue, raw, read, update, lock, Store, Heap, write, log, Os, HasMemory,
  unlock, ok, blocked, wait,
}
use sp327_butt_k.Memory.Access.{Holds, load_queue-ok, set_next-ok, load_node-ok, free-ok}
use sp327_butt_k.Memory.Returns.{Returns, returns, bind}
use sp327_butt_k.Queue.{node_size, link}
use sp327_butt_k.Queue.Chain.{
  Nodes, has, Chain, Ends, Chain-rear, rear-Holds, has-rear, snoc, last, not-has, frame, Head, Rest,
  Chain-Head, Chain-front,
}
use sp327_butt_k.Queue.Enqueue.{malloc-ok}
use sp327_butt_k.M9.Queue.{
  mutex_of, append_last, queue_enqueue, unlink_first, take_first, queue_dequeue, wait_loop, cond_of,
}

-- `q` is a queue object over nodes that hold these items.
pub record IsList (h : Heap) (q : Ptr) (xs : Nodes) : Type 0 where
  pub object : Queue
  pub here : Holds h q (queue object)
  pub ends : Ends h object.front object.rear xs

module _ (s : Store) {q n req : Ptr} {r : Queue} (here : Holds s.heap q (queue r))
    (new : Holds s.heap n (node req null)) where
  append_empty :
      r.front ≡ null
      → r.rear ≡ null
      → Returns (λ _ t. IsList t.heap q ((n, req) ∷ [])) (append_last q n s)
  unfolding append_last link read update
  append_empty ef er =
      let e : (r.rear == null) ≡ true = ground arith in
      let r1 = record r { front = n } in
      let s1 = write s q (some (queue r1)) in
      let here1 : Holds s1.heap q (queue r1) = ground (arith, here.ne_null) in
      rw (load_queue-ok s here, e, load_queue-ok s1 here1)
        (returns (record {
          object = record r1 { rear = n };
          here = ground (arith, here.ne_null);
          ends = last (ground (arith, here.holds, new.holds, new.ne_null)) refl;
        }))

  append_nonempty :
      {x : Ptr × Ptr} {xs : Nodes}
      → Chain s.heap r.rear r.front (x ∷ xs)
      → has n (x ∷ xs) ≡ false
      → Returns (λ _ t. IsList t.heap q ((x ∷ xs) ++ (n, req) ∷ [])) (append_last q n s)
  unfolding append_last link read update
  append_nonempty {x} {xs} c out =
      let (d, at_rear) = rear-Holds c in
      let s1 = write s r.rear (some (node d n)) in
      let here1 : Holds s1.heap q (queue r) =
        ground (arith, here.ne_null, here.holds, at_rear.holds) in
      rw (load_queue-ok s here, Chain-rear c, set_next-ok s n at_rear, load_queue-ok s1 here1)
        (returns (record {
          object = record r { rear = n };
          here = ground (arith, here.ne_null);
          ends =
              snoc c (ground (arith, here.holds, new.ne_null, new.holds, at_rear.holds, has-rear c))
                out (λ a d' m e i. ground (arith, here.holds, at_rear.holds));
        }))

abbrev filled : Store → (n req : Ptr) → Store
filled s n req = write (write s n (some (raw node_size))) n (some (node req null))

module _ {os : Os} (mem : HasMemory os) (s : Store) (q req : Ptr) where
  abbrev n : Ptr
  n = os.malloc node_size s.heap

  abbrev s1 : Store
  s1 = log (filled s n req) (lock (mutex_of q))

  filled-Holds : {r : Queue} → Holds s.heap q (queue r) → Holds s1.heap q (queue r)
  unfolding read update
  filled-Holds here = ground (arith, here.ne_null, here.holds, mem.fresh node_size s.heap)

  new-Holds : Holds s1.heap n (node req null)
  unfolding read update
  new-Holds = ground (arith, mem.ne_null node_size s.heap)

  filled_append :
      (ys : Nodes)
      → IsList s.heap q ys
      → Returns (λ _ t. IsList t.heap q (ys ++ (n, req) ∷ [])) (append_last q n s1)
  unfolding read update
  filled_append [] is = append_empty s1 (filled-Holds is.here) new-Holds is.ends.0 is.ends.1
  filled_append (y ∷ ys) is =
      append_nonempty s1 (filled-Holds is.here) new-Holds
        (frame is.ends λ a d m e i. ground (arith, mem.fresh node_size s.heap))
        (not-has n is.ends λ d m e. ground (arith, mem.fresh node_size s.heap))

  -- `queue_enqueue` puts the request behind all others.
  pub enqueue-append :
      {xs : Nodes}
      → IsList s.heap q xs
      → Returns (λ _ t. IsList t.heap q (xs ++ (n, req) ∷ [])) (queue_enqueue os q req s)
  unfolding queue_enqueue
  enqueue-append {xs} is =
      let ne : (n == null) ≡ false = ground (arith, mem.ne_null node_size s.heap) in
      rw (malloc-ok mem node_size s, ne)
        (bind (filled_append xs is)
          λ _ t is'. returns (record { object = is'.object; here = is'.here; ends = is'.ends }))

module _ (s : Store) {q p d : Ptr} {xs : Nodes} (is : IsList s.heap q ((p, d) ∷ xs)) where
  abbrev r : Queue
  r = is.object

  head : Head s.heap r.rear r.front p d xs
  head = Chain-Head is.ends

  open head use {at, next, first, out, rest}

  abbrev unlinked : Queue
  unlinked = record r { front = next; rear = if next == null then null else r.rear }

  unlink_first-ok : unlink_first q s ≡ ok r.front (write s q (some (queue unlinked)))
  unfolding unlink_first
  unlink_first-ok = rw (load_queue-ok s is.here, load_node-ok s first)

  abbrev taken : Store
  taken = write (log (write s q (some (queue unlinked))) (unlock (mutex_of q))) r.front none

  taken-Ends :
      (ys : Nodes)
      → Rest s.heap r.rear next ys
      → has p ys ≡ false
      → Ends taken.heap next unlinked.rear ys
  unfolding read update
  taken-Ends [] e o = ground arith
  taken-Ends (y ∷ ys) c o =
      rw (Chain-front c) (frame c λ a d' m e i. ground (arith, at, is.here.holds))

  taken-IsList : IsList taken.heap q xs
  unfolding read update
  taken-IsList = record {
    object = unlinked;
    here = ground (arith, is.here.ne_null, is.here.holds, first.holds);
    ends = taken-Ends xs rest out;
  }

  unlinked-first : Holds (write s q (some (queue unlinked))).heap r.front (node d next)
  unfolding read update
  unlinked-first = ground (arith, is.here.holds, first.ne_null, first.holds)

  take_first-ok : take_first q s ≡ ok d taken
  unfolding take_first
  take_first-ok =
      let s1 = log (write s q (some (queue unlinked))) (unlock (mutex_of q)) in
      rw (unlink_first-ok, load_node-ok s1 unlinked-first, free-ok s1 unlinked-first)

module _ (s : Store) {q : Ptr} where
  -- `queue_dequeue` returns the oldest request and unlinks its node.
  pub dequeue-first :
      {p d : Ptr} {xs : Nodes}
      → IsList s.heap q ((p, d) ∷ xs)
      → Returns (λ got t. (got ≡ d) × IsList t.heap q xs) (queue_dequeue [] q s)
  unfolding queue_dequeue wait_loop
  dequeue-first is =
      let s1 = log s (lock (mutex_of q)) in
      let is1 : IsList s1.heap q _ = record {
        object = is.object;
        here = is.here;
        ends = is.ends;
      } in
      rw (load_queue-ok s1 is.here, Chain-front is.ends, take_first-ok s1 is1)
        (returns (refl, taken-IsList s1 is1))

  pub dequeue_blocks : IsList s.heap q [] → (t : Store) × (queue_dequeue [] q s ≡ blocked t)
  unfolding queue_dequeue wait_loop
  dequeue_blocks is =
      let s1 = log s (lock (mutex_of q)) in
      let e : (is.object.front == null) ≡ true = ground (arith, is.ends.0) in
      (log s1 (wait (cond_of q) (mutex_of q)), rw (load_queue-ok s1 is.here, e))
