-- ===== src/Queue/Destroy.antt =====
-- `queue_destroy` of queue.c.
use sp327_butt_k.Base.{
  ℕ, zero, suc, ◌<◌, ◌≡◌, refl, Bool, true, false, ◌||◌, some, none, [], ◌∷◌, arith, ◌==◌, length,
  if◌then◌else◌,
}
use sp327_butt_k.Memory.{Ptr, null, Queue, Cell, node, queue, Heap, read, update, Store, write}
use sp327_butt_k.Memory.Access.{Holds, free-ok, load_queue-ok, load_node-ok}
use sp327_butt_k.Memory.Returns.{Returns, returns, bind, mono}
use sp327_butt_k.Queue.{destroy_loop, queue_destroy}
use sp327_butt_k.Queue.Chain.{
  Nodes, has, Chain, Ends, IsQueue, Head, Rest, Chain-Head, Chain-front, frame,
}

-- Objects that a queue may own: neither a node nor a queue.
abbrev pub payload : Cell → Bool
payload (node _ _) = false
payload (queue _) = false
payload _ = true

abbrev pub has_item : Ptr → Nodes → Bool
has_item a [] = false
has_item a ((_, d) ∷ xs) = (d == a) || has_item a xs

-- The items are live objects, no two the same.
abbrev pub Payloads : Heap → Nodes → Type 0
Payloads h [] = Unit {0}
Payloads h ((_, d) ∷ xs) =
    ((c : Cell) × Holds h d c × (payload c ≡ true)) × (has_item d xs ≡ false) × Payloads h xs

frame-Payloads :
    (h g : Heap) (xs : Nodes)
    → Payloads h xs
    → ((a : Ptr) (c : Cell)
        → read h a ≡ some c
        → payload c ≡ true
        → has_item a xs ≡ true
        → read g a ≡ read h a)
    → Payloads g xs
frame-Payloads h g [] _ same = tt
frame-Payloads h g ((p, d) ∷ xs) ((c, e, is), out, more) same = (
  (c, record { ne_null = e.ne_null; holds = ground (arith, e.holds, same d c) }, is),
  out,
  frame-Payloads h g xs more λ a c' e' is' i. same a c' e' is' (ground arith),
)

-- Every address of a node or an item of `xs` is freed; all others but `q` are as before.
record Emptied (s : Store) (q : Ptr) (xs : Nodes) (t : Store) : Type 0 where
  object : Queue
  here : Holds t.heap q (queue object)
  gone :
      (a : Ptr)
      → (q == a) ≡ false
      → read t.heap a ≡ (if has a xs || has_item a xs then none else read s.heap a)
  trace : t.trace ≡ s.trace

-- One round of the loop.
module _ (s : Store) {q : Ptr} (r : Queue) (rear : Ptr) {p d : Ptr} {xs : Nodes}
    (here : Holds s.heap q (queue r)) (c : Chain s.heap rear r.front ((p, d) ∷ xs))
    (own : Payloads s.heap ((p, d) ∷ xs)) where
  head : Head s.heap rear r.front p d xs
  head = Chain-Head c

  open head use {at, next, first, out, rest}

  abbrev moved : Store
  moved = write s q (some (queue (record r { front = next })))

  abbrev after : Store
  after = write (write moved d none) r.front none

  item-Holds : Holds moved.heap d own.0.0
  unfolding read update
  item-Holds = ground (arith, own.0.1.ne_null, own.0.1.holds, own.0.2, here.holds)

  first-Holds : Holds (write moved d none).heap r.front (node d next)
  unfolding read update
  first-Holds = ground (arith, own.0.1.holds, own.0.2, here.holds, first.ne_null, first.holds)

  after-here : Holds after.heap q (queue (record r { front = next }))
  unfolding read update
  after-here = ground (arith, own.0.1.holds, own.0.2, here.ne_null, here.holds, first.holds)

  after-Rest :
      (ys : Nodes) → Rest s.heap rear next ys → has p ys ≡ false → Rest after.heap rear next ys
  unfolding read update
  after-Rest [] e o = e
  after-Rest (y ∷ ys) ch o =
      frame ch λ a d' m e i. ground (arith, at, own.0.1.holds, own.0.2, here.holds)

  after-Payloads : Payloads after.heap xs
  unfolding read update
  after-Payloads =
      frame-Payloads s.heap after.heap xs own.2
        λ a c' e is i. ground (arith, own.1, here.holds, first.holds)

  after-Emptied : (t : Store) → Emptied after q xs t → Emptied s q ((p, d) ∷ xs) t
  unfolding read update
  after-Emptied t em = record {
    object = em.object;
    here = em.here;
    gone = λ a ne. ground (arith, em.gone a ne, at);
    trace = em.trace;
  }

destroy_loop-Emptied :
    (k : ℕ) (s : Store) {q : Ptr} (r : Queue) (rear : Ptr) (xs : Nodes)
    → Holds s.heap q (queue r)
    → Rest s.heap rear r.front xs
    → Payloads s.heap xs
    → length xs < k
    → Returns (λ _. Emptied s q xs) (destroy_loop k q s)
unfolding destroy_loop
destroy_loop-Emptied zero s r rear xs here c own fuel = absurd (omega arith)
destroy_loop-Emptied (suc k) s r rear [] here c own fuel =
    let e : (r.front == null) ≡ true = ground arith in
    rw (load_queue-ok s here, e)
      (returns (record { object = r; here = here; gone = ground arith; trace = refl }))
destroy_loop-Emptied (suc k) s r rear ((p, d) ∷ xs) here c own fuel =
    let hd = head s r rear here c own in
    rw
      (
        load_queue-ok s here,
        Chain-front c,
        load_node-ok s hd.first,
        free-ok (moved s r rear here c own) (item-Holds s r rear here c own),
        free-ok (write (moved s r rear here c own) d none) (first-Holds s r rear here c own),
      )
      (mono
        (destroy_loop-Emptied k (after s r rear here c own) _ rear xs
          (after-here s r rear here c own) (after-Rest s r rear here c own xs hd.rest hd.out)
          (after-Payloads s r rear here c own) (omega arith))
        λ _ t em. after-Emptied s r rear here c own t em)

-- The memory after `queue_destroy`: the queue, its nodes and its items are free, the rest is as before.
pub destroy-frees :
    (s : Store) {q : Ptr} {r : Queue} {xs : Nodes} (fuel : ℕ)
    → IsQueue s.heap q r xs
    → Payloads s.heap xs
    → length xs < fuel
    → Returns
        (λ _ t.
          (a : Ptr)
          → read t.heap a ≡ (if (q == a) || has a xs || has_item a xs then none else read s.heap a))
        (queue_destroy fuel q s)
unfolding queue_destroy read update
destroy-frees s {q} {r} {xs} fuel is own enough =
    bind (destroy_loop-Emptied fuel s r r.rear xs is.here (ends-Rest xs is.ends) own enough)
      λ _ t em. rw (free-ok t em.here) (returns λ a. ground (arith, em.gone a))
  where
    ends-Rest : (ys : Nodes) → Ends s.heap r.front r.rear ys → Rest s.heap r.rear r.front ys
    ends-Rest [] e = e.0
    ends-Rest (y ∷ ys) ch = ch
