-- ===== src/Memory/Access.antt =====
-- Reads and writes at an address whose object is known.
use sp327_butt_k.Base.{◌≡◌, ◌≢◌, none, some, Option, arith, ◌==◌, if◌then◌else◌, refl}
use sp327_butt_k.Memory.{
  Ptr, null, Queue, Cell, node, queue, read, Store, write, ok, load, load_node, load_queue,
  set_next, free, update, Heap,
}

pub read-update :
    (h : Heap) (p a : Ptr) (c : Option Cell)
    → read (update h p c) a ≡ (if p == a then c else read h a)
unfolding read update
read-update h p a c = refl

-- `p` is no null pointer and holds `c`.
pub record Holds (h : Heap) (p : Ptr) (c : Cell) : Type 0 where
  pub ne_null : p ≢ null
  pub holds : read h p ≡ some c

module _ (s : Store) {p : Ptr} where
  pub load-ok : {c : Cell} → Holds s.heap p c → load p s ≡ ok c s
  unfolding load
  load-ok e = ground (arith, e.ne_null, e.holds)

  pub free-ok : {c : Cell} → Holds s.heap p c → free p s ≡ ok tt (write s p none)
  unfolding free
  free-ok e = ground (arith, e.ne_null, load-ok e)

  pub load_node-ok : {d n : Ptr} → Holds s.heap p (node d n) → load_node p s ≡ ok (d, n) s
  unfolding load_node
  load_node-ok e = rw (load-ok e)

  pub load_queue-ok : {q : Queue} → Holds s.heap p (queue q) → load_queue p s ≡ ok q s
  unfolding load_queue
  load_queue-ok e = rw (load-ok e)

  pub set_next-ok :
      {d n : Ptr} (n' : Ptr)
      → Holds s.heap p (node d n)
      → set_next p n' s ≡ ok tt (write s p (some (node d n')))
  unfolding set_next
  set_next-ok n' e = rw (load_node-ok e)
