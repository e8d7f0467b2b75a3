-- ===== src/Pool/Objects/Members.antt =====
-- The workers of a pool in memory, each with its queue.
use sp327_butt_k.Base.{
  ℕ, ◌≡◌, refl, ap, Bool, true, false, ◌||◌, some, List, [], ◌∷◌, ◌++◌, arith, ◌==◌, Option, not,
}
use sp327_butt_k.Memory.{Ptr, Queue, Cell, node, queue, worker, Heap, read, update}
use sp327_butt_k.Memory.Access.{Holds, read-update}
use sp327_butt_k.Queue.Chain.{Nodes, Ends, IsQueue, frame}

-- A worker at `w` with the queue at `q`, over these nodes.
pub record Member (h : Heap) (w q : Ptr) : Type 0 where
  pub thread_id : ℕ
  pub object : Queue
  pub nodes : Nodes
  pub holds : Holds h w (worker thread_id q)
  pub is : IsQueue h q object nodes

abbrev pub Members : Type 0
Members = List (Ptr × Ptr)

abbrev pub owned : Ptr → Members → Bool
owned a [] = false
owned a ((w, q) ∷ ms) = (w == a) || (q == a) || owned a ms

-- No two workers and no two queues are the same.
abbrev pub Team : Heap → Members → Type 0
Team h [] = Unit {0}
Team h ((w, q) ∷ ms) = Member h w q × (owned w ms ≡ false) × (owned q ms ≡ false) × Team h ms

abbrev pub workers : Members → List Ptr
workers [] = []
workers ((w, q) ∷ ms) = w ∷ workers ms

-- A change of the memory that spares the addresses of a test.
module _ (h g : Heap) (spared : Ptr → Bool)
    (nodes_spared : (a d n : Ptr) → read h a ≡ some (node d n) → spared a ≡ true)
    (same : (a : Ptr) (c : Cell) → read h a ≡ some c → spared a ≡ true → read g a ≡ some c) where
  pub frame-Ends : (front rear : Ptr) (xs : Nodes) → Ends h front rear xs → Ends g front rear xs
  frame-Ends front rear [] e = e
  frame-Ends front rear (x ∷ xs) c =
      frame c λ a d n e i. ground (arith, e, same a (node d n), nodes_spared a d n)

  pub frame-Member : {w q : Ptr} → Member h w q → spared w ≡ true → spared q ≡ true → Member g w q
  frame-Member {w} {q} m sw sq = record {
    thread_id = m.thread_id;
    object = m.object;
    nodes = m.nodes;
    holds = record {
      ne_null = m.holds.ne_null;
      holds = same w (worker m.thread_id q) m.holds.holds sw;
    };
    is = record {
      here = record {
        ne_null = m.is.here.ne_null;
        holds = same q (queue m.object) m.is.here.holds sq;
      };
      ends = frame-Ends m.object.front m.object.rear m.nodes m.is.ends;
      size = m.is.size;
      fits = m.is.fits;
    };
  }

  pub frame-Team :
      (ms : Members) → Team h ms → ((a : Ptr) → owned a ms ≡ true → spared a ≡ true) → Team g ms
  frame-Team [] team own = tt
  frame-Team ((w, q) ∷ ms) (m, ow, oq, team) own = (
    frame-Member m (own w (ground arith)) (own q (ground arith)),
    ow,
    oq,
    frame-Team ms team λ a i. own a (ground arith),
  )

-- An address that holds no worker and no queue is not owned.
pub not-owned :
    (h : Heap) (a : Ptr) (ms : Members)
    → Team h ms
    → ((t : ℕ) (q : Ptr) → ¬ (read h a ≡ some (worker t q)))
    → ((r : Queue) → ¬ (read h a ≡ some (queue r)))
    → owned a ms ≡ false
not-owned h a [] team nw nq = refl
not-owned h a ((w, q) ∷ ms) (m, ow, oq, team) nw nq = ground (
  arith,
  m.holds.holds,
  m.is.here.holds,
  nw m.thread_id q,
  nq m.object,
  not-owned h a ms team nw nq,
)

pub owned-append : (a : Ptr) (ms ns : Members) → owned a (ms ++ ns) ≡ (owned a ms || owned a ns)
owned-append a [] ns = refl
owned-append a ((w, q) ∷ ms) ns = ground (arith, owned-append a ms ns)

pub workers-append : (ms ns : Members) → workers (ms ++ ns) ≡ workers ms ++ workers ns
workers-append [] ns = refl
workers-append ((w, q) ∷ ms) ns = ap (λ t. w ∷ t) (workers-append ms ns)

-- A new worker behind the others.
pub snoc-Team :
    {h : Heap} (ms : Members) {w q : Ptr}
    → Team h ms
    → Member h w q
    → owned w ms ≡ false
    → owned q ms ≡ false
    → Team h (ms ++ (w, q) ∷ [])
snoc-Team [] team m ow oq = (m, refl, refl, tt)
snoc-Team ((w', q') ∷ ms) {w} {q} (m', ow', oq', team) m ow oq = (
  m',
  ground (arith, owned-append w' ms ((w, q) ∷ []), m.holds.holds, m.is.here.holds, m'.holds.holds),
  ground
      (arith, owned-append q' ms ((w, q) ∷ []), m.holds.holds, m.is.here.holds, m'.is.here.holds),
  snoc-Team ms team m (ground arith) (ground arith),
)

-- A write at an address that holds another kind of object.
pub write-Team :
    (h : Heap) (a : Ptr) (c : Option Cell) (ms : Members)
    → ((t : ℕ) (q : Ptr) → ¬ (read h a ≡ some (worker t q)))
    → ((r : Queue) → ¬ (read h a ≡ some (queue r)))
    → ((d n : Ptr) → ¬ (read h a ≡ some (node d n)))
    → Team h ms
    → Team (update h a c) ms
write-Team h a c ms nw nq nn team =
    frame-Team h (update h a c) (λ x. not (a == x)) (λ x d n e. ground (arith, e, nn d n))
      (λ x y e i. ground (arith, e, i, read-update h a x c)) ms team
      λ x i. ground (arith, i, not-owned h a ms team nw nq)
