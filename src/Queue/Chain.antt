-- ===== src/Queue/Chain.antt =====
-- The shape of a queue in memory: the nodes from `front` to `rear`, and the queue object over them.
use sp327_butt_k.Base.{
  ◌≡◌, Bool, true, false, ◌||◌, Option, some, List, [], ◌∷◌, ◌++◌, ◌<◌, arith, ◌==◌, length,
  if◌then◌else◌, refl,
}
use sp327_butt_k.Memory.{Ptr, null, Queue, Cell, node, queue, Heap, read, update}
use sp327_butt_k.Memory.Access.{Holds, read-update}

-- Address and item of each node, front first.
abbrev pub Nodes : Type 0
Nodes = List (Ptr × Ptr)

abbrev pub has : Ptr → Nodes → Bool
has a [] = false
has a ((p, _) ∷ xs) = (p == a) || has a xs

abbrev pub items : Nodes → List Ptr
items [] = []
items ((_, d) ∷ xs) = d ∷ items xs

-- A nonempty list of distinct nodes from the first address to `rear`.
pub data Chain (h : Heap) (rear : Ptr) : Ptr → Nodes → Type 0 where
  last : {p d : Ptr} → Holds h p (node d null) → p ≡ rear → Chain h rear p ((p, d) ∷ [])
  more :
      {p d n : Ptr} {xs : Nodes}
      → Holds h p (node d n)
      → has p xs ≡ false
      → Chain h rear n xs
      → Chain h rear p ((p, d) ∷ xs)

-- The two ends, for an empty and a nonempty list.
abbrev pub Ends : Heap → (front rear : Ptr) → Nodes → Type 0
Ends h front rear [] = (front ≡ null) × (rear ≡ null)
Ends h front rear (x ∷ xs) = Chain h rear front (x ∷ xs)

-- `q` is a queue object `r` over the nodes `xs`; their number fits an `int`.
pub record IsQueue (h : Heap) (q : Ptr) (r : Queue) (xs : Nodes) : Type 0 where
  pub here : Holds h q (queue r)
  pub ends : Ends h r.front r.rear xs
  pub size : r.size ≡ length xs
  pub fits : length xs < 2147483648

-- `t` agrees with `s` at every address but `q` and those of `xs`.
abbrev pub SameOutside : Ptr → Nodes → Heap → Heap → Type 0
SameOutside q xs h g = (a : Ptr) → (q == a) ≡ false → has a xs ≡ false → read g a ≡ read h a

pub has-append : (a : Ptr) (xs ys : Nodes) → has a (xs ++ ys) ≡ (has a xs || has a ys)
has-append a [] ys = refl
has-append a (x ∷ xs) ys = ground (arith, has-append a xs ys)

pub items-append : (xs ys : Nodes) → items (xs ++ ys) ≡ items xs ++ items ys
items-append [] ys = refl
items-append (x ∷ xs) ys = rw (items-append xs ys)

module _ {h : Heap} {rear : Ptr} where
  pub Chain-front : {p : Ptr} {xs : Nodes} → Chain h rear p xs → (p == null) ≡ false
  Chain-front (last e _) = ground (arith, e.ne_null)
  Chain-front (more e _ _) = ground (arith, e.ne_null)

  pub Chain-rear : {p : Ptr} {xs : Nodes} → Chain h rear p xs → (rear == null) ≡ false
  Chain-rear (last e eq) = ground (arith, e.ne_null)
  Chain-rear (more e out c) = Chain-rear c

  -- The last node of the chain is at `rear`.
  pub rear-Holds :
      {p : Ptr} {xs : Nodes} → Chain h rear p xs → (d : Ptr) × Holds h rear (node d null)
  rear-Holds (last {d} e eq) = (d, rw eq at e)
  rear-Holds (more e out c) = rear-Holds c

  pub has-rear : {p : Ptr} {xs : Nodes} → Chain h rear p xs → has rear xs ≡ true
  has-rear (last e eq) = ground arith
  has-rear (more e out c) = ground (arith, has-rear c)

  -- An address that holds no node is none of the chain's.
  pub not-has :
      {p : Ptr} {xs : Nodes} (a : Ptr)
      → Chain h rear p xs
      → ((d n : Ptr) → ¬ (read h a ≡ some (node d n)))
      → has a xs ≡ false
  not-has a (last {d} e eq) other = ground (arith, e.holds, other d null)
  not-has a (more {d} {n} e out c) other = ground (arith, e.holds, other d n, not-has a c other)

  -- A chain survives every change that spares its nodes.
  pub frame :
      {g : Heap} {p : Ptr} {xs : Nodes}
      → Chain h rear p xs
      → ((a d n : Ptr) → read h a ≡ some (node d n) → has a xs ≡ true → read g a ≡ read h a)
      → Chain g rear p xs
  frame (last {p} {d} e eq) same = last (ground (arith, e.ne_null, e.holds, same p d null)) eq
  frame (more {p} {d} {n} e out c) same =
      more (ground (arith, e.ne_null, e.holds, same p d n)) out
        (frame c λ a d' n' e' i. same a d' n' e' (ground arith))

  -- A node linked behind `rear` becomes the last one.
  pub snoc :
      {g : Heap} {n req p : Ptr} {xs : Nodes}
      → Chain h rear p xs
      → Holds g n (node req null)
      → has n xs ≡ false
      → ((a d m : Ptr)
          → read h a ≡ some (node d m)
          → has a xs ≡ true
          → read g a ≡ (if rear == a then some (node d n) else read h a))
      → Chain g n p (xs ++ (n, req) ∷ [])
  snoc {n} (last {p} {d} e eq) new out linked =
      more (ground (arith, e.ne_null, e.holds, linked p d null)) (ground arith) (last new refl)
  snoc {n} {req} (more {p} {d} {n = m} {xs} e out' c) new out linked =
      more (ground (arith, e.ne_null, e.holds, linked p d m, has-rear c))
        (ground (arith, has-append p xs ((n, req) ∷ [])))
        (snoc c new (ground arith) λ a d' m' e' i. linked a d' m' e' (ground arith))

-- The list behind the first node, whose `next` is given.
abbrev pub Rest : Heap → (rear next : Ptr) → Nodes → Type 0
Rest h rear next [] = next ≡ null
Rest h rear next (x ∷ xs) = Chain h rear next (x ∷ xs)

-- The first node of a chain, taken apart.
pub record Head (h : Heap) (rear front p d : Ptr) (xs : Nodes) : Type 0 where
  pub at : front ≡ p
  pub next : Ptr
  pub first : Holds h front (node d next)
  pub out : has p xs ≡ false
  pub rest : Rest h rear next xs

pub Chain-Head :
    {h : Heap} {rear front p d : Ptr} {xs : Nodes}
    → Chain h rear front ((p, d) ∷ xs)
    → Head h rear front p d xs
Chain-Head (last e eq) = record { at = refl; next = null; first = e; out = refl; rest = refl }
Chain-Head (more {n} {xs} e out c) = record {
  at = refl;
  next = n;
  first = e;
  out = out;
  rest = behind xs c;
}
  where
    behind : {h : Heap} {rear m : Ptr} (ys : Nodes) → Chain h rear m ys → Rest h rear m ys
    behind [] c = elim c [ ]
    behind (y ∷ ys) c = c

-- A write at an address that is no node of the chain.
pub frame-update :
    {h : Heap} {rear p : Ptr} {xs : Nodes} (a : Ptr) (c : Option Cell)
    → Chain h rear p xs
    → has a xs ≡ false
    → Chain (update h a c) rear p xs
frame-update {h} a c ch out = frame ch λ b d n e i. ground (arith, read-update h a b c)

-- A queue object survives every change that spares it and its nodes.
pub frame-IsQueue :
    {h g : Heap} {q : Ptr} {r : Queue} {xs : Nodes}
    → IsQueue h q r xs
    → ((a : Ptr) → ((q == a) || has a xs) ≡ true → read g a ≡ read h a)
    → IsQueue g q r xs
frame-IsQueue {h} {g} {q} {r} {xs} is same = record {
  here = record { ne_null = is.here.ne_null; holds = ground (arith, is.here.holds, same q) };
  ends = keep xs is.ends λ a i. same a (ground arith);
  size = is.size;
  fits = is.fits;
}
  where
    keep :
        (ys : Nodes)
        → Ends h r.front r.rear ys
        → ((a : Ptr) → has a ys ≡ true → read g a ≡ read h a)
        → Ends g r.front r.rear ys
    keep [] e s = e
    keep (y ∷ ys) c s = frame c λ a d n e i. s a i
