-- ===== src/Pool/Counting.antt =====
-- How often each request is assigned and run.
use sp327_butt_k.Base.{
  ℕ, ◌+◌, ◌%◌, ◌<◌, ◌≡◌, refl, List, [], ◌∷◌, ◌++◌, arith, ◌==◌, if◌then◌else◌, All, append-nil, ap,
  ◌≤◌,
}
use sp327_butt_k.Memory.{Ptr}
use sp327_butt_k.Pool.Family.{update, total, total-update, total-const, total-le}
use sp327_butt_k.Pool.{
  finished, at_queue, Worker, MainPc, destroyed, System, thread_pool_add, close_worker, fetch,
  process, WorkerStep, start, dequeue, run, new_worker, Step, add, destroy, close, closed_all, join,
  joined_all, work, Reach, started, next, spurious,
}
use sp327_butt_k.Pool.Invariant.{IsRequest, pending, Reach-Inv, in_hand}

-- The number of times that `a` stands in a list.
unfoldable pub count : Ptr → List Ptr → ℕ
count a [] = 0
count a (x ∷ xs) = (if x == a then 1 else 0) + count a xs

pub count-append : (a : Ptr) (xs ys : List Ptr) → count a (xs ++ ys) ≡ count a xs + count a ys
unfolding count
count-append a [] ys = omega arith
count-append a (x ∷ xs) ys = omega (arith, count-append a xs ys)

-- How often the pool's workers were given `a`, and how often they have run it.
abbrev pub assigned_count : Ptr → Worker → ℕ
assigned_count a w = count a w.assigned

abbrev pub processed_count : Ptr → Worker → ℕ
processed_count a w = count a w.processed

WorkerStep-assigned : {k l : ℕ} {w v : Worker} → WorkerStep k w l v → v.assigned ≡ w.assigned
unfolding fetch process
WorkerStep-assigned (start e) = refl
WorkerStep-assigned (dequeue e) = ground arith
WorkerStep-assigned (run req e) = refl

-- A write that keeps what the worker was assigned keeps the sum.
same-total :
    (a : Ptr) (n i : ℕ) (f : ℕ → Worker) (w : Worker)
    → i < n
    → w.assigned ≡ (f i).assigned
    → total (assigned_count a) n (update f i w) ≡ total (assigned_count a) n f
same-total a n i f w lt e =
    omega (arith, total-update (assigned_count a) n f i w lt, ap (count a) e)

abbrev Balanced : (n : ℕ) → Ptr → List Ptr → System → Type 0
Balanced n a requests s =
    total (assigned_count a) n s.workers + count a (pending s.main) ≡ count a requests

-- What is left to add, at the main thread's position `m`.
left : (a : Ptr) (m m' : MainPc) → m ≡ m' → count a (pending m) ≡ count a (pending m')
left a m m' e = ap (λ k. count a (pending k)) e

Step-Balanced :
    {n : ℕ} {s t : System} (a : Ptr) (requests : List Ptr)
    → Step n s t
    → Balanced n a requests s
    → Balanced n a requests t
unfolding count thread_pool_add close_worker
Step-Balanced {n} {s} a rq (add x req rs e pos) b =
    let old = s.workers (x % n) in
    omega (
      arith,
      left a s.main _ e,
      total-update (assigned_count a) n s.workers (x % n) (thread_pool_add req old) (omega arith),
      count-append a old.assigned (req ∷ []),
    )
Step-Balanced {n} {s} a rq (destroy e) b = omega (arith, left a s.main _ e)
Step-Balanced {n} {s} a rq (close i e lt) b =
    omega
      (arith, left a s.main _ e, same-total a n i s.workers (close_worker (s.workers i)) lt refl)
Step-Balanced {n} {s} a rq (closed_all e) b = omega (arith, left a s.main _ e)
Step-Balanced {n} {s} a rq (join i e lt fin) b = omega (arith, left a s.main _ e)
Step-Balanced {n} {s} a rq (joined_all e) b = omega (arith, left a s.main _ e)
Step-Balanced {n} {s} a rq (work i {w} lt st) b =
    omega (arith, same-total a n i s.workers w lt (WorkerStep-assigned st))

Reach-Balanced :
    {n : ℕ} {requests : List Ptr} {s : System} (a : Ptr)
    → Reach n requests s
    → Balanced n a requests s
unfolding count
Reach-Balanced {n} a started = omega (arith, total-const (assigned_count a) n new_worker refl)
Reach-Balanced {requests} a (next r st) = Step-Balanced a requests st (Reach-Balanced a r)
Reach-Balanced {n} a (spurious {s} i r lt e) = omega (
  arith,
  Reach-Balanced a r,
  same-total a n i s.workers (record (s.workers i) { pc = at_queue }) lt refl,
)

module _ {n : ℕ} {requests : List Ptr} {s : System} (r : Reach n requests s)
    (real : All IsRequest requests) where
  -- A worker has run part of what it was given, in the order in which it was given: the rest is the
  -- request that it holds, and then its queue.
  pub processed_in_order :
      (i : ℕ)
      → i < n
      → (s.workers i).assigned
        ≡ (s.workers i).processed ++ (in_hand (s.workers i).pc ++ (s.workers i).queue.items)
  processed_in_order i lt = ((Reach-Inv r real).worker i lt).ledger

  -- No request is run more often than it was added.
  pub at_most_once : (a : Ptr) → total (processed_count a) n s.workers ≤ count a requests
  at_most_once a = omega (
    arith,
    Reach-Balanced a r,
    total-le (processed_count a) (assigned_count a) n s.workers λ i lt. ran i lt,
  )
    where
      ran : (i : ℕ) → i < n → processed_count a (s.workers i) ≤ assigned_count a (s.workers i)
      ran i lt = omega (
        arith,
        ap (count a) (processed_in_order i lt),
        count-append a (s.workers i).processed
            (in_hand (s.workers i).pc ++ (s.workers i).queue.items),
      )

  -- Once `thread_pool_destroy` is through, every thread has returned, has run exactly what it was
  -- given, in order, and its queue is empty.
  pub destroyed_drained :
      s.main ≡ destroyed
      → (i : ℕ) → i < n
      → ((s.workers i).pc ≡ finished)
        × ((s.workers i).processed ≡ (s.workers i).assigned)
        × ((s.workers i).queue.items ≡ [])
  destroyed_drained e i lt =
      let inv = rw e at ((Reach-Inv r real).worker i lt) in
      let fin = inv.joined refl in
      let (none_left, _) = inv.ended fin in
      (fin, ground (arith, inv.ledger, append-nil (s.workers i).processed), none_left)

  -- Once `thread_pool_destroy` is through, every request that was added was run, exactly as often as
  -- it was added.
  pub destroyed_exactly_once :
      s.main ≡ destroyed → (a : Ptr) → total (processed_count a) n s.workers ≡ count a requests
  unfolding count
  destroyed_exactly_once e a = omega (
    arith,
    Reach-Balanced a r,
    left a s.main destroyed e,
    total-le (processed_count a) (assigned_count a) n s.workers λ i lt. omega (arith, ran i lt),
    total-le (assigned_count a) (processed_count a) n s.workers λ i lt. omega (arith, ran i lt),
  )
    where
      ran : (i : ℕ) → i < n → processed_count a (s.workers i) ≡ assigned_count a (s.workers i)
      ran i lt = ap (count a) ((destroyed_drained e i lt).1)
