-- ===== src/Pool/Objects/Released.antt =====
-- `thread_pool_destroy` of thread_pool.c in memory.
use sp327_butt_k.Base.{
  Option, ℕ, ◌≡◌, ◌≢◌, refl, true, false, not, some, none, [], ◌∷◌, arith, ◌==◌, if◌then◌else◌,
  Bool, ◌||◌,
}
use sp327_butt_k.Memory.{
  ◌>>◌, free, Ptr, Queue, queue, worker, Heap, read, update, Store, Os, HasMutexes, pool, array,
  Cell, write,
}
use sp327_butt_k.Memory.Access.{Holds, read-update, load-ok, free-ok}
use sp327_butt_k.Memory.Returns.{Returns, returns, bind, mono}
use sp327_butt_k.Queue.Chain.{IsQueue, frame-IsQueue}
use sp327_butt_k.Queue.Accessors.{closed_store, close-ok}
use sp327_butt_k.Worker.Lifetime.{HasThreads, join-frees}
use sp327_butt_k.Pool.Objects.{close_loop, join_loop, thread_pool_destroy}
use sp327_butt_k.Pool.Objects.Members.{Member, Members, owned, Team, workers, frame-Ends}
use sp327_butt_k.Pool.Objects.Created.{Built}

abbrev closed_heap : Heap → Ptr → Queue → Heap
closed_heap h q r = update h q (some (queue (record r { closed = true })))

module _ (h : Heap) (q : Ptr) (r : Queue) (here : Holds h q (queue r)) where
  close-Member : {w p : Ptr} → Member h w p → Member (closed_heap h q r) w p
  close-Member {w} {p} m = record {
    thread_id = m.thread_id;
    object = record m.object { closed = if q == p then true else m.object.closed };
    nodes = m.nodes;
    holds = record {
      ne_null = m.holds.ne_null;
      holds = ground (
        arith,
        m.holds.holds,
        here.holds,
        read-update h q w (some (queue (record r { closed = true }))),
      );
    };
    is = record {
      here = record {
        ne_null = m.is.here.ne_null;
        holds = ground (
          arith,
          m.is.here.holds,
          here.holds,
          read-update h q p (some (queue (record r { closed = true }))),
        );
      };
      ends =
          frame-Ends h (closed_heap h q r) (λ x. not (q == x))
            (λ x d n e. ground (arith, e, here.holds))
            (λ x c e i.
              ground (arith, e, i, read-update h q x (some (queue (record r { closed = true })))))
            m.object.front m.object.rear m.nodes m.is.ends;
      size = m.is.size;
      fits = m.is.fits;
    };
  }

  close-Team : (ms : Members) → Team h ms → Team (closed_heap h q r) ms
  close-Team [] team = tt
  close-Team ((w, p) ∷ ms) (m, ow, oq, team) = (close-Member m, ow, oq, close-Team ms team)

  close-Built :
      {p a : Ptr} {n : ℕ} {ms : Members} → Built h p a n ms → Built (closed_heap h q r) p a n ms
  close-Built {p} {a} {n} {ms} b = record {
    at_pool = record {
      ne_null = b.at_pool.ne_null;
      holds = ground (
        arith,
        b.at_pool.holds,
        here.holds,
        read-update h q p (some (queue (record r { closed = true }))),
      );
    };
    at_array = record {
      ne_null = b.at_array.ne_null;
      holds = ground (
        arith,
        b.at_array.holds,
        here.holds,
        read-update h q a (some (queue (record r { closed = true }))),
      );
    };
    team = close-Team ms b.team;
  }

-- Whether `x` is the queue of one of these workers.
abbrev pub is_queue : Ptr → Members → Bool
is_queue x [] = false
is_queue x ((w, q) ∷ ms) = (q == x) || is_queue x ms

abbrev pub shut_cell : Option Cell → Option Cell
shut_cell (some (queue r)) = some (queue (record r { closed = true }))
shut_cell c = c

-- What `x` reads once the queues of these workers are closed, and nothing else has changed.
abbrev pub closed_read : Heap → Members → Ptr → Option Cell
closed_read h ms x = if is_queue x ms then shut_cell (read h x) else read h x

-- The first loop closes the queue of every worker, and does nothing else.
close_loop-Built :
    {os : Os} (mtx : HasMutexes os) (s : Store) (p a : Ptr) (n : ℕ) (all : Members) (ms : Members)
    → Built s.heap p a n all
    → Team s.heap ms
    → Returns
        (λ _ t. Built t.heap p a n all × ((x : Ptr) → read t.heap x ≡ closed_read s.heap ms x))
        (close_loop os (workers ms) s)
unfolding close_loop
close_loop-Built mtx s p a n all [] b team = returns (b, λ x. refl)
close_loop-Built mtx s p a n all ((w, q) ∷ ms) b (m, ow, oq, team) =
    rw (load-ok s m.holds, close-ok mtx s m.is)
      (mono
        (close_loop-Built mtx (closed_store mtx s m.is) p a n all ms
          (close-Built s.heap q m.object m.is.here b)
          (close-Team s.heap q m.object m.is.here ms team))
        λ _ t (b', reads). (
          b',
          λ x. ground (
            arith,
            reads x,
            m.is.here.holds,
            read-update s.heap q x (some (queue (record m.object { closed = true }))),
          ),
        ))

-- Workers whose threads have drained their queues.
pub record Done (h : Heap) (w q : Ptr) : Type 0 where
  pub thread_id : ℕ
  pub object : Queue
  pub holds : Holds h w (worker thread_id q)
  pub is : IsQueue h q object []

abbrev pub Drained : Heap → Members → Type 0
Drained h [] = Unit {0}
Drained h ((w, q) ∷ ms) = Done h w q × (owned w ms ≡ false) × (owned q ms ≡ false) × Drained h ms

frame-Drained :
    (h g : Heap) (ms : Members)
    → ((a : Ptr) → owned a ms ≡ true → read g a ≡ read h a)
    → Drained h ms
    → Drained g ms
frame-Drained h g [] same d = tt
frame-Drained h g ((w, q) ∷ ms) same (d, ow, oq, ds) = (
  record {
    thread_id = d.thread_id;
    object = d.object;
    holds = record { ne_null = d.holds.ne_null; holds = ground (arith, d.holds.holds, same w) };
    is = frame-IsQueue d.is λ a i. same a (ground arith);
  },
  ow,
  oq,
  frame-Drained h g ms (λ a i. same a (ground arith)) ds,
)

join_loop-frees :
    {os : Os} (threads : HasThreads os) (s : Store) (ms : Members)
    → Drained s.heap ms
    → Returns
        (λ _ t. (a : Ptr) → read t.heap a ≡ (if owned a ms then none else read s.heap a))
        (join_loop os 1 (workers ms) s)
unfolding join_loop
join_loop-frees threads s [] ds = returns λ a. refl
join_loop-frees threads s ((w, q) ∷ ms) (d, ow, oq, ds) =
    bind (join-frees threads s d.holds d.is) λ _ t gone.
      mono
        (join_loop-frees threads t ms
          (frame-Drained s.heap t.heap ms (λ a i. ground (arith, gone a, i, ow, oq)) ds))
        λ _ u rest a. ground (arith, gone a, rest a)

not-owned-Drained :
    (h : Heap) (a : Ptr) (ms : Members)
    → Drained h ms
    → ((t : ℕ) (q : Ptr) → ¬ (read h a ≡ some (worker t q)))
    → ((r : Queue) → ¬ (read h a ≡ some (queue r)))
    → owned a ms ≡ false
not-owned-Drained h a [] ds nw nq = refl
not-owned-Drained h a ((w, q) ∷ ms) (d, ow, oq, ds) nw nq = ground (
  arith,
  d.holds.holds,
  d.is.here.holds,
  nw d.thread_id q,
  nq d.object,
  not-owned-Drained h a ms ds nw nq,
)

-- A pool whose workers have ended, with their queues drained.
pub record Stopped (h : Heap) (p a : Ptr) (n : ℕ) (ms : Members) : Type 0 where
  pub at_pool : Holds h p (pool a n)
  pub at_array : Holds h a (array (workers ms))
  pub drained : Drained h ms

-- The end of `thread_pool_destroy`, from the joins on.
module _ {os : Os} (threads : HasThreads os) (p a : Ptr) (n : ℕ) (ms : Members) where
  abbrev gone_at : Ptr → Bool
  gone_at x = (p == x) || (a == x) || owned x ms

  unowned :
      (t : Store) (x : Ptr) (c : Cell)
      → Stopped t.heap p a n ms
      → read t.heap x ≡ some c
      → ((i : ℕ) (q : Ptr) → c ≢ worker i q)
      → ((r : Queue) → c ≢ queue r)
      → owned x ms ≡ false
  unowned t x c st e nw nq =
      not-owned-Drained t.heap x ms st.drained (λ i q f. nw i q (cc)) (λ r f. nq r (cc))

  release :
      (t : Store)
      → Stopped t.heap p a n ms
      → Returns
          (λ _ u. (x : Ptr) → read u.heap x ≡ (if gone_at x then none else read t.heap x))
          ((do join_loop os 1 (workers ms); free a; free p) t)
  release t st = bind (join_loop-frees threads t ms st.drained) λ _ u gone.
      let spares_a : owned a ms ≡ false =
        unowned t a (array (workers ms)) st st.at_array.holds (λ i q e. cc) (λ r e. cc) in
      let spares_p : owned p ms ≡ false =
        unowned t p (pool a n) st st.at_pool.holds (λ i q e. cc) (λ r e. cc) in
      let array_here : Holds u.heap a (array (workers ms)) = record {
        ne_null = st.at_array.ne_null;
        holds = ground (arith, gone a, st.at_array.holds);
      } in
      let pool_here : Holds (write u a none).heap p (pool a n) = record {
        ne_null = st.at_pool.ne_null;
        holds =
            ground
              (arith, gone p, st.at_pool.holds, st.at_array.holds, read-update u.heap a p none);
      } in
      rw (free-ok u array_here, free-ok (write u a none) pool_here)
        (returns λ x.
          ground (
            arith,
            gone x,
            read-update u.heap a x none,
            read-update (write u a none).heap p x none,
          ))

  -- `thread_pool_destroy` on a pool whose workers drain their queues and end, provided that their
  -- queues are closed: there is a store `t`, which is the one at the call with the queue of every worker
  -- closed and nothing else changed in memory; and at the end the pool, its array, its workers and their
  -- queues are free, and everything else reads as the workers left it from `t` on.
  pub destroy-frees_pool :
      (mtx : HasMutexes os) (others : Store → Store) (s : Store)
      → Built s.heap p a n ms
      → ((t : Store)
          → Built t.heap p a n ms
          → ((x : Ptr) → read t.heap x ≡ closed_read s.heap ms x)
          → Stopped (others t).heap p a n ms)
      → Returns
          (λ _ u.
            (t : Store) × ((x : Ptr) → read t.heap x ≡ closed_read s.heap ms x)
            × ((x : Ptr) → read u.heap x ≡ (if gone_at x then none else read (others t).heap x)))
          (thread_pool_destroy os 1 others p s)
  unfolding thread_pool_destroy
  destroy-frees_pool mtx others s b stop =
      rw (load-ok s b.at_pool, load-ok s b.at_array)
        (bind (close_loop-Built mtx s p a n ms ms b b.team) λ _ t (b', reads).
          mono (release (others t) (stop t b' reads)) λ _ u gone. (t, reads, gone))
