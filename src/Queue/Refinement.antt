-- ===== src/Queue/Refinement.antt =====
-- The functions of queue.c, called in any order, beside the first-in first-out list of `Spec`.
use sp327_butt_k.Base.{
  ℕ, ◌+◌, ◌≤◌, ◌<◌, ◌≡◌, refl, Bool, true, false, Option, some, none, inl, inr, List, [], ◌∷◌,
  arith, length, Bool-cases, length-append, ap, suc,
}
use sp327_butt_k.Memory.{
  Ptr, Queue, Store, Run, blocked, Cmd, pure, ◌>>=◌, ◌>>◌, and_then, Os, HasMemory, HasMutexes, log,
  lock, wait,
}
use sp327_butt_k.Memory.Returns.{Returns, returns, bind}
use sp327_butt_k.Queue.{queue_enqueue, queue_dequeue, queue_close, queue_isclosed, queue_size}
use sp327_butt_k.Queue.Chain.{Nodes, items, IsQueue, items-append, Chain-front}
use sp327_butt_k.Queue.Spec
use sp327_butt_k.Queue.Spec.{Fifo, dequeue_from}
use sp327_butt_k.Queue.Enqueue.{enqueue-open, enqueue-closed}
use sp327_butt_k.Queue.Dequeue.{ready, dequeue-cons, dequeue-closed, dequeue-blocks}
use sp327_butt_k.Queue.Accessors.{close-ok, close-IsQueue, isclosed-ok, size-ok}

-- The calls that a client makes on a queue, and what they answer.
pub data Call : Type 0 where
  enqueue : (req : Ptr) → Call
  dequeue close is_closed size : Call

pub data Answer : Type 0 where
  done : Answer
  got : (req : Ptr) → Answer
  flag : Bool → Answer
  number : ℕ → Answer

-- A `queue_dequeue` that has to wait is given no wake-up: the run ends there, blocked.
unfoldable pub call : Os → Call → Ptr → Cmd Answer
call os (enqueue req) q = do queue_enqueue os q req; pure done
call os dequeue q = do req ← queue_dequeue os [] q; pure (got req)
call os close q = do queue_close os q; pure done
call os is_closed q = do b ← queue_isclosed os q; pure (flag b)
call os size q = do n ← queue_size os q; pure (number n)

unfoldable pub calls : Os → List Call → Ptr → Cmd (List Answer)
calls os [] q = pure []
calls os (c ∷ cs) q = do a ← call os c q; rest ← calls os cs q; pure (a ∷ rest)

-- The same calls on the specification; `none` where a call would wait for ever.
unfoldable pub spec_call : Call → Fifo → Option (Answer × Fifo)
spec_call (enqueue req) f = some (done, Spec.enqueue req f)
spec_call dequeue f = elim (Spec.dequeue f) [ none ↦ none | some (req, g) ↦ some (got req, g) ]
spec_call close f = some (done, Spec.close f)
spec_call is_closed f = some (flag f.closed, f)
spec_call size f = some (number (length f.items), f)

unfoldable pub spec_calls : List Call → Fifo → Option (List Answer × Fifo)
spec_calls [] f = some ([], f)
spec_calls (c ∷ cs) f = elim (spec_call c f) [
  | none ↦ none
  | some (a, g) ↦ elim (spec_calls cs g) [ none ↦ none | some (rest, e) ↦ some (a ∷ rest, e) ]
]

-- What the queue object and its nodes stand for.
abbrev pub view : Queue → Nodes → Fifo
view r xs = record { items = items xs; closed = r.closed }

-- `q` is a queue of at most `n` nodes that stands for `f`.
pub record Shows (q : Ptr) (f : Fifo) (n : ℕ) (s : Store) : Type 0 where
  pub object : Queue
  pub nodes : Nodes
  pub is : IsQueue s.heap q object nodes
  pub stands : view object nodes ≡ f
  pub few : length nodes ≤ n

-- The run answers as the specification does, or is blocked where that waits.
abbrev pub Refines : {A : Type 0} → Ptr → ℕ → Run A → Option (A × Fifo) → Type 0
Refines q n run none = (s : Store) × (run ≡ blocked s)
Refines q n run (some (a, f)) = Returns (λ b t. (b ≡ a) × Shows q f n t) run

length-items : (xs : Nodes) → length xs ≡ length (items xs)
length-items [] = refl
length-items (x ∷ xs) = ap suc (length-items xs)

Shows-mono : {q : Ptr} {f : Fifo} {n m : ℕ} {s : Store} → Shows q f n s → n ≤ m → Shows q f m s
Shows-mono sh le = record {
  object = sh.object;
  nodes = sh.nodes;
  is = sh.is;
  stands = sh.stands;
  few = omega (arith, sh.few);
}

Refines-bind :
    {A B : Type 0} (q : Ptr) (m n : ℕ) (run : Run A) (k : A → Cmd B) (o : Option (A × Fifo))
    (ko : A → Fifo → Option (B × Fifo))
    → Refines q m run o
    → ((a : A) (t : Store) (g : Fifo) → Shows q g m t → Refines q n (k a t) (ko a g))
    → Refines q n (and_then run k) (elim o [ none ↦ none | some (a, g) ↦ ko a g ])
Refines-bind q m n run k none ko (s, e) next = rw e (s, refl)
Refines-bind q m n run k (some (a, g)) ko (returns {s = t} (e, sh)) next = rw e (next a t g sh)

module _ {os : Os} (mem : HasMemory os) (mtx : HasMutexes os) {q : Ptr} where
  enqueue-Refines :
      (req : Ptr) (s : Store) {r : Queue} {xs : Nodes}
      → IsQueue s.heap q r xs
      → length xs < 2147483647
      → Returns
          (λ b t. (b ≡ done) × Shows q (Spec.enqueue req (view r xs)) (length xs + 1) t)
          (call os (enqueue req) q s)
  unfolding call Spec.enqueue
  enqueue-Refines req s {r} {xs} is few = elim (Bool-cases r.closed) [
    | inl cl ↦ bind (enqueue-closed mem mtx s req is cl) λ _ t (is', _, _). returns (
      refl,
      record { object = r; nodes = xs; is = is'; stands = ground arith; few = omega arith },
    )
    | inr op ↦ bind (enqueue-open mem mtx s req is op few) λ _ t en. returns (
      refl,
      record {
        object = en.after;
        nodes = _;
        is = en.is;
        stands = ground (arith, en.kept, items-append xs ((os.malloc 16 s.heap, req) ∷ []));
        few = omega (arith, length-append xs ((os.malloc 16 s.heap, req) ∷ []));
      },
    )
  ]

  -- The answer of `queue_dequeue` on a queue with no nodes.
  empty-Refines :
      (s : Store) {r : Queue} (c : Bool)
      → IsQueue s.heap q r []
      → r.closed ≡ c
      → Refines q 1
          (call os dequeue q s)
          (elim (dequeue_from [] c) [ none ↦ none | some (req, g) ↦ some (got req, g) ])
  unfolding call
  empty-Refines s {r} true is cl =
      rw (dequeue-closed mtx s is.here (ready is.here (ground arith)) is cl) (
        returns (
          refl,
          record { object = r; nodes = []; is = is; stands = ground arith; few = omega arith },
        ))
  empty-Refines s {r} false is op =
      (log (log s (lock r.mutex)) (wait r.cond r.mutex), rw (dequeue-blocks mtx s is.here is op))

  dequeue-Refines :
      (s : Store) {r : Queue} (xs : Nodes)
      → IsQueue s.heap q r xs
      → Refines q (length xs + 1) (call os dequeue q s) (spec_call dequeue (view r xs))
  unfolding call spec_call Spec.dequeue
  dequeue-Refines s {r} ((p, d) ∷ xs) is =
      bind (dequeue-cons mtx s is.here (ready is.here (ground (arith, Chain-front is.ends))) is)
        λ b t (e, dq). returns (
          ap got e,
          record {
            object = dq.after;
            nodes = xs;
            is = dq.is;
            stands = ground (arith, dq.kept);
            few = omega arith;
          },
        )
  dequeue-Refines s {r} [] is = empty-Refines s r.closed is refl

  call-Refines :
      (c : Call) (s : Store) {r : Queue} {xs : Nodes}
      → IsQueue s.heap q r xs
      → length xs < 2147483647
      → Refines q (length xs + 1) (call os c q s) (spec_call c (view r xs))
  unfolding spec_call
  call-Refines (enqueue req) s is few = enqueue-Refines req s is few
  call-Refines dequeue s {xs} is few = dequeue-Refines s xs is
  call-Refines close s is few =
      unfold call Spec.close in
      rw (close-ok mtx s is) (
        returns (
          refl,
          record {
            object = _;
            nodes = _;
            is = close-IsQueue mtx s is;
            stands = refl;
            few = omega arith;
          },
        ))
  call-Refines is_closed s is few =
      unfold call in
      rw (isclosed-ok mtx s is) (
        returns (refl, record { object = _; nodes = _; is = is; stands = refl; few = omega arith }))
  call-Refines size s {xs} is few =
      unfold call in
      rw (size-ok mtx s is) (
        returns (
          ap number (length-items xs),
          record { object = _; nodes = _; is = is; stands = refl; few = omega arith },
        ))

  -- A queue in memory that stands for `f` refines the specification over any sequence of calls, as
  -- long as the number of requests fits an `int`: the answers are the specification's, the queue in
  -- memory stands for its final state, and the run blocks if the specification waits.
  pub calls-Refines :
      (cs : List Call) (s : Store) {f : Fifo} {n m : ℕ}
      → Shows q f n s
      → n + length cs ≤ m
      → m < 2147483647
      → Refines q m (calls os cs q s) (spec_calls cs f)
  unfolding calls spec_calls
  calls-Refines [] s sh le few = returns (refl, Shows-mono sh (omega arith))
  calls-Refines (c ∷ cs) s {m} sh le few = rw (← sh.stands) (
      Refines-bind q (length sh.nodes + 1) m (call os c q s) _ _ _
        (call-Refines c s sh.is (omega (arith, sh.few)))
        λ a t g sh'.
          Refines-bind q m m (calls os cs q t) _ _ _
            (calls-Refines cs t sh' (omega (arith, sh.few)) few)
            λ rest u e sh''. returns (refl, sh''))
