-- ===== src/M9/Calls.antt =====
-- A queue of M9/queue.c from its creation on, with the calls that a client makes on it.
use sp327_butt_k.Base.{◌≡◌, refl, ap, false, Option, some, none, List, [], ◌∷◌, ◌++◌, arith, ◌==◌}
use sp327_butt_k.Memory.{
  Ptr, null, Queue, read, update, Store, Run, blocked, Cmd, pure, ◌>>=◌, ◌>>◌, and_then, Os,
  HasMemory,
}
use sp327_butt_k.Memory.Returns.{Returns, returns, bind}
use sp327_butt_k.Queue.Chain.{Nodes, items, items-append}
use sp327_butt_k.Queue.Enqueue.{malloc-ok}
use sp327_butt_k.M9.Queue.{queue_bytes, queue_create, queue_enqueue, queue_dequeue}
use sp327_butt_k.M9.Fifo.{IsList, enqueue-append, dequeue-first, dequeue_blocks}

pub data Call : Type 0 where
  enqueue : (req : Ptr) → Call
  dequeue : Call

-- The requests that a call returns. A `queue_dequeue` that has to wait is given no wake-up.
unfoldable pub call : Os → Call → Ptr → Cmd (List Ptr)
call os (enqueue req) q = do queue_enqueue os q req; pure []
call os dequeue q = do req ← queue_dequeue [] q; pure (req ∷ [])

unfoldable pub calls : Os → List Call → Ptr → Cmd (List Ptr)
calls os [] q = pure []
calls os (c ∷ cs) q = do got ← call os c q; rest ← calls os cs q; pure (got ++ rest)

unfoldable pub create_and_call : Os → (raw_block : Queue) → List Call → Cmd (List Ptr)
create_and_call os raw_block cs = do q ← queue_create os raw_block; calls os cs q

-- The same on a list of requests: what the calls return; `none` where one would wait for ever.
abbrev pub got_first : Ptr → Option (List Ptr) → Option (List Ptr)
got_first req none = none
got_first req (some rest) = some (req ∷ rest)

unfoldable pub spec_calls : List Call → List Ptr → Option (List Ptr)
spec_calls [] reqs = some []
spec_calls (enqueue req ∷ cs) reqs = spec_calls cs (reqs ++ req ∷ [])
spec_calls (dequeue ∷ cs) [] = none
spec_calls (dequeue ∷ cs) (req ∷ reqs) = got_first req (spec_calls cs reqs)

-- The run returns these requests, or is blocked.
abbrev pub Answers : Run (List Ptr) → Option (List Ptr) → Type 0
Answers run none = (t : Store) × (run ≡ blocked t)
Answers run (some reqs) = Returns (λ got t. got ≡ reqs) run

Answers-bind :
    {A : Type 0} {P : A → Store → Type 0} {r : Run A} (k : A → Cmd (List Ptr))
    (o : Option (List Ptr))
    → Returns P r
    → ((a : A) (t : Store) → P a t → Answers (k a t) o)
    → Answers (and_then r k) o
Answers-bind k o (returns p) next = next _ _ p

-- A first request in front of the others.
Answers-got_first :
    (req : Ptr) (run : Run (List Ptr)) (o : Option (List Ptr))
    → Answers run o
    → Answers (and_then run (λ rest. pure ((req ∷ []) ++ rest))) (got_first req o)
Answers-got_first req run none (t, e) = (t, rw e refl)
Answers-got_first req run (some reqs) (returns e) = returns (ap (λ rest. req ∷ rest) e)

Answers-same :
    (run : Run (List Ptr)) (o : Option (List Ptr))
    → Answers run o
    → Answers (and_then run (λ rest. pure ([] ++ rest))) o
Answers-same run none (t, e) = (t, rw e refl)
Answers-same run (some reqs) (returns e) = returns e

module _ {os : Os} (mem : HasMemory os) where
  call-enqueue :
      (req : Ptr) (s : Store) (q : Ptr) (xs : Nodes)
      → IsList s.heap q xs
      → Returns
          (λ got t. (got ≡ []) × IsList t.heap q (xs ++ (os.malloc 16 s.heap, req) ∷ []))
          (call os (enqueue req) q s)
  unfolding call
  call-enqueue req s q xs is = bind (enqueue-append mem s q req is) λ _ t is'. returns (refl, is')

  call-dequeue :
      (s : Store) (q p d : Ptr) (xs : Nodes)
      → IsList s.heap q ((p, d) ∷ xs)
      → Returns (λ got t. (got ≡ d ∷ []) × IsList t.heap q xs) (call os dequeue q s)
  unfolding call
  call-dequeue s q p d xs is =
      bind (dequeue-first s is) λ req t (e, is'). returns (ap (λ x. x ∷ []) e, is')

  calls-Answers :
      (cs : List Call) (s : Store) (q : Ptr) (xs : Nodes)
      → IsList s.heap q xs
      → Answers (calls os cs q s) (spec_calls cs (items xs))
  unfolding calls call spec_calls
  calls-Answers [] s q xs is = returns refl
  calls-Answers (enqueue req ∷ cs) s q xs is =
      let n = os.malloc 16 s.heap in
      rw (← items-append xs ((n, req) ∷ [])) (
        Answers-bind (λ got. calls os cs q >>= λ rest. pure (got ++ rest))
          (spec_calls cs (items (xs ++ (n, req) ∷ []))) (call-enqueue req s q xs is)
          λ got t (e, is'). rw e (
            Answers-same (calls os cs q t) (spec_calls cs (items (xs ++ (n, req) ∷ [])))
              (calls-Answers cs t q (xs ++ (n, req) ∷ []) is')))
  calls-Answers (dequeue ∷ cs) s q [] is = let (t, e) = dequeue_blocks s is in (t, rw e refl)
  calls-Answers (dequeue ∷ cs) s q ((p, d) ∷ xs) is =
      Answers-bind (λ got. calls os cs q >>= λ rest. pure (got ++ rest))
        (got_first d (spec_calls cs (items xs))) (call-dequeue s q p d xs is)
        λ got t (e, is'). rw e (
          Answers-got_first d (calls os cs q t) (spec_calls cs (items xs))
            (calls-Answers cs t q xs is'))

  create-IsList :
      (raw_block : Queue) (s : Store)
      → Returns (λ q t. IsList t.heap q []) (queue_create os raw_block s)
  unfolding queue_create read update
  create-IsList raw_block s =
      let ne : (os.malloc queue_bytes s.heap == null) ≡ false =
        ground (arith, mem.ne_null queue_bytes s.heap) in
      rw (malloc-ok mem queue_bytes s, ne)
        (returns (record {
          object = record raw_block { front = null; rear = null };
          here = ground (arith, mem.ne_null queue_bytes s.heap);
          ends = (refl, refl);
        }))

  -- From `queue_create` on, any sequence of calls returns the requests that a first-in first-out list
  -- would return, or is blocked where a `queue_dequeue` finds that list empty.
  pub calls_fifo :
      (raw_block : Queue) (cs : List Call) (s : Store)
      → Answers (create_and_call os raw_block cs s) (spec_calls cs [])
  unfolding create_and_call
  calls_fifo raw_block cs s =
      Answers-bind (λ q. calls os cs q) (spec_calls cs []) (create-IsList raw_block s)
        λ q t is. calls-Answers cs t q [] is
