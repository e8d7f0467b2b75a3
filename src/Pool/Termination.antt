-- ===== src/Pool/Termination.antt =====
-- The next steps of the pool (thread_pool.c, worker_thread.c), and the length of its runs.
use sp327_butt_k.Base.{
  ℕ, zero, suc, ◌+◌, ◌*◌, ◌-◌, ◌%◌, ◌≤◌, ◌<◌, ◌≡◌, refl, true, ap, List, [], ◌∷◌, arith, length,
  length-append, All, Bool, ◌≢◌, ◌⊎◌, inl, inr,
}
use native.Mathlib.Decide.{dec_lt}
use sp327_butt_k.Memory.{Ptr}
use sp327_butt_k.Queue.Spec
use sp327_butt_k.Pool.Family.{update, total, total-update}
use sp327_butt_k.Pool.{
  WorkerPc, starting, at_queue, waiting, running, finished, Worker, MainPc, adding, closing,
  joining, destroyed, System, thread_pool_add, close_worker, fetch, process, WorkerStep, start,
  dequeue, run, Step, add, destroy, close, closed_all, join, joined_all, work, Reach, started, next,
  spurious,
}
use sp327_butt_k.Pool.Invariant.{IsRequest, WorkerInv, is_shut, is_joined, Reach-Inv}

-- The steps that a worker can still make, given no more requests and no wake-up.
abbrev pub pc_weight : WorkerPc → ℕ
pc_weight starting = 3
pc_weight at_queue = 2
pc_weight waiting = 1
pc_weight (running _) = 3
pc_weight finished = 0

abbrev pub worker_weight : Worker → ℕ
worker_weight w = pc_weight w.pc + 3 * length w.queue.items

-- After a wake-up of worker `i` for no reason, which Reach allows.
abbrev pub woken : System → ℕ → System
woken s i = record s { workers = update s.workers i (record (s.workers i) { pc = at_queue }) }

-- The steps of the main thread, with those that it can cause in the workers.
abbrev pub main_weight : ℕ → MainPc → ℕ
main_weight n (adding rs) = 5 * length rs + 3 * n + 3
main_weight n (closing i) = 2 * (n - i) + n + 2
main_weight n (joining i) = (n - i) + 1
main_weight n destroyed = 0

unfoldable pub measure : ℕ → System → ℕ
measure n s = main_weight n s.main + total worker_weight n s.workers

module _ (w : Worker) where
  add-weight : (r : Ptr) → worker_weight (thread_pool_add r w) ≤ worker_weight w + 4
  unfolding thread_pool_add Spec.enqueue
  add-weight r = ground (arith, length-append w.queue.items (r ∷ []))

  close-weight : worker_weight (close_worker w) ≤ worker_weight w + 1
  unfolding close_worker Spec.close
  close-weight = ground arith

  fetch-weight : w.pc ≡ at_queue → worker_weight (fetch w) < worker_weight w
  unfolding fetch Spec.dequeue
  fetch-weight e = ground arith

WorkerStep-weight :
    {k l : ℕ} {w v : Worker} → WorkerStep k w l v → worker_weight v < worker_weight w
unfolding process
WorkerStep-weight (start e) = ground arith
WorkerStep-weight (dequeue {w} e) = fetch-weight w e
WorkerStep-weight (run req e) = ground arith

main-left : (n : ℕ) {m m' : MainPc} → m ≡ m' → main_weight n m ≡ main_weight n m'
main-left n e = ap (main_weight n) e

Step-measure : {n : ℕ} {s t : System} → Step n s t → measure n t < measure n s
unfolding measure
Step-measure {n} {s} (add x req rs e pos) =
    let old = s.workers (x % n) in
    omega (
      arith,
      main-left n e,
      add-weight old req,
      total-update worker_weight n s.workers (x % n) (thread_pool_add req old) (omega arith),
    )
Step-measure {n} (destroy e) = omega (arith, main-left n e)
Step-measure {n} {s} (close i e lt) = omega (
  arith,
  main-left n e,
  close-weight (s.workers i),
  total-update worker_weight n s.workers i (close_worker (s.workers i)) lt,
)
Step-measure {n} (closed_all e) = omega (arith, main-left n e)
Step-measure {n} (join i e lt fin) = omega (arith, main-left n e)
Step-measure {n} (joined_all e) = omega (arith, main-left n e)
Step-measure {n} {s} (work i {w} lt st) =
    omega (arith, WorkerStep-weight st, total-update worker_weight n s.workers i w lt)

wake-weight :
    (w : Worker) → w.pc ≡ waiting → worker_weight (record w { pc = at_queue }) ≡ worker_weight w + 1
wake-weight w e = ground arith

spurious-measure :
    (n : ℕ) (s : System) (i : ℕ)
    → i < n
    → (s.workers i).pc ≡ waiting
    → measure n (woken s i) ≡ measure n s + 1
unfolding measure
spurious-measure n s i lt e =
    let awake : Worker = record (s.workers i) { pc = at_queue } in
    omega (arith, wake-weight (s.workers i) e, total-update worker_weight n s.workers i awake lt)

-- A run of `k` steps and `j` wake-ups for no reason, in any order.
pub data Run (n : ℕ) : System → (k j : ℕ) → System → Type 0 where
  none_made : {s : System} → Run n s zero zero s
  one_more : {s t u : System} {k j : ℕ} → Step n s t → Run n t k j u → Run n s (suc k) j u
  one_waking :
      {s u : System} {k j : ℕ} (i : ℕ)
      → i < n
      → (s.workers i).pc ≡ waiting
      → Run n (woken s i) k j u
      → Run n s k (suc j) u

-- The steps of a run are paid for by the measure of its start and its wake-ups.
pub Run-le-measure :
    {n : ℕ} {s t : System} {k j : ℕ} → Run n s k j t → k + measure n t ≤ measure n s + j
Run-le-measure none_made = omega arith
Run-le-measure (one_more st r) = omega (arith, Run-le-measure r, Step-measure st)
Run-le-measure {n} {s} (one_waking i lt e r) =
    omega (arith, Run-le-measure r, spurious-measure n s i lt e)

-- The loop indices of the main thread.
abbrev InRange : ℕ → MainPc → Type 0
InRange n (closing i) = i ≤ n
InRange n (joining i) = i ≤ n
InRange n _ = Unit

Reach-InRange : {n : ℕ} {rq : List Ptr} {s : System} → Reach n rq s → InRange n s.main
Reach-InRange started = tt
Reach-InRange (next r (add x req rs e pos)) = tt
Reach-InRange (next r (destroy e)) = omega arith
Reach-InRange (next r (close i e lt)) = omega arith
Reach-InRange (next r (closed_all e)) = omega arith
Reach-InRange (next r (join i e lt fin)) = omega arith
Reach-InRange (next r (joined_all e)) = tt
Reach-InRange (next r (work i lt st)) = Reach-InRange r
Reach-InRange (spurious i r lt e) = Reach-InRange r

abbrev CanStep : ℕ → System → Type 0
CanStep n s = (t : System) × Step n s t

module _ {n : ℕ} {s : System} where
  -- The thread that the main thread is waiting for can go on, or has returned.
  join-CanStep :
      (i : ℕ)
      → s.main ≡ joining i
      → i < n
      → (pc : WorkerPc) → (s.workers i).pc ≡ pc
      → {d : Bool} → WorkerInv true d (s.workers i)
      → CanStep n s
  join-CanStep i e lt starting p inv = (_, work i lt (start p))
  join-CanStep i e lt at_queue p inv = (_, work i lt (dequeue p))
  join-CanStep i e lt waiting p inv = absurd (ground (arith, inv.asleep p, inv.shut))
  join-CanStep i e lt (running req) p inv = (_, work i lt (run req p))
  join-CanStep i e lt finished p inv = (_, join i e lt p)

  main-CanStep :
      (m : MainPc)
      → s.main ≡ m
      → 0 < n
      → m ≢ destroyed
      → InRange n m
      → ((i : ℕ) → i < n → WorkerInv (is_shut m i) (is_joined m i) (s.workers i))
      → CanStep n s
  main-CanStep (adding []) e pos live le ws = (_, destroy e)
  main-CanStep (adding (r ∷ rs)) e pos live le ws = (_, add 0 r rs e pos)
  main-CanStep (closing i) e pos live le ws = elim (dec_lt i n) [
    | yes lt ↦ (_, close i e lt)
    | no ge ↦ let done : i ≡ n = omega arith in (_, closed_all (rw (← done) e))
  ]
  main-CanStep (joining i) e pos live le ws = elim (dec_lt i n) [
    | yes lt ↦ join-CanStep i e lt (s.workers i).pc refl (ws i lt)
    | no ge ↦ let done : i ≡ n = omega arith in (_, joined_all (rw (← done) e))
  ]
  main-CanStep destroyed e pos live le ws = absurd (live refl)

-- No deadlock: with at least one worker, a reachable state in which the pool is not yet destroyed
-- has a step, without any spurious wake-up.
pub no_deadlock :
    {n : ℕ} {requests : List Ptr} {s : System}
    → Reach n requests s
    → All IsRequest requests
    → 0 < n
    → s.main ≢ destroyed
    → (t : System) × Step n s t
no_deadlock {s} r real pos live =
    main-CanStep s.main refl pos live (Reach-InRange r) (λ i lt. (Reach-Inv r real).worker i lt)

is_destroyed : (m : MainPc) → (m ≡ destroyed) ⊎ (m ≢ destroyed)
is_destroyed (adding rs) = inr (λ e. cc)
is_destroyed (closing i) = inr (λ e. cc)
is_destroyed (joining i) = inr (λ e. cc)
is_destroyed destroyed = inl refl

shutdown_within :
    (fuel : ℕ) {n : ℕ} {requests : List Ptr} (s : System)
    → Reach n requests s
    → All IsRequest requests
    → 0 < n
    → measure n s < fuel
    → (k : ℕ) × (t : System) × Run n s k 0 t × (t.main ≡ destroyed) × Reach n requests t
shutdown_within zero s r real pos enough = absurd (omega arith)
shutdown_within (suc fuel) s r real pos enough = elim (is_destroyed s.main) [
  | inl e ↦ (0, s, none_made, e, r)
  | inr live ↦
      let (t, st) = no_deadlock r real pos live in
      let (k, u, rest, e, r') =
        shutdown_within fuel t (next r st) real pos (omega (arith, Step-measure st)) in
      (suc k, u, one_more st rest, e, r')
]

-- From every reachable state some run without spurious wake-ups completes `thread_pool_destroy`; and a
-- run with `j` spurious wake-ups, in any order, has no more other steps than the measure of the state
-- and `j`. With finitely many of them, no run goes on forever.
pub shutdown_completes :
    {n : ℕ} {requests : List Ptr} {s : System}
    → Reach n requests s
    → All IsRequest requests
    → 0 < n
    → ((k : ℕ) × (t : System) × Run n s k 0 t × (t.main ≡ destroyed) × Reach n requests t)
      × ((k j : ℕ) (t : System) → Run n s k j t → k ≤ measure n s + j)
shutdown_completes {n} {s} r real pos = (
  shutdown_within (suc (measure n s)) s r real pos (omega arith),
  λ k j t run. omega (arith, Run-le-measure run),
)
