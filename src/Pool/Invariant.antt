-- ===== src/Pool/Invariant.antt =====
-- What holds of each worker in every reachable state of the pool.
use sp327_butt_k.Base.{
  ℕ, ◌<◌, ◌≡◌, ◌≢◌, refl, Bool, true, false, List, [], ◌∷◌, ◌++◌, arith, ltb, ◌==◌, ◌%◌, ◌+◌, All,
  append_assoc,
}
use mathlib.Core.Path.{subst}
use sp327_butt_k.Memory.{Ptr, null}
use sp327_butt_k.Queue.Spec
use sp327_butt_k.Queue.Spec.{dequeue_from}
use native.Mathlib.Decide.{ℕ_discrete}
use sp327_butt_k.Pool.Family.{update}
use sp327_butt_k.Pool.{
  Step, add, destroy, close, closed_all, join, joined_all, work, Reach, started, next, spurious,
  WorkerPc, starting, at_queue, waiting, running, finished, Worker, MainPc, adding, closing,
  joining, destroyed, System, thread_pool_add, close_worker, fetch, process, new_worker, WorkerStep,
  start, dequeue, run,
}

-- The request that a worker has taken and not yet run.
abbrev pub in_hand : WorkerPc → List Ptr
in_hand (running req) = req ∷ []
in_hand _ = []

abbrev pub IsRequest : Ptr → Type 0
IsRequest r = r ≢ null

-- `c`: the main thread has closed this worker's queue; `d`: it has joined the thread.
pub record WorkerInv (c d : Bool) (w : Worker) : Type 0 where
  pub ledger : w.assigned ≡ w.processed ++ (in_hand w.pc ++ w.queue.items)
  pub requests : All IsRequest w.queue.items
  pub asleep : w.pc ≡ waiting → (w.queue.items ≡ []) × (w.queue.closed ≡ false)
  pub ended : w.pc ≡ finished → (w.queue.items ≡ []) × (w.queue.closed ≡ true)
  pub shut : w.queue.closed ≡ c
  pub joined : d ≡ true → w.pc ≡ finished

abbrev pub is_shut : MainPc → ℕ → Bool
is_shut (adding _) i = false
is_shut (closing j) i = ltb i j
is_shut _ i = true

abbrev pub is_joined : MainPc → ℕ → Bool
is_joined (joining j) i = ltb i j
is_joined destroyed i = true
is_joined _ i = false

abbrev pub pending : MainPc → List Ptr
pending (adding rs) = rs
pending _ = []

pub record Inv (n : ℕ) (s : System) : Type 0 where
  pub requests : All IsRequest (pending s.main)
  pub worker : (i : ℕ) → i < n → WorkerInv (is_shut s.main i) (is_joined s.main i) (s.workers i)

All-snoc : (xs : List Ptr) (r : Ptr) → All IsRequest xs → IsRequest r → All IsRequest (xs ++ r ∷ [])
All-snoc [] r a h = (h, tt)
All-snoc (x ∷ xs) r a h = (a.0, All-snoc xs r a.1 h)

new_worker-Inv : WorkerInv false false new_worker
new_worker-Inv = record {
  ledger = refl;
  requests = tt;
  asleep = λ e. cc;
  ended = λ e. cc;
  shut = refl;
  joined = λ e. cc;
}

module _ {c d : Bool} {w : Worker} (inv : WorkerInv c d w) where
  add-Inv : (r : Ptr) → IsRequest r → c ≡ false → d ≡ false → WorkerInv c d (thread_pool_add r w)
  unfolding thread_pool_add Spec.enqueue
  add-Inv r real op un = record {
    ledger = ground (
      arith,
      inv.ledger,
      inv.shut,
      append_assoc w.processed (in_hand w.pc ++ w.queue.items) (r ∷ []),
      append_assoc (in_hand w.pc) w.queue.items (r ∷ []),
    );
    requests = ground (arith, inv.shut, All-snoc w.queue.items r inv.requests real);
    asleep = ground (arith);
    ended = ground (arith, inv.ended, inv.shut);
    shut = ground (arith, inv.shut);
    joined = λ e. cc;
  }

  close-Inv : d ≡ false → WorkerInv true d (close_worker w)
  unfolding close_worker Spec.close
  close-Inv un = ground arith

  fetch-Inv : w.pc ≡ at_queue → WorkerInv c d (fetch w)
  unfolding fetch Spec.dequeue
  fetch-Inv e = ground (arith)

  process-Inv : (req : Ptr) → w.pc ≡ running req → WorkerInv c d (process req w)
  unfolding process
  process-Inv req e = ground (arith, inv.ledger, append_assoc w.processed (req ∷ []) w.queue.items)

  start-Inv : (k : ℕ) → w.pc ≡ starting → WorkerInv c d (record w { pc = at_queue; local_id = k })
  start-Inv k e = ground arith

  awake-Inv : w.pc ≡ waiting → WorkerInv c d (record w { pc = at_queue })
  awake-Inv e = ground arith

WorkerStep-Inv :
    {c d : Bool} {k l : ℕ} {w v : Worker} → WorkerStep k w l v → WorkerInv c d w → WorkerInv c d v
WorkerStep-Inv (start {k} e) inv = start-Inv inv k e
WorkerStep-Inv (dequeue e) inv = fetch-Inv inv e
WorkerStep-Inv (run req e) inv = process-Inv inv req e

-- A worker changes while the main thread moves from `m` to `m'`; for all others nothing changes.
update-Inv :
    (n i : ℕ) (m m' : MainPc) (f : ℕ → Worker) (w : Worker)
    → ((j : ℕ) → j < n → WorkerInv (is_shut m j) (is_joined m j) (f j))
    → ((j : ℕ) → i ≢ j → (is_shut m' j ≡ is_shut m j) × (is_joined m' j ≡ is_joined m j))
    → WorkerInv (is_shut m' i) (is_joined m' i) w
    → (j : ℕ) → j < n
    → WorkerInv (is_shut m' j) (is_joined m' j) (update f i w j)
update-Inv n i m m' f w old same new j lt = elim (ℕ_discrete i j) [
  | yes e ↦
      let self : (i == i) ≡ true = ground arith in
      subst (λ k. WorkerInv (is_shut m' k) (is_joined m' k) (update f i w k)) e (rw self new)
  | no ne ↦
      let other : (i == j) ≡ false = ground arith in
      rw (other, (same j ne).0, (same j ne).1) (old j lt)
]

-- The same with no worker changed.
phase-Inv :
    (n : ℕ) (m m' : MainPc) (f : ℕ → Worker)
    → ((j : ℕ) → j < n → WorkerInv (is_shut m j) (is_joined m j) (f j))
    → ((j : ℕ) → j < n → (is_shut m' j ≡ is_shut m j) × (is_joined m' j ≡ is_joined m j))
    → (j : ℕ) → j < n
    → WorkerInv (is_shut m' j) (is_joined m' j) (f j)
phase-Inv n m m' f old same j lt = rw ((same j lt).0, (same j lt).1) (old j lt)

-- The invariant at the main thread's position `m`.
at-Inv :
    {n : ℕ} {s : System} (m : MainPc)
    → s.main ≡ m
    → Inv n s
    → All IsRequest (pending m)
      × ((i : ℕ) → i < n → WorkerInv (is_shut m i) (is_joined m i) (s.workers i))
at-Inv {n} {s} m e inv =
    subst
      (λ k.
        All IsRequest (pending k)
        × ((i : ℕ) → i < n → WorkerInv (is_shut k i) (is_joined k i) (s.workers i)))
      e (inv.requests, inv.worker)

-- Thread `i` has finished and is joined.
join-Inv :
    (n i : ℕ) (f : ℕ → Worker)
    → ((j : ℕ) → j < n → WorkerInv true (ltb j i) (f j))
    → (f i).pc ≡ finished
    → (j : ℕ) → j < n
    → WorkerInv true (ltb j (i + 1)) (f j)
join-Inv n i f ws fin j lt =
    let inv = ws j lt in
    record {
      ledger = inv.ledger;
      requests = inv.requests;
      asleep = inv.asleep;
      ended = inv.ended;
      shut = inv.shut;
      joined = λ e. elim (ℕ_discrete i j) [
        | yes same ↦ rw (← same) fin
        | no ne ↦ inv.joined (ground arith)
      ];
    }

Step-Inv : {n : ℕ} {s t : System} → Step n s t → Inv n s → Inv n t
Step-Inv {n} {s} (add x req rs e pos) inv =
    let (reqs, ws) = at-Inv (adding (req ∷ rs)) e inv in
    let lt : x % n < n = omega arith in
    record {
      requests = reqs.1;
      worker =
          update-Inv n (x % n) (adding (req ∷ rs)) (adding rs) s.workers _ ws (λ j ne. (refl, refl))
            (add-Inv (ws (x % n) lt) req reqs.0 refl refl);
    }
Step-Inv {n} {s} (destroy e) inv =
    let (reqs, ws) = at-Inv (adding []) e inv in
    record {
      requests = tt;
      worker = phase-Inv n (adding []) (closing 0) s.workers ws (λ j lt. (ground arith, refl));
    }
Step-Inv {n} {s} (close i e lt) inv =
    let (reqs, ws) = at-Inv (closing i) e inv in
    record {
      requests = tt;
      worker =
          update-Inv n i (closing i) (closing (i + 1)) s.workers _ ws (λ j ne. (ground arith, refl))
            (let now : ltb i (i + 1) ≡ true = ground arith in rw now (close-Inv (ws i lt) refl));
    }
Step-Inv {n} {s} (closed_all e) inv =
    let (reqs, ws) = at-Inv (closing n) e inv in
    record {
      requests = tt;
      worker =
          phase-Inv n (closing n) (joining 0) s.workers ws (λ j lt. (ground arith, ground arith));
    }
Step-Inv {n} {s} (join i e lt fin) inv =
    let (reqs, ws) = at-Inv (joining i) e inv in
    record { requests = tt; worker = join-Inv n i s.workers ws fin }
Step-Inv {n} {s} (joined_all e) inv =
    let (reqs, ws) = at-Inv (joining n) e inv in
    record {
      requests = tt;
      worker = phase-Inv n (joining n) destroyed s.workers ws (λ j lt. (refl, ground arith));
    }
Step-Inv {n} {s} (work i lt st) inv = record {
  requests = inv.requests;
  worker =
      update-Inv n i s.main s.main s.workers _ inv.worker (λ j ne. (refl, refl))
        (WorkerStep-Inv st (inv.worker i lt));
}

-- Every reachable state satisfies the invariant.
pub Reach-Inv :
    {n : ℕ} {requests : List Ptr} {s : System}
    → Reach n requests s
    → All IsRequest requests
    → Inv n s
Reach-Inv started real = record { requests = real; worker = λ i lt. new_worker-Inv }
Reach-Inv (next r st) real = Step-Inv st (Reach-Inv r real)
Reach-Inv {n} (spurious {s} i r lt e) real =
    let inv = Reach-Inv r real in
    record {
      requests = inv.requests;
      worker =
          update-Inv n i s.main s.main s.workers _ inv.worker (λ j ne. (refl, refl))
            (awake-Inv (inv.worker i lt) e);
    }
