-- ===== src/M9/Workers.antt =====
-- The workers of M9/worker_thread.c and the requests that they take.
use sp327_butt_k.Base.{
  false, ℕ, ◌+◌, ◌<◌, ◌≡◌, ◌≢◌, refl, List, [], ◌∷◌, ◌++◌, arith, All, ◌==◌, if◌then◌else◌,
}
use sp327_butt_k.Memory.{Ptr, null}
use sp327_butt_k.Pool.Family.{total, total-update, total-const}
use sp327_butt_k.Pool.Invariant.{IsRequest}
use sp327_butt_k.Pool.Counting.{count, count-append}
use sp327_butt_k.M9.{
  Pc, at_queue, waiting, running, exited, Worker, System, received, fetch, process, init, Reach,
  started, enqueue, wake, dequeue, run,
}

record Inv (s : System) : Type 0 where
  items : All IsRequest s.items
  alive : (i : ℕ) → (s.workers i).pc ≢ exited

All-snoc : (xs : List Ptr) (r : Ptr) → All IsRequest xs → IsRequest r → All IsRequest (xs ++ r ∷ [])
All-snoc [] r a h = (h, tt)
All-snoc (x ∷ xs) r a h = (a.0, All-snoc xs r a.1 h)

received-Inv :
    (s : System) (i : ℕ) (items : List Ptr) → Inv s → All IsRequest items → Inv (received s i items)
received-Inv s i [] inv real = record { items = tt; alive = λ j. ground (arith, inv.alive j) }
received-Inv s i (req ∷ items) inv real = record {
  items = real.1;
  alive = λ j. ground (arith, inv.alive j, real.0);
}

Reach-Inv :
    {n : ℕ} {enqueued : List Ptr} {s : System} → Reach n enqueued s → All IsRequest enqueued → Inv s
unfolding fetch process
Reach-Inv started real = record { items = tt; alive = λ i. cc }
Reach-Inv (enqueue {s} req r) real =
    let inv = Reach-Inv r real.1 in
    record { items = All-snoc s.items req inv.items real.0; alive = inv.alive }
Reach-Inv (wake i r lt e) real =
    let inv = Reach-Inv r real in
    record { items = inv.items; alive = λ j. ground (arith, inv.alive j) }
Reach-Inv (dequeue {s} i r lt e) real =
    let inv = Reach-Inv r real in received-Inv s i s.items inv inv.items
Reach-Inv (run i req r lt e) real =
    let inv = Reach-Inv r real in
    record { items = inv.items; alive = λ j. ground (arith, inv.alive j) }

-- As long as main enqueues requests and no NULL, no worker ever exits, whatever the interleaving: a
-- `pthread_join` on it cannot return.
pub never_exits :
    {n : ℕ} {enqueued : List Ptr} {s : System}
    → Reach n enqueued s
    → All IsRequest enqueued
    → (i : ℕ) → (s.workers i).pc ≢ exited
never_exits r real i = (Reach-Inv r real).alive i

-- The requests that a worker has taken: those it has run and the one that it runs.
abbrev pub taken : Worker → List Ptr
taken w = elim w.pc [ running req ↦ w.processed ++ req ∷ [] | _ ↦ w.processed ]

abbrev pub taken_count : Ptr → Worker → ℕ
taken_count a w = count a (taken w)

count-nil : (a : Ptr) → count a [] ≡ 0
unfolding count
count-nil a = refl

taken_count-woken :
    (a : Ptr) (w : Worker)
    → w.pc ≡ waiting
    → taken_count a (record w { pc = at_queue }) ≡ taken_count a w
taken_count-woken a w e = rw e refl

taken_count-run :
    (a req : Ptr) (w : Worker)
    → w.pc ≡ running req
    → taken_count a w ≡ count a (w.processed ++ req ∷ [])
taken_count-run a req w e = rw e refl

taken_count-idle :
    (a : Ptr) (w : Worker) (pc : Pc)
    → w.pc ≡ at_queue
    → ((req : Ptr) → pc ≢ running req)
    → taken_count a (record w { pc = pc }) ≡ taken_count a w
taken_count-idle a w at_queue e idle = rw e refl
taken_count-idle a w waiting e idle = rw e refl
taken_count-idle a w (running req) e idle = absurd (idle req refl)
taken_count-idle a w exited e idle = rw e refl

taken_count-received :
    (a req : Ptr) (w : Worker)
    → IsRequest req
    → w.pc ≡ at_queue
    → taken_count a (record w { pc = if req == null then exited else running req })
      ≡ taken_count a w + count a (req ∷ [])
taken_count-received a req w real e =
    let some_request : (req == null) ≡ false = ground (arith, real) in
    rw (some_request, e) (count-append a w.processed (req ∷ []))

fetch-total :
    (a : Ptr) (n i : ℕ) (s : System) (items : List Ptr)
    → i < n
    → (s.workers i).pc ≡ at_queue
    → All IsRequest items
    → total (taken_count a) n (received s i items).workers + count a (received s i items).items
      ≡ total (taken_count a) n s.workers + count a items
fetch-total a n i s [] lt e real =
    let w : Worker = record (s.workers i) { pc = waiting } in
    omega (
      arith,
      total-update (taken_count a) n s.workers i w lt,
      taken_count-idle a (s.workers i) waiting e (λ req f. cc),
    )
fetch-total a n i s (req ∷ items) lt e real =
    let w : Worker = record (s.workers i) { pc = if req == null then exited else running req } in
    omega (
      arith,
      total-update (taken_count a) n s.workers i w lt,
      taken_count-received a req (s.workers i) real.0 e,
      count-append a (req ∷ []) items,
    )

-- As long as main enqueues no NULL: at any time, each request was enqueued as often as it is still
-- queued or was taken by the `n` workers, all together. So none is lost, and none is handed out twice.
pub requests_conserved :
    {n : ℕ} {enqueued : List Ptr} {s : System}
    → Reach n enqueued s
    → All IsRequest enqueued
    → (a : Ptr) → total (taken_count a) n s.workers + count a s.items ≡ count a enqueued
unfolding fetch process
requests_conserved {n} started real a =
    omega (arith, total-const (taken_count a) n (init.workers 0) (count-nil a))
requests_conserved {n} (enqueue {enqueued} {s} req r) real a = omega (
  arith,
  requests_conserved r real.1 a,
  count-append a s.items (req ∷ []),
  count-append a (req ∷ []) enqueued,
)
requests_conserved {n} (wake {s} i r lt e) real a = omega (
  arith,
  requests_conserved r real a,
  total-update (taken_count a) n s.workers i (record (s.workers i) { pc = at_queue }) lt,
  taken_count-woken a (s.workers i) e,
)
requests_conserved {n} (dequeue {s} i r lt e) real a =
    omega (
      arith,
      requests_conserved r real a,
      fetch-total a n i s s.items lt e (Reach-Inv r real).items,
    )
requests_conserved {n} (run {s} i req r lt e) real a =
    let w : Worker = record {
      pc = at_queue;
      req_count = (s.workers i).req_count + 1;
      processed = (s.workers i).processed ++ req ∷ [];
    } in
    omega (
      arith,
      requests_conserved r real a,
      total-update (taken_count a) n s.workers i w lt,
      taken_count-run a req (s.workers i) e,
    )
