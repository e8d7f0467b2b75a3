-- ===== src/Copy/Threads/Partition.antt =====
-- The parts of the file that mt_copy.c gives to its threads, and the destination at the end.
use sp327_butt_k.Base.{
  ◌^◌, ℕ, zero, suc, ◌+◌, ◌-◌, ◌*◌, ◌/◌, ◌%◌, ◌≤◌, ◌<◌, ◌≡◌, refl, ap, Bool, true, false, ◌&&◌,
  List, [], ◌∷◌, ◌==◌, arith, leb, ltb, length, get_elem?, All, Bool-cases, inl, inr, if◌then◌else◌,
  pos,
}
use native.Mathlib.Nat.{div-add-mod, div-add-mod', mul-le-mul_right, mod-lt}
use sp327_butt_k.Text.{Text}
use sp327_butt_k.Copy.{exit_success}
use sp327_butt_k.Copy.Threads.{
  File, Job, Calls, part, main_job, rem_job, has_rem, worker, run_jobs, mt_copy_main,
}
use sp327_butt_k.Copy.Threads.Segments.{
  Inside, Covers, Member, Whole, run_jobs-covered, run_jobs-behind,
}

-- A call that some thread makes.
unfoldable pub Drawn : (numthrds fsize : ℕ) → Job → Type 0
Drawn n fsize job = (i : ℕ) × (i < n) × Member job (worker (part n fsize i))

product-le : (i n q : ℕ) → i < n → i * q + q ≤ n * q
product-le i n q lt =
    let more : suc i * q ≤ n * q = mul-le-mul_right q (omega arith) in omega (arith, more)

last_product : (n q : ℕ) → 0 < n → (n - 1) * q + q ≡ n * q
last_product zero q lt = absurd (omega arith)
last_product (suc n) q lt = let back : suc n - 1 ≡ n = omega arith in rw back (omega arith)

pub only-Member :
    (b : Bool) (job j : Job) → Member job (if b then j ∷ [] else []) → (b ≡ true) × (job ≡ j)
only-Member true job j (inl e) = (refl, e)
only-Member true job j (inr m) = absurd m
only-Member false job j m = absurd m

Member-only : (b : Bool) (j : Job) → b ≡ true → Member j (if b then j ∷ [] else [])
Member-only b j e = rw e (inl refl)

module _ (n : ℕ) (s : Text) (least : 0 < n) where
  abbrev fsize : ℕ
  fsize = length s

  whole_size : n * (fsize / n) + fsize % n ≡ fsize
  whole_size = div-add-mod fsize n

  -- A job of thread `i`.
  job_Inside : (i : ℕ) (job : Job) → i < n → Member job (worker (part n fsize i)) → Inside s job
  unfolding worker part
  job_Inside i job lt (inl e) = omega (
    arith,
    ap (λ (k : Job). k.start_offset) e,
    ap (λ (k : Job). k.len) e,
    product-le i n (fsize / n) lt,
    whole_size,
  )
  job_Inside i job lt (inr m) =
      let (b, e) = only-Member (has_rem (part n fsize i)) job (rem_job (part n fsize i)) m in
      omega (
        arith,
        ap (λ (k : Job). k.start_offset) e,
        ap (λ (k : Job). k.len) e,
        product-le i n (fsize / n) lt,
        whole_size,
      )

  pub Drawn-Inside : (job : Job) → Drawn n fsize job → Inside s job
  unfolding Drawn
  Drawn-Inside job (i, lt, m) = job_Inside i job lt m

  main_covered :
      (p : ℕ)
      → p < n * (fsize / n)
      → (p / (fsize / n) < n) × Covers (main_job (part n fsize (p / (fsize / n)))) p
  unfolding part
  main_covered p lt = (below, (omega (arith, place), omega (arith, place, remainder)))
    where
      positive : 0 < fsize / n
      positive = elim (Bool-cases (fsize / n == 0)) [
        | inl e ↦
            let z : fsize / n ≡ 0 = ground (arith, e) in absurd (omega (arith, ap (λ t. n * t) z))
        | inr e ↦ ground (arith, e)
      ]

      place : p / (fsize / n) * (fsize / n) + p % (fsize / n) ≡ p
      place = div-add-mod' p (fsize / n)

      remainder : p % (fsize / n) < fsize / n
      remainder = mod-lt p positive

      below : p / (fsize / n) < n
      below = elim (Bool-cases (ltb (p / (fsize / n)) n)) [
        | inl e ↦ ground (arith, e)
        | inr e ↦
            let ge : n ≤ p / (fsize / n) = ground (arith, e) in
            absurd (omega (arith, mul-le-mul_right (fsize / n) ge, place))
      ]

  rem_covered :
      (p : ℕ)
      → n * (fsize / n) ≤ p
      → p < fsize
      → (has_rem (part n fsize (n - 1)) ≡ true) × Covers (rem_job (part n fsize (n - 1))) p
  unfolding part
  rem_covered p ge lt =
      let start : (n - 1) * (fsize / n) + fsize / n ≡ n * (fsize / n) =
        last_product n (fsize / n) least in
      let left : 0 < fsize % n = omega (arith, whole_size) in
      (ground (arith, left), (omega (arith, start), omega (arith, start, whole_size)))

  module _ (order : List Job)
      (every : (i : ℕ) → i < n → All (λ j. Member j order) (worker (part n fsize i))) where
    rem_listed :
        has_rem (part n fsize (n - 1)) ≡ true → Member (rem_job (part n fsize (n - 1))) order
    unfolding worker
    rem_listed e = listed (has_rem (part n fsize (n - 1))) e (every (n - 1) (omega arith)).1
      where
        listed :
            (b : Bool)
            → b ≡ true
            → All (λ j. Member j order) (if b then rem_job (part n fsize (n - 1)) ∷ [] else [])
            → Member (rem_job (part n fsize (n - 1))) order
        listed true e all = all.0
        listed false e all = cc

    covered : (p : ℕ) → p < fsize → (job : Job) × Member job order × Covers job p
    unfolding worker
    covered p lt = elim (Bool-cases (ltb p (n * (fsize / n)))) [
      | inl e ↦
          let (below, covers) = main_covered p (ground (arith, e)) in
          (main_job (part n fsize (p / (fsize / n))), (every (p / (fsize / n)) below).0, covers)
      | inr e ↦
          let (b, covers) = rem_covered p (ground (arith, e)) lt in
          (rem_job (part n fsize (n - 1)), rem_listed b, covers)
    ]

all-Inside :
    (n : ℕ) (s : Text) (order : List Job)
    → 0 < n
    → All (Drawn n (length s)) order
    → All (Inside s) order
all-Inside n s [] least drawn = tt
all-Inside n s (job ∷ order) least drawn =
    (Drawn-Inside n s least job drawn.0, all-Inside n s order least drawn.1)

-- For 2 to 5 threads and a source of fewer than 2^31 characters, so that no part is larger than the
-- `int` that `fd_read` and `fd_write` return, whatever the order of their calls, if the calls in it
-- are those of the threads, and each of theirs is in it, and all system calls succeed and move all
-- they can: mt_copy ends with success, the destination has the source's characters, and behind them
-- what it had before.
pub mt_copy_copies :
    (argc n : ℕ) (s : Text) (calls : Job → Calls) (order : ℕ → List Job) (old : File)
    → 4 ≤ argc
    → 2 ≤ n
    → n ≤ 5
    → length s < 2 ^ 31
    → ((job : Job) → Whole (calls job) job)
    → All (Drawn n (length s)) (order n)
    → ((i : ℕ) → i < n → All (λ j. Member j (order n)) (worker (part n (length s) i)))
    → (f : File) × (mt_copy_main argc (pos n) true true true s calls order old ≡ (exit_success, f))
      × ((p : ℕ) → p < length s → f p ≡ get_elem? s p)
      × ((p : ℕ) → length s ≤ p → f p ≡ old p)
unfolding mt_copy_main
mt_copy_copies argc n s calls order old args two five short whole drawn every =
    let enough : ltb argc 4 ≡ false = ground arith in
    let accepted : (leb 2 n && leb n 5) ≡ true = ground arith in
    let inside = all-Inside n s (order n) (omega arith) drawn in
    (
      run_jobs s calls (order n) old,
      rw (enough, accepted),
      (λ p lt.
          let (job, m, covers) = covered n s (omega arith) (order n) every p lt in
          run_jobs-covered s calls whole short (order n) old p job inside lt m covers),
      (λ p ge. run_jobs-behind s calls whole short (order n) old p inside ge),
    )
