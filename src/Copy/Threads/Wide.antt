-- ===== src/Copy/Threads/Wide.antt =====
-- `fd_read` of mt_copy.c on parts of 2^31 characters, a number that is no `int`.
use sp327_butt_k.Base.{
  ◌^◌, ℕ, zero, suc, ◌+◌, ◌*◌, ◌/◌, ◌%◌, ◌≤◌, ◌<◌, ◌≡◌, refl, ap, ◌∙◌, true, false, ◌&&◌, Option,
  none, some, List, [], ◌∷◌, arith, leb, ltb, length, All, Bool-cases, inl, inr, pos,
}
use sp327_butt_k.Text.{Text, take, drop}
use sp327_butt_k.Text.Slices.{length-take, length-drop, least}
use sp327_butt_k.Copy.{exit_success, Plan, overlay}
use sp327_butt_k.Copy.Threads.{
  File, Job, Calls, ReadPart, read_failed, after_pread, fd_read, fd_read_end, pread_by, do_part,
  part, rem_job, has_rem, worker, run_jobs, mt_copy_main, copy_part, part_read,
}
use sp327_butt_k.Copy.Threads.Segments.{Inside}
use sp327_butt_k.Copy.Threads.Partition.{Drawn, Drawn-Inside, only-Member}

fd_read_end-wide :
    (tr : ℕ) (buf : Text) → 2 ^ 31 ≤ tr → tr < 2 ^ 32 → fd_read_end tr buf ≡ read_failed
unfolding fd_read_end
fd_read_end-wide tr buf ge lt = ground (arith, ge, lt)

-- What a `read` of `n` characters gives where some are left: it fails, or gives 1 to `n` of them.
data IsRead (n : ℕ) : Option Text × Plan → Type 0 where
  failing : (plan : Plan) → IsRead n (none, plan)
  giving :
      (c : ℕ) (bytes : Text) (plan : Plan)
      → suc (length bytes) ≤ n
      → IsRead n (some (c ∷ bytes), plan)

take-IsRead :
    (n k : ℕ) (s : Text) (plan : Plan)
    → 0 < k
    → k ≤ n
    → 0 < length s
    → IsRead n (some (take k s), plan)
take-IsRead n zero s plan wanted le left = absurd (omega arith)
take-IsRead n (suc k) [] plan wanted le left = absurd (omega arith)
take-IsRead n (suc k) (c ∷ s) plan wanted le left =
    giving c (take k s) plan (ground (arith, length-take k s))

pread_by-IsRead :
    (n off : ℕ) (s : Text) (plan : Plan)
    → 0 < n
    → 0 < length (drop off s)
    → IsRead n (pread_by n off s plan)
pread_by-IsRead n off s [] some_wanted left =
    take-IsRead n n (drop off s) [] some_wanted (omega arith) left
pread_by-IsRead n off s (none ∷ plan) some_wanted left = failing plan
pread_by-IsRead n off s (some k ∷ plan) some_wanted left =
    take-IsRead n (least n (suc k)) (drop off s) plan (ground arith) (ground arith) left

module _ (n off : ℕ) (s : Text) (wide : n ≡ 2 ^ 31) (left : 0 < length (drop off s)) where
  after_pread-wide :
      (again : ℕ → Text → Plan → ReadPart) (tr : ℕ) (buf : Text) (r : Option Text × Plan)
      → IsRead n r
      → tr < n
      → ((total : ℕ) (next : Text) (plan : Plan)
          → tr < total
          → total < n
          → again total next plan ≡ read_failed)
      → after_pread again n tr buf r ≡ read_failed
  after_pread-wide again tr buf _ (failing plan) lt later = refl
  after_pread-wide again tr buf _ (giving c bytes plan le) lt later =
      let total = tr + suc (length bytes) in
      let next = overlay (c ∷ bytes) buf in
      elim (Bool-cases (ltb total n)) [
        | inl more ↦ rw more (later total next plan (omega arith) (ground (arith, more)))
        | inr end ↦ rw end (fd_read_end-wide total next (ground (arith, end, wide)) (omega arith))
      ]

  fd_read-wide :
      (fuel tr : ℕ) (buf : Text) (plan : Plan)
      → tr < n
      → n ≤ tr + fuel
      → fd_read fuel n off s tr buf plan ≡ read_failed
  unfolding fd_read
  fd_read-wide zero tr buf plan lt enough = absurd (omega arith)
  fd_read-wide (suc fuel) tr buf plan lt enough =
      after_pread-wide (λ total next p. fd_read fuel n off s total next p) tr buf
        (pread_by n off s plan) (pread_by-IsRead n off s plan (omega arith) left) lt
        λ total next p more less. fd_read-wide fuel total next p less (omega arith)

do_part-wide :
    (s : Text) (calls : Calls) (job : Job) (f : File)
    → job.len ≡ 2 ^ 31
    → Inside s job
    → (do_part s calls job f).1 ≡ f
unfolding do_part
do_part-wide s calls job f wide le = by_buffer calls.buffer
  where
    by_buffer : (b : Option Text) → (copy_part job s calls.reads calls.writes b f).1 ≡ f
    by_buffer none = refl
    by_buffer (some buf) =
        ap (λ r. (part_read job calls.writes r f).1)
          (fd_read-wide job.len job.start_offset s wide
            (omega (arith, wide, length-drop job.start_offset s)) (suc job.len) 0 buf calls.reads
            (omega (arith, wide)) (omega arith))

module _ (n : ℕ) (s : Text) (least : 0 < n) (wide : length s / n ≡ 2 ^ 31)
    (even : length s % n ≡ 0) where
  Drawn-len : (job : Job) → Drawn n (length s) job → job.len ≡ 2 ^ 31
  unfolding Drawn worker part
  Drawn-len job (i, lt, inl e) = ap (λ (k : Job). k.len) e ∙ wide
  Drawn-len job (i, lt, inr m) =
      let (b, e) =
        only-Member (has_rem (part n (length s) i)) job (rem_job (part n (length s) i)) m in
      absurd (ground (arith, b, even))

  run_jobs-wide :
      (calls : Job → Calls) (order : List Job) (f : File)
      → All (Drawn n (length s)) order
      → run_jobs s calls order f ≡ f
  unfolding run_jobs
  run_jobs-wide calls [] f drawn = refl
  run_jobs-wide calls (job ∷ order) f drawn =
      ap (λ g. run_jobs s calls order g)
        (do_part-wide s (calls job) job f (Drawn-len job drawn.0)
          (Drawn-Inside n s least job drawn.0))
      ∙ run_jobs-wide calls order f drawn.1

quotient : (n m q : ℕ) → 2 ≤ n → n ≤ 5 → m ≡ n * q → (m / n ≡ q) × (m % n ≡ 0)
quotient zero m q two five e = absurd (omega arith)
quotient (suc zero) m q two five e = absurd (omega arith)
quotient (suc (suc zero)) m q two five e = (omega arith, omega arith)
quotient (suc (suc (suc zero))) m q two five e = (omega arith, omega arith)
quotient (suc (suc (suc (suc zero)))) m q two five e = (omega arith, omega arith)
quotient (suc (suc (suc (suc (suc zero))))) m q two five e = (omega arith, omega arith)
quotient (suc (suc (suc (suc (suc (suc n)))))) m q two five e = absurd (omega arith)

-- For 2 to 5 threads and a source of 2^31 characters for each thread, if the calls made are those of the
-- threads, in any number and order: whatever `malloc`, `read` and `write` do, mt_copy leaves the
-- destination as it was, and ends with success.
pub wide_parts_lost :
    (argc n : ℕ) (s : Text) (calls : Job → Calls) (order : ℕ → List Job) (old : File)
    → 4 ≤ argc
    → 2 ≤ n
    → n ≤ 5
    → length s ≡ n * 2 ^ 31
    → All (Drawn n (length s)) (order n)
    → mt_copy_main argc (pos n) true true true s calls order old ≡ (exit_success, old)
unfolding mt_copy_main
wide_parts_lost argc n s calls order old args two five size drawn =
    let enough : ltb argc 4 ≡ false = ground arith in
    let accepted : (leb 2 n && leb n 5) ≡ true = ground arith in
    let (wide, even) = quotient n (length s) (2 ^ 31) two five size in
    rw (enough, accepted)
      (ap (λ f. (exit_success, f))
        (run_jobs-wide n s (omega arith) wide even calls (order n) old drawn))
