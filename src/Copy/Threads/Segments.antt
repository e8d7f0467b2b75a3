-- ===== src/Copy/Threads/Segments.antt =====
-- The destination of mt_copy.c after calls for some parts of the file.
use sp327_butt_k.Base.{
  ℕ, zero, suc, ◌+◌, ◌-◌, ◌≤◌, ◌<◌, ◌≡◌, refl, sym, ap, ◌∙◌, true, false, some, List, [], ◌∷◌, ◌==◌,
  arith, ltb, length, get_elem?, All, Bool-cases, ◌⊎◌, inl, inr, ◌^◌, int_result, to_int-small,
}
use sp327_butt_k.Text.{Text, take, drop}
use sp327_butt_k.Text.Slices.{length-take, length-drop}
use sp327_butt_k.Copy.{write_error, copied, overlay, Status, Plan}
use sp327_butt_k.Copy.Whole.{length-overlay, take-overlay}
use sp327_butt_k.Copy.Threads.{
  fd_read_end, fd_write_end, read_failed, File, fill_gap, put, ReadPart, filled, after_pread,
  fd_read, fd_write, Job, Calls, part_read, copy_part, do_part, run_jobs,
}

get-take : (n q : ℕ) (s : Text) → q < n → get_elem? (take n s) q ≡ get_elem? s q
get-take zero q s lt = absurd (omega arith)
get-take (suc n) q [] lt = refl
get-take (suc n) zero (c ∷ s) lt = refl
get-take (suc n) (suc q) (c ∷ s) lt = get-take n q s (omega arith)

get-drop : (n q : ℕ) (s : Text) → get_elem? (drop n s) q ≡ get_elem? s (n + q)
get-drop zero q s = let e : q ≡ 0 + q = omega arith in ap (get_elem? s) e
get-drop (suc n) q [] = refl
get-drop (suc n) q (c ∷ s) =
    let e : suc (n + q) ≡ suc n + q = omega arith in get-drop n q s ∙ ap (get_elem? (c ∷ s)) e

get-some : (q : ℕ) (s : Text) → q < length s → (c : ℕ) × (get_elem? s q ≡ some c)
get-some q [] lt = absurd (omega arith)
get-some zero (c ∷ s) lt = (c, refl)
get-some (suc q) (c ∷ s) lt = get-some q s (omega arith)

-- The characters of a job.
abbrev segment : Text → Job → Text
segment s job = take job.len (drop job.start_offset s)

abbrev pub Inside : Text → Job → Type 0
Inside s job = job.start_offset + job.len ≤ length s

length-segment : (s : Text) (job : Job) → Inside s job → length (segment s job) ≡ job.len
length-segment s job le =
    ground (arith, length-take job.len (drop job.start_offset s), length-drop job.start_offset s)

put-in :
    (bytes : Text) (off : ℕ) (f : File) (p : ℕ)
    → off ≤ p
    → p < off + length bytes
    → put bytes off f p ≡ get_elem? bytes (p - off)
put-in [] off f p above below = absurd (omega arith)
put-in (c ∷ bytes) off f p above below =
    let behind : ltb p off ≡ false = ground arith in
    let within : ltb (p - off) (length (c ∷ bytes)) ≡ true = ground arith in rw (behind, within)

put-out :
    (bytes : Text) (off : ℕ) (f : File) (p : ℕ) → off + length bytes ≤ p → put bytes off f p ≡ f p
put-out [] off f p above = refl
put-out (c ∷ bytes) off f p above =
    let behind : ltb p off ≡ false = ground arith in
    let outside : ltb (p - off) (length (c ∷ bytes)) ≡ false = ground arith in rw (behind, outside)

put-before :
    (bytes : Text) (off : ℕ) (f : File) (p c : ℕ)
    → p < off
    → f p ≡ some c
    → put bytes off f p ≡ some c
put-before [] off f p c lt e = e
put-before (d ∷ bytes) off f p c lt e =
    let before : ltb p off ≡ true = ground arith in rw before (ap fill_gap e)

module _ (s : Text) (job : Job) (le : Inside s job) (f : File) where
  abbrev after : File
  after = put (segment s job) job.start_offset f

  put-segment :
      (p : ℕ) → job.start_offset ≤ p → p < job.start_offset + job.len → after p ≡ get_elem? s p
  put-segment p above below =
      let q = p - job.start_offset in
      let place : job.start_offset + q ≡ p = omega arith in
      put-in (segment s job) job.start_offset f p above (omega (arith, length-segment s job le))
      ∙ get-take job.len q (drop job.start_offset s) (omega arith)
      ∙ get-drop job.start_offset q s
      ∙ ap (get_elem? s) place

  -- A character that is already right stays so.
  put-keeps : (p : ℕ) → p < length s → f p ≡ get_elem? s p → after p ≡ get_elem? s p
  put-keeps p lt right = elim (Bool-cases (ltb p job.start_offset)) [
    | inl e ↦
        let (c, known) = get-some p s lt in
        put-before (segment s job) job.start_offset f p c (ground (arith, e)) (right ∙ known)
        ∙ sym known
    | inr e ↦ elim (Bool-cases (ltb p (job.start_offset + job.len))) [
      | inl d ↦ put-segment p (ground (arith, e)) (ground (arith, d))
      | inr d ↦
          put-out (segment s job) job.start_offset f p (ground (arith, d, length-segment s job le))
          ∙ right
    ]
  ]

  put-behind : (p : ℕ) → length s ≤ p → after p ≡ f p
  put-behind p ge =
      put-out (segment s job) job.start_offset f p (omega (arith, length-segment s job le))

-- Every system call of a job succeeds and moves all it can.
pub record Whole (calls : Calls) (job : Job) : Type 0 where
  pub buf : Text
  pub buffer : calls.buffer ≡ some buf
  pub size : length buf ≡ job.len
  pub reads : calls.reads ≡ []
  pub writes : calls.writes ≡ []

fd_read_end-small : (tr : ℕ) (buf : Text) → tr < 2 ^ 31 → fd_read_end tr buf ≡ filled tr buf
unfolding fd_read_end
fd_read_end-small tr buf lt =
    ap (λ z. int_result z (λ n. filled n buf) read_failed) (to_int-small tr lt)

fd_write_end-small : (tw : ℕ) (f : File) → tw < 2 ^ 31 → fd_write_end tw f ≡ (copied, f)
unfolding fd_write_end
fd_write_end-small tw f lt =
    ap (λ z. int_result {A = Status × File} z (λ _. (copied, f)) (write_error, f))
      (to_int-small tw lt)

after_pread-full :
    (again : ℕ → Text → Plan → ReadPart) (n : ℕ) (buf bytes : Text) (plan : Plan)
    → length bytes ≡ n
    → n < 2 ^ 31
    → after_pread again n 0 buf (some bytes, plan) ≡ filled n (overlay bytes buf)
after_pread-full again n buf [] plan e small =
    fd_read_end-small 0 buf (omega arith) ∙ ap (λ k. filled k buf) e
after_pread-full again n buf (c ∷ bytes) plan e small =
    let count : 0 + length (c ∷ bytes) ≡ n = omega (arith, e) in
    let end : ltb n n ≡ false = ground arith in
    rw (count, end) (fd_read_end-small n (overlay (c ∷ bytes) buf) small)

nil_of_length : (s : Text) → length s ≡ 0 → s ≡ []
nil_of_length [] e = refl
nil_of_length (c ∷ s) e = absurd (omega (arith, e))

module _ (s : Text) (job : Job) (le : Inside s job) (f : File) where
  part_read_whole :
      (buf : Text)
      → length buf ≡ job.len
      → job.len < 2 ^ 31
      → part_read job [] (filled job.len (overlay (segment s job) buf)) f
        ≡ (copied, put (segment s job) job.start_offset f)
  unfolding fd_write
  part_read_whole buf size small = elim (Bool-cases (job.len == 0)) [
    | inl e ↦
        let nothing : segment s job ≡ [] =
          nil_of_length (segment s job) (ground (arith, e, length-segment s job le)) in
        rw e (ap (λ b. (copied, put b job.start_offset f)) (sym nothing))
    | inr e ↦
        let seg = segment s job in
        let len : length seg ≡ job.len = length-segment s job le in
        let full : length (overlay seg buf) ≡ job.len =
          length-overlay seg buf (omega (arith, len, size)) ∙ size in
        let inside : ltb (length (overlay seg buf)) job.len ≡ false = ground (arith, full) in
        let whole : take job.len (overlay seg buf) ≡ seg =
          ap (λ k. take k (overlay seg buf)) (sym len) ∙ take-overlay seg buf in
        let count : 0 + length seg ≡ job.len = omega (arith, len) in
        let end : ltb job.len job.len ≡ false = ground arith in
        rw (e, inside, whole, count, end)
          (fd_write_end-small job.len (put seg job.start_offset f) small)
  ]

  do_part-Whole :
      (calls : Calls)
      → Whole calls job
      → job.len < 2 ^ 31
      → do_part s calls job f ≡ (copied, put (segment s job) job.start_offset f)
  unfolding do_part fd_read
  do_part-Whole calls w small =
      ap (λ r. copy_part job s r calls.writes calls.buffer f) w.reads
      ∙ ap (λ q. copy_part job s [] q calls.buffer f) w.writes
      ∙ ap (λ b. copy_part job s [] [] b f) w.buffer
      ∙ ap (λ r. part_read job [] r f)
          (after_pread-full
            (λ total next p. fd_read job.len job.len job.start_offset s total next p) job.len w.buf
            (segment s job) [] (length-segment s job le) small)
      ∙ part_read_whole w.buf w.size small

-- Which offsets a job covers, and a list of jobs.
abbrev pub Covers : Job → ℕ → Type 0
Covers job p = (job.start_offset ≤ p) × (p < job.start_offset + job.len)

abbrev pub Member : Job → List Job → Type 0
Member job [] = ⊥
Member job (j ∷ jobs) = (job ≡ j) ⊎ Member job jobs

module _ (s : Text) (calls : Job → Calls) (whole : (job : Job) → Whole (calls job) job)
    (short : length s < 2 ^ 31) where
  job_step :
      (job : Job) (jobs : List Job) (f : File)
      → Inside s job
      → run_jobs s calls (job ∷ jobs) f
        ≡ run_jobs s calls jobs (put (segment s job) job.start_offset f)
  unfolding run_jobs
  job_step job jobs f le =
      ap (λ (r : Status × File). run_jobs s calls jobs r.1)
        (do_part-Whole s job le f (calls job) (whole job) (omega (arith, le, short)))

  run_jobs-keeps :
      (jobs : List Job) (f : File) (p : ℕ)
      → All (Inside s) jobs
      → p < length s
      → f p ≡ get_elem? s p
      → run_jobs s calls jobs f p ≡ get_elem? s p
  unfolding run_jobs
  run_jobs-keeps [] f p inside lt right = right
  run_jobs-keeps (job ∷ jobs) f p inside lt right =
      ap (λ g. g p) (job_step job jobs f inside.0)
      ∙ run_jobs-keeps jobs (put (segment s job) job.start_offset f) p inside.1 lt
          (put-keeps s job inside.0 f p lt right)

  pub run_jobs-covered :
      (jobs : List Job) (f : File) (p : ℕ) (job : Job)
      → All (Inside s) jobs
      → p < length s
      → Member job jobs
      → Covers job p
      → run_jobs s calls jobs f p ≡ get_elem? s p
  run_jobs-covered [] f p job inside lt m covers = absurd m
  run_jobs-covered (j ∷ jobs) f p job inside lt (inl e) covers =
      ap (λ g. g p) (job_step j jobs f inside.0)
      ∙ run_jobs-keeps jobs (put (segment s j) j.start_offset f) p inside.1 lt (
          put-segment s j inside.0 f p (omega (arith, covers, ap (λ (k : Job). k.start_offset) e))
            (omega (arith, covers, ap (λ (k : Job). k.start_offset) e, ap (λ (k : Job). k.len) e)))
  run_jobs-covered (j ∷ jobs) f p job inside lt (inr m) covers =
      ap (λ g. g p) (job_step j jobs f inside.0)
      ∙ run_jobs-covered jobs (put (segment s j) j.start_offset f) p job inside.1 lt m covers

  pub run_jobs-behind :
      (jobs : List Job) (f : File) (p : ℕ)
      → All (Inside s) jobs
      → length s ≤ p
      → run_jobs s calls jobs f p ≡ f p
  unfolding run_jobs
  run_jobs-behind [] f p inside ge = refl
  run_jobs-behind (job ∷ jobs) f p inside ge =
      ap (λ g. g p) (job_step job jobs f inside.0)
      ∙ run_jobs-behind jobs (put (segment s job) job.start_offset f) p inside.1 ge
      ∙ put-behind s job inside.0 f p ge
