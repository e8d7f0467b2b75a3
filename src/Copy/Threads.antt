-- ===== src/Copy/Threads.antt =====
-- booksrc/solutions_to_assgn/ch18/mt_copy.c: a file copied by several threads, each its own part. A call
-- of `__do_mt_copy` is one step; the threads' steps happen in any order. The source does not change, and
-- the threads are created without failure.
pub mod Segments
pub mod Partition
pub mod Wide
use sp327_butt_k.Base.{
  ℕ, zero, suc, ◌+◌, ◌-◌, ◌*◌, ◌/◌, ◌%◌, Bool, true, false, not, ◌&&◌, ◌||◌, Option, none, some,
  List, [], ◌∷◌, ◌++◌, ◌==◌, leb, ltb, length, get_elem?, if◌then◌else◌, ℤ, pos, negsuc, to_int,
  int_result,
}
use sp327_butt_k.Text.{Text, take, drop}
use sp327_butt_k.Text.Slices.{least}
use sp327_butt_k.Copy.{
  Plan, overlay, Status, copied, malloc_error, read_error, write_error, undefined, out_of_fuel,
  Exit, exit_failure, exit_success,
}

-- The character at each offset of a file; `none` behind its end.
abbrev pub File : Type 0
File = ℕ → Option ℕ

abbrev pub pread_by : (n off : ℕ) → Text → Plan → Option Text × Plan
pread_by n off source [] = (some (take n (drop off source)), [])
pread_by n off source (none ∷ plan) = (none, plan)
pread_by n off source (some k ∷ plan) = (some (take (least n (suc k)) (drop off source)), plan)

-- A gap before the offset of a write is filled with NULs.
abbrev pub fill_gap : Option ℕ → Option ℕ
fill_gap none = some 0
fill_gap (some c) = some c

abbrev pub put : Text → (off : ℕ) → File → File
put [] off f p = f p
put (c ∷ bytes) off f p =
    if ltb p off
    then fill_gap (f p)
    else if ltb (p - off) (length (c ∷ bytes))
    then get_elem? (c ∷ bytes) (p - off)
    else f p

abbrev pub pwrite_by : Text → (off : ℕ) → File → Plan → Option ℕ × (File × Plan)
pwrite_by bytes off f [] = (some (length bytes), (put bytes off f, []))
pwrite_by bytes off f (none ∷ plan) = (none, (f, plan))
pwrite_by bytes off f (some k ∷ plan) =
    let part = take (suc k) bytes in (some (length part), (put part off f, plan))

pub data ReadPart : Type 0 where
  filled : (total : ℕ) → (buf : Text) → ReadPart
  read_failed : ReadPart
  unfinished : ReadPart

-- `return tr;` as an `int`: `__do_mt_copy` takes a negative one for a failure.
unfoldable pub fd_read_end : (tr : ℕ) → (buf : Text) → ReadPart
fd_read_end tr buf = int_result (to_int (pos tr)) (λ n. filled n buf) read_failed

abbrev pub after_pread :
    (ℕ → Text → Plan → ReadPart) → (n tr : ℕ) → Text → Option Text × Plan → ReadPart
after_pread again n tr buf (none, plan) = read_failed
after_pread again n tr buf (some [], plan) = fd_read_end tr buf
after_pread again n tr buf (some (c ∷ bytes), plan) =
    let total = tr + length (c ∷ bytes) in
    let next = overlay (c ∷ bytes) buf in
    if ltb total n then again total next plan else fd_read_end total next

-- `fd_read`: every round reads at the same offset.
unfoldable pub fd_read : (fuel n off : ℕ) → Text → (tr : ℕ) → Text → Plan → ReadPart
fd_read zero n off source tr buf plan = unfinished
fd_read (suc fuel) n off source tr buf plan =
    after_pread (λ total next p. fd_read fuel n off source total next p) n tr buf
      (pread_by n off source plan)

-- `return tw;` as an `int`.
unfoldable pub fd_write_end : (tw : ℕ) → File → Status × File
fd_write_end tw f = int_result (to_int (pos tw)) (λ _. (copied, f)) (write_error, f)

abbrev pub after_pwrite :
    (ℕ → File → Plan → Status × File) → (n tw : ℕ) → Option ℕ × (File × Plan) → Status × File
after_pwrite again n tw (none, (f, plan)) = (write_error, f)
after_pwrite again n tw (some k, (f, plan)) =
    if ltb (tw + k) n then again (tw + k) f plan else fd_write_end (tw + k) f

-- `fd_write`; `undefined`: more characters than the buffer has.
unfoldable pub fd_write : (fuel n off tw : ℕ) → Text → File → Plan → Status × File
fd_write zero n off tw buf f plan = (out_of_fuel, f)
fd_write (suc fuel) n off tw buf f plan =
    if ltb (length buf) n
    then (undefined, f)
    else after_pwrite (λ total g p. fd_write fuel n off total buf g p) n tw
        (pwrite_by (take n buf) off f plan)

-- One call of `__do_mt_copy`, with what its system calls do: the buffer that `malloc` gives, and how
-- the reads and writes go.
pub record Job : Type 0 where
  pub start_offset : ℕ
  pub len : ℕ

pub record Calls : Type 0 where
  pub buffer : Option Text
  pub reads : Plan
  pub writes : Plan

abbrev pub part_read : Job → Plan → ReadPart → File → Status × File
part_read job writes read_failed f = (read_error, f)
part_read job writes unfinished f = (out_of_fuel, f)
part_read job writes (filled total buf) f =
    if total == 0 then (copied, f) else fd_write (suc total) total job.start_offset 0 buf f writes

abbrev pub copy_part : Job → Text → Plan → Plan → Option Text → File → Status × File
copy_part job source reads writes none f = (malloc_error, f)
copy_part job source reads writes (some buf) f =
    part_read job writes (fd_read (suc job.len) job.len job.start_offset source 0 buf reads) f

unfoldable pub do_part : Text → Calls → Job → File → Status × File
do_part source calls job f = copy_part job source calls.reads calls.writes calls.buffer f

-- What `do_mt_copy` hands to thread `i`.
pub record Part : Type 0 where
  pub thrdnum : ℕ
  pub thrdtotal : ℕ
  pub start_offset : ℕ
  pub len : ℕ
  pub rem : ℕ

unfoldable pub part : (numthrds fsize i : ℕ) → Part
part numthrds fsize i = record {
  thrdnum = i;
  thrdtotal = numthrds;
  start_offset = i * (fsize / numthrds);
  len = fsize / numthrds;
  rem = fsize % numthrds;
}

abbrev pub main_job : Part → Job
main_job p = record { start_offset = p.start_offset; len = p.len }

abbrev pub rem_job : Part → Job
rem_job p = record { start_offset = p.start_offset + p.len; len = p.rem }

abbrev pub has_rem : Part → Bool
has_rem p = not (p.rem == 0) && (p.thrdnum == p.thrdtotal - 1)

-- The calls of `worker`.
unfoldable pub worker : Part → List Job
worker p = main_job p ∷ (if has_rem p then rem_job p ∷ [] else [])

-- The calls of all threads, in the order in which they happen; `worker` does not look at their results.
unfoldable pub run_jobs : Text → (Job → Calls) → List Job → File → File
run_jobs source calls [] f = f
run_jobs source calls (job ∷ jobs) f =
    run_jobs source calls jobs (do_part source (calls job) job f).1

abbrev pub threads_of : ℤ → Option ℕ
threads_of (pos n) = if leb 2 n && leb n 5 then some n else none
threads_of (negsuc n) = none

abbrev pub exit_after : (opened : Bool) → Option ℕ → (ℕ → File) → File → Exit × File
exit_after opened none run f = (exit_failure, f)
exit_after opened (some n) run f = if opened then (exit_success, run n) else (exit_failure, f)

-- `main`, with the number that `atoi` gives and the order of the calls for each number of threads.
-- `do_mt_copy` returns 0 whatever the threads did.
unfoldable pub mt_copy_main :
    (argc : ℕ)
    → ℤ
    → (source_opened mode_known dest_opened : Bool) → Text
    → (Job → Calls)
    → (ℕ → List Job)
    → File
    → Exit × File
mt_copy_main argc numthrds source_opened mode_known dest_opened source calls order f =
    if ltb argc 4
    then (exit_failure, f)
    else exit_after (source_opened && (mode_known && dest_opened)) (threads_of numthrds)
        (λ n. run_jobs source calls (order n) f) f
