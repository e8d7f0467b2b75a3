-- ===== src/Copy/Examples.antt =====
-- Copies of short texts, and the theorems at them.
use sp327_butt_k.Base.{
  ℕ, zero, suc, ◌≡◌, ◌≤◌, ◌<◌, refl, ap, true, some, [], ◌∷◌, List, arith, length, get_elem?, pos,
  All, inl, inr, ◌*◌, ◌^◌,
}
use sp327_butt_k.Text.{Text, codes}
use sp327_butt_k.Copy.{
  Sink, push, exit_success, copied, fd_read, fd_read_end, fd_write, fd_write_end, copy_loop,
  sys_read, sys_write, simpcp2_main,
}
use sp327_butt_k.Copy.Whole.{opened, contents, simpcp2_copies}
use sp327_butt_k.Copy.Threads
use sp327_butt_k.Copy.Threads.{File, Job, mt_copy_main, worker, part}
use sp327_butt_k.Copy.Threads.Segments.{Whole, Member}
use sp327_butt_k.Copy.Threads.Partition.{Drawn, mt_copy_copies}
use sp327_butt_k.Copy.Threads.Wide.{wide_parts_lost}

abbrev block : Text
block = codes "...."

abbrev hello : Text
hello = codes "hello world"

-- A file that is longer keeps its end.
abbrev longer : Sink
longer = opened (codes "something longer")

copy_run :
    copy_loop 12 4 block (record { rest = hello; plan = [] }) longer ≡ (copied, push hello longer)
unfolding copy_loop fd_read fd_read_end fd_write fd_write_end sys_read sys_write
copy_run = refl

contents_run : contents (push hello longer) ≡ codes "hello worldonger"
contents_run = refl

simpcp2_copies_example :
    simpcp2_main 12 3
      (record {
        source_opened = true;
        mode_known = true;
        dest_opened = true;
        block_size = some 4;
        buffer = some block;
      })
      (record { rest = hello; plan = [] })
      (opened (codes "something longer"))
    ≡ (exit_success, push hello longer)
simpcp2_copies_example =
    simpcp2_copies 12 3 3 block hello (codes "something longer") (omega arith) refl (omega arith)
      (omega arith)

zeros : ℕ → Text
zeros zero = []
zeros (suc n) = 0 ∷ zeros n

length-zeros : (n : ℕ) → length (zeros n) ≡ n
unfolding zeros
length-zeros zero = refl
length-zeros (suc n) = ap suc (length-zeros n)

abbrev whole_calls : Job → Threads.Calls
whole_calls job = record { buffer = some (zeros job.len); reads = []; writes = [] }

whole_calls-Whole : (job : Job) → Whole (whole_calls job) job
whole_calls-Whole job = record {
  buf = zeros job.len;
  buffer = refl;
  size = length-zeros job.len;
  reads = refl;
  writes = refl;
}

abbrev job : ℕ → ℕ → Job
job off len = record { start_offset = off; len = len }

-- The second of two threads finishes before the first one starts.
abbrev reversed : ℕ → List Job
reversed n = job 2 2 ∷ job 4 1 ∷ job 0 2 ∷ []

abbrev old_file : File
old_file = get_elem? hello

mt_copy_copies_example :
    (f : File) × (mt_copy_main 4
        (pos 2)
        true
        true
        true
        (codes "abcde")
        whole_calls
        reversed
        old_file
      ≡ (exit_success, f))
    × ((p : ℕ) → p < 5 → f p ≡ get_elem? (codes "abcde") p)
    × ((p : ℕ) → 5 ≤ p → f p ≡ old_file p)
unfolding Drawn worker part
mt_copy_copies_example =
    mt_copy_copies 4 2 (codes "abcde") whole_calls reversed old_file (omega arith) (omega arith)
      (omega arith) (omega arith) whole_calls-Whole drawn every
  where
    drawn : All (Drawn 2 5) (reversed 2)
    drawn = (
      (1, omega arith, inl refl),
      ((1, omega arith, inr (inl refl)), ((0, omega arith, inl refl), tt)),
    )

    every : (i : ℕ) → i < 2 → All (λ j. Member j (reversed 2)) (worker (part 2 5 i))
    every zero lt = (inr (inr (inl refl)), tt)
    every (suc zero) lt = (inl refl, (inr (inl refl), tt))
    every (suc (suc i)) lt = absurd (omega arith)

-- Two threads, a file of 2^32 characters, and calls that all succeed.
abbrev wide_file : Text
wide_file = zeros (2 * 2 ^ 31)

abbrev halves : ℕ → List Job
halves n = job 0 (2 ^ 31) ∷ job (2 ^ 31) (2 ^ 31) ∷ []

halves-Drawn : All (Drawn 2 (length wide_file)) (halves 2)
unfolding Drawn worker part
halves-Drawn =
    rw (length-zeros (2 * 2 ^ 31)) ((0, omega arith, inl refl), ((1, omega arith, inl refl), tt))

wide_parts_lost_example :
    mt_copy_main 4 (pos 2) true true true wide_file whole_calls halves old_file
    ≡ (exit_success, old_file)
wide_parts_lost_example =
    wide_parts_lost 4 2 wide_file whole_calls halves old_file (omega arith) (omega arith)
      (omega arith) (length-zeros (2 * 2 ^ 31)) halves-Drawn
