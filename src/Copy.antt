-- ===== src/Copy.antt =====
-- booksrc/A_fileio/simpcp2.c: a file copied block by block. Each call of `read` and `write` moves what
-- the caller's plan says: `none` fails, `some k` moves at most `k + 1` characters, and after the plan's
-- end every call moves all it can. A write is one within the buffer, or undefined.
pub mod Whole
pub mod Threads
mod Examples
use sp327_butt_k.Base.{
  ℕ, zero, suc, ◌+◌, ◌-◌, Bool, true, false, not, ◌&&◌, ◌||◌, Option, none, some, List, [], ◌∷◌,
  ◌++◌, ◌==◌, leb, ltb, length, if◌then◌else◌, ℤ, pos, negsuc, to_int, int_result,
}
use sp327_butt_k.Text.Slices.{least}
use sp327_butt_k.Text.{Text, take, drop}

abbrev pub Plan : Type 0
Plan = List (Option ℕ)

-- The source file behind its file offset.
pub record Source : Type 0 where
  pub rest : Text
  pub plan : Plan

-- The destination before and behind its file offset.
pub record Sink : Type 0 where
  pub written : Text
  pub behind : Text
  pub plan : Plan

abbrev pub read_by : ℕ → Text → Plan → Option Text × Source
read_by n s [] = (some (take n s), record { rest = drop n s; plan = [] })
read_by n s (none ∷ plan) = (none, record { rest = s; plan = plan })
read_by n s (some k ∷ plan) =
    (some (take (least n (suc k)) s), record { rest = drop (least n (suc k)) s; plan = plan })

-- `read(fd, dbuf, n)`: the characters that it puts at the start of the buffer.
unfoldable pub sys_read : ℕ → Source → Option Text × Source
sys_read n s = read_by n s.rest s.plan

-- Characters written at the file offset.
abbrev pub push : Text → Sink → Sink
push bytes s = record s { written = s.written ++ bytes; behind = drop (length bytes) s.behind }

abbrev pub write_by : Text → Sink → Plan → Option ℕ × Sink
write_by bytes s [] = (some (length bytes), push bytes s)
write_by bytes s (none ∷ plan) = (none, record s { plan = plan })
write_by bytes s (some k ∷ plan) =
    let part = take (suc k) bytes in (some (length part), push part (record s { plan = plan }))

unfoldable pub sys_write : Text → Sink → Option ℕ × Sink
sys_write bytes s = write_by bytes s s.plan

-- The buffer after characters were put at its start.
abbrev pub overlay : Text → Text → Text
overlay bytes buf = bytes ++ drop (length bytes) buf

pub record Filled : Type 0 where
  pub total : ℕ
  pub buf : Text
  pub source : Source

pub data ReadResult : Type 0 where
  filled : Filled → ReadResult
  read_failed : ReadResult
  unfinished : ReadResult

-- `return tr;` as an `int`: `docopy` takes a negative one for a failure.
unfoldable pub fd_read_end : (tr : ℕ) → Text → Source → ReadResult
fd_read_end tr buf s =
    int_result (to_int (pos tr)) (λ n. filled (record { total = n; buf = buf; source = s }))
      read_failed

-- What `fd_read` does with the result of `read`.
abbrev pub after_read :
    (ℕ → Text → Source → ReadResult) → (n tr : ℕ) → Text → Option Text × Source → ReadResult
after_read again n tr buf (none, s) = read_failed
after_read again n tr buf (some [], s) = fd_read_end tr buf s
after_read again n tr buf (some (c ∷ bytes), s) =
    let total = tr + length (c ∷ bytes) in
    let next = overlay (c ∷ bytes) buf in
    if ltb total n then again total next s else fd_read_end total next s

-- The `do`-`while` of `fd_read`, `tr` characters read so far.
unfoldable pub fd_read : (fuel n tr : ℕ) → Text → Source → ReadResult
fd_read zero n tr buf s = unfinished
fd_read (suc fuel) n tr buf s =
    after_read (λ total next t. fd_read fuel n total next t) n tr buf (sys_read n s)

pub data WriteResult : Type 0 where
  wrote : (total : ℕ) → Sink → WriteResult
  write_failed : Sink → WriteResult
  overread : Sink → WriteResult
  unfinished : Sink → WriteResult

-- `return tw;` as an `int`.
unfoldable pub fd_write_end : (tw : ℕ) → Sink → WriteResult
fd_write_end tw s = int_result (to_int (pos tw)) (λ n. wrote n s) (write_failed s)

abbrev pub after_write : (ℕ → Sink → WriteResult) → (n tw : ℕ) → Option ℕ × Sink → WriteResult
after_write again n tw (none, s) = write_failed s
after_write again n tw (some k, s) =
    if ltb (tw + k) n then again (tw + k) s else fd_write_end (tw + k) s

-- The `do`-`while` of `fd_write`; with more characters than the buffer has, it reads behind it.
unfoldable pub fd_write : (fuel n tw : ℕ) → Text → Sink → WriteResult
fd_write zero n tw buf s = unfinished s
fd_write (suc fuel) n tw buf s =
    if ltb (length buf) n
    then overread s
    else after_write (λ total t. fd_write fuel n total buf t) n tw (sys_write (take n buf) s)

-- How `docopy` ends; `undefined` is a read behind the buffer.
pub data Status : Type 0 where
  copied : Status
  stat_error : Status
  malloc_error : Status
  read_error : Status
  write_error : Status
  undefined : Status
  out_of_fuel : Status

abbrev pub block_written : (Sink → Status × Sink) → WriteResult → Status × Sink
block_written again (wrote total s) = again s
block_written again (write_failed s) = (write_error, s)
block_written again (overread s) = (undefined, s)
block_written again (WriteResult.unfinished s) = (out_of_fuel, s)

abbrev pub block_read : (Filled → Sink → Status × Sink) → Sink → ReadResult → Status × Sink
block_read again sink read_failed = (read_error, sink)
block_read again sink ReadResult.unfinished = (out_of_fuel, sink)
block_read again sink (filled f) =
    if f.total == 0
    then (copied, sink)
    else block_written (λ s. again f s) (fd_write (suc f.total) f.total 0 f.buf sink)

-- The `while (1)` of `docopy`, for at most `blocks` blocks of `n` characters.
unfoldable pub copy_loop : (blocks n : ℕ) → Text → Source → Sink → Status × Sink
copy_loop zero n buf source sink = (out_of_fuel, sink)
copy_loop (suc blocks) n buf source sink =
    block_read (λ f s. copy_loop blocks n f.buf f.source s) sink (fd_read (suc n) n 0 buf source)

-- `docopy`: the buffer is what `malloc` gives, if it gives one; its size is the block size that `stat`
-- reports, if it succeeds.
unfoldable pub docopy :
    (blocks : ℕ) → (block_size : Option ℕ) → Option Text → Source → Sink → Status × Sink
docopy blocks none buffer source sink = (stat_error, sink)
docopy blocks (some n) none source sink = (malloc_error, sink)
docopy blocks (some n) (some buf) source sink = copy_loop blocks n buf source sink

pub data Exit : Type 0 where
  exit_failure : Exit
  exit_success : Exit

abbrev pub exit_of : Status → Exit
exit_of copied = exit_success
exit_of _ = exit_failure

-- What the system calls of a run give: which of `open` and `stat` succeed, the block size that `docopy`
-- gets, and its buffer.
pub record Calls : Type 0 where
  pub source_opened : Bool
  pub mode_known : Bool
  pub dest_opened : Bool
  pub block_size : Option ℕ
  pub buffer : Option Text

abbrev pub exit_with : Status × Sink → Exit × Sink
exit_with (status, sink) = (exit_of status, sink)

-- `main` of simpcp2; the sink is the destination as `open` leaves it, which does not truncate it.
unfoldable pub simpcp2_main : (blocks argc : ℕ) → Calls → Source → Sink → Exit × Sink
simpcp2_main blocks argc calls source sink =
    if ltb argc 3 || not (calls.source_opened && (calls.mode_known && calls.dest_opened))
    then (exit_failure, sink)
    else exit_with (docopy blocks calls.block_size calls.buffer source sink)

-- `docopy` of simpcp1, with one `read` and one `write` for each block.
abbrev pub simple_block : (Source → Sink → Status × Sink) → Source → Option ℕ × Sink → Status × Sink
simple_block again source (none, sink) = (write_error, sink)
simple_block again source (some k, sink) = again source sink

abbrev pub simple_read :
    (Source → Sink → Status × Sink) → Sink → Option Text × Source → Status × Sink
simple_read again sink (none, source) = (read_error, sink)
simple_read again sink (some [], source) = (copied, sink)
simple_read again sink (some (c ∷ bytes), source) =
    simple_block again source (sys_write (c ∷ bytes) sink)

unfoldable pub simple_loop : (blocks n : ℕ) → Source → Sink → Status × Sink
simple_loop zero n source sink = (out_of_fuel, sink)
simple_loop (suc blocks) n source sink =
    simple_read (λ t s. simple_loop blocks n t s) sink (sys_read n source)

unfoldable pub simple_docopy :
    (blocks : ℕ) → (block_size : Option ℕ) → (allocated : Bool) → Source → Sink → Status × Sink
simple_docopy blocks none allocated source sink = (stat_error, sink)
simple_docopy blocks (some n) false source sink = (malloc_error, sink)
simple_docopy blocks (some n) true source sink = simple_loop blocks n source sink

abbrev pub is_some : Option Text → Bool
is_some none = false
is_some (some t) = true

-- `main` of simpcp1, which does not ask for the source's mode.
unfoldable pub simpcp1_main : (blocks argc : ℕ) → Calls → Source → Sink → Exit × Sink
simpcp1_main blocks argc calls source sink =
    if ltb argc 3 || not (calls.source_opened && calls.dest_opened)
    then (exit_failure, sink)
    else exit_with (simple_docopy blocks calls.block_size (is_some calls.buffer) source sink)
