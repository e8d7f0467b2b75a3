-- ===== src/SharedMutex.antt =====
-- booksrc/ch15/pshared_mutex_demo.c: a thread and a child process that write messages into one shared
-- buffer. What the calls of `main` return, and what `snprintf` puts for `%d`, are parameters; the mutex,
-- `wait` and `pthread_join` work. Messages are left out, but not the display of the buffer.
pub mod Layout
pub mod Display
mod Examples
use sp327_butt_k.Base.{
  ℕ, zero, suc, ◌+◌, ◌-◌, ◌*◌, Bool, true, false, ◌&&◌, ◌||◌, Option, none, some, List, [], ◌∷◌,
  ◌++◌, leb, ltb, length, if◌then◌else◌,
}
use sp327_butt_k.Text.{Text, codes, char_at}

abbrev pub gbufsize : ℕ
gbufsize = 128

-- The shared buffer.
abbrev pub Buffer : Type 0
Buffer = ℕ → ℕ

-- `count` bytes from an offset of the buffer on.
pub record Write : Type 0 where
  pub offset : ℕ
  pub count : ℕ
  pub byte : ℕ → ℕ

abbrev pub covers : Write → ℕ → Bool
covers w p = leb w.offset p && ltb p (w.offset + w.count)

-- The byte at `p` after a write.
abbrev pub written : Write → (p old : ℕ) → ℕ
written w p old = if covers w p then w.byte (p - w.offset) else old

abbrev pub memset : (offset value n : ℕ) → Write
memset offset value n = record { offset = offset; count = n; byte = λ _. value }

-- At most `n` bytes with the NUL.
abbrev pub snprintf : (offset n : ℕ) → Text → Write
snprintf offset n s =
    if ltb (length s) n
    then record { offset = offset; count = length s + 1; byte = char_at s }
    else record { offset = offset; count = n; byte = λ i. if ltb (i + 1) n then char_at s i else 0 }

abbrev pub child_message : (digits : Text) → Text
child_message digits = codes "child " ++ digits ++ codes " here!\n"

abbrev pub thread_message : (digits : Text) → Text
thread_message digits = codes "thread " ++ digits ++ codes " here!\n"

-- The critical section of `worker`, in the parent.
unfoldable pub worker : (digits : Text) → List Write
worker digits = memset 25 116 5 ∷ snprintf 31 32 (thread_message digits) ∷ []

-- The critical section of the child.
unfoldable pub child : (digits : Text) → List Write
child digits = memset 0 99 5 ∷ snprintf 6 32 (child_message digits) ∷ []

abbrev pub write_all : List Write → (p old : ℕ) → ℕ
write_all [] p old = old
write_all (w ∷ ws) p old = write_all ws p (written w p old)

-- The byte at `p` after all writes, in an order given by turns: true for the first list. When the turns
-- end, the first list is written out before the second.
unfoldable pub interleave : (turns : List Bool) → List Write → List Write → (p old : ℕ) → ℕ
interleave [] cs ws p old = write_all ws p (write_all cs p old)
interleave (true ∷ turns) [] ws p old = interleave turns [] ws p old
interleave (true ∷ turns) (c ∷ cs) ws p old = interleave turns cs ws p (written c p old)
interleave (false ∷ turns) cs [] p old = interleave turns cs [] p old
interleave (false ∷ turns) cs (w ∷ ws) p old = interleave turns cs ws p (written w p old)

-- `isprint` in the C locale.
abbrev pub is_print : ℕ → Bool
is_print c = leb 32 c && ltb c 127

-- A line of the display: its first index, the bytes, and their characters.
pub record Line : Type 0 where
  pub start : ℕ
  pub bytes : List ℕ
  pub ascii : Text

abbrev pub bytes_from : Buffer → (start numbytes : ℕ) → List ℕ
bytes_from buf start zero = []
bytes_from buf start (suc n) = buf start ∷ bytes_from buf (start + 1) n

abbrev pub shown_chars : List ℕ → Text
shown_chars [] = []
shown_chars (b ∷ bytes) = (if is_print b then b else 46) ∷ shown_chars bytes

unfoldable pub print_line : Buffer → (start numbytes : ℕ) → Line
print_line buf start numbytes = record {
  start = start;
  bytes = bytes_from buf start numbytes;
  ascii = shown_chars (bytes_from buf start numbytes);
}

-- The `for` of `showbuf`, with `rounds` rounds left.
unfoldable pub show_loop : (rounds i : ℕ) → Buffer → List Line
show_loop zero i buf = []
show_loop (suc rounds) i buf = print_line buf (i * 16) 16 ∷ show_loop rounds (i + 1) buf

unfoldable pub showbuf : Buffer → List Line
showbuf buf = show_loop 8 0 buf

-- The calls for one segment.
pub record Segment : Type 0 where
  pub created : Bool
  pub accessed : Bool
  pub attached : Bool

-- `shmem_setup`: a second `shmget` if the first fails, then `shmat`.
abbrev pub shmem_setup : Segment → Bool
shmem_setup s = (s.created || s.accessed) && s.attached

-- `init_mutex`
pub record Mutex : Type 0 where
  pub attr_init : Bool
  pub attr_setpshared : Bool
  pub mutex_init : Bool

abbrev pub init_mutex : Mutex → Bool
init_mutex m = m.attr_init && (m.attr_setpshared && m.mutex_init)

pub record Os : Type 0 where
  pub lock_segment : Segment
  pub buffer_segment : Segment
  pub mutex : Mutex
  pub attr_init : Bool
  pub thread_created : Bool
  pub forked : Bool
  pub child_once : Bool
  pub lock_deleted : Bool
  pub buffer_deleted : Bool

pub data Outcome : Type 0 where
  fatal : Outcome
  showed : List Line → (deleted : Bool) → Outcome

abbrev pub all_set_up : Os → Bool
all_set_up os =
    shmem_setup os.lock_segment
    && (shmem_setup os.buffer_segment
        && (init_mutex os.mutex && (os.attr_init && (os.thread_created && os.forked))))

-- `main`, with the digits of the two process numbers. The child ends without its writes if its
-- `pthread_once` fails.
unfoldable pub main : Os → (parent_pid child_pid : Text) → (turns : List Bool) → Outcome
main os parent_pid child_pid turns =
    if all_set_up os
    then showed
        (showbuf λ p.
          interleave turns (if os.child_once then child child_pid else []) (worker parent_pid) p 0)
        (os.lock_deleted && os.buffer_deleted)
    else fatal
