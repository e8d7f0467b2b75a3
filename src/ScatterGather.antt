-- ===== src/ScatterGather.antt =====
-- booksrc/ch18/sgio_simple.c: a file with holes, written by seeking or by one `writev`. Each buffer is
-- filled with one value, so a write from it is that value and a length. What the calls return is a
-- parameter: a count that is smaller than the length asked for is a short write.
pub mod Holes
pub mod Programs
mod Examples
use sp327_butt_k.Base.{
  ℕ, zero, suc, ◌+◌, ◌-◌, Bool, true, false, Option, none, some, List, [], ◌∷◌, ◌==◌, leb, ltb,
  if◌then◌else◌, ℤ, pos, negsuc,
}
use sp327_butt_k.Text.{Text}
use sp327_butt_k.Text.Slices.{least}
use sp327_butt_k.Copy.Threads.{File, fill_gap}

-- The macros.
abbrev pub a_hole_len : ℕ
a_hole_len = 10

abbrev pub a_start_off : ℕ
a_start_off = a_hole_len

abbrev pub a_len : ℕ
a_len = 20

abbrev pub b_hole_len : ℕ
b_hole_len = 100

abbrev pub b_start_off : ℕ
b_start_off = a_hole_len + a_len + b_hole_len

abbrev pub b_len : ℕ
b_len = 30

abbrev pub c_hole_len : ℕ
c_hole_len = 20

abbrev pub c_start_off : ℕ
c_start_off = a_hole_len + a_len + b_hole_len + b_len + c_hole_len

abbrev pub c_len : ℕ
c_len = 42

pub data Buffer : Type 0 where
  gbuf_a : Buffer
  gbuf_b : Buffer
  gbuf_c : Buffer
  gbuf_hole : Buffer

-- What `memset` stored in a buffer.
abbrev pub value_of : Buffer → ℕ
value_of gbuf_a = 65
value_of gbuf_b = 66
value_of gbuf_c = 67
value_of gbuf_hole = 0

-- Whether `malloc` succeeds for each buffer.
pub record Mallocs : Type 0 where
  pub a : Bool
  pub b : Bool
  pub c : Bool
  pub hole : Bool

-- `free`, on the allocated buffers.
abbrev pub is : Buffer → Buffer → Bool
is gbuf_a gbuf_a = true
is gbuf_b gbuf_b = true
is gbuf_c gbuf_c = true
is gbuf_hole gbuf_hole = true
is x y = false

abbrev pub free : Buffer → List Buffer → List Buffer
free x [] = []
free x (y ∷ live) = if is x y then live else y ∷ free x live

-- The labels at the end of `setup_buffers_goto`, with `ret` and the allocated buffers.
abbrev pub out : ℤ → List Buffer → ℤ × List Buffer
out ret live = (ret, live)

abbrev pub out_free_a : ℤ → List Buffer → ℤ × List Buffer
out_free_a ret live = out ret (free gbuf_a live)

abbrev pub out_free_b : ℤ → List Buffer → ℤ × List Buffer
out_free_b ret live = out_free_a ret (free gbuf_b live)

abbrev pub out_free_c : ℤ → List Buffer → ℤ × List Buffer
out_free_c ret live = out_free_b ret (free gbuf_c live)

unfoldable pub setup_buffers_goto : Mallocs → ℤ × List Buffer
setup_buffers_goto m =
    if m.a
    then (if m.b
        then (if m.c
            then (if m.hole
                then (pos 0, gbuf_hole ∷ gbuf_c ∷ gbuf_b ∷ gbuf_a ∷ [])
                else out_free_c (negsuc 3) (gbuf_c ∷ gbuf_b ∷ gbuf_a ∷ []))
            else out_free_b (negsuc 2) (gbuf_b ∷ gbuf_a ∷ []))
        else out_free_a (negsuc 1) (gbuf_a ∷ []))
    else out (negsuc 0) []

-- The open file.
pub record Fd : Type 0 where
  pub offset : ℕ
  pub content : File

-- `n` bytes of one value at an offset. A gap before it reads as NULs; no bytes leave the file alone.
abbrev pub put_block : (value n off : ℕ) → File → File
put_block v n off f p =
    if n == 0
    then f p
    else if ltb p off
    then fill_gap (f p)
    else if ltb (p - off) n
    then some v
    else f p

-- `count`: the result of the call, `none` for an error.
abbrev pub write : (count : Option ℕ) → Buffer → (n : ℕ) → Fd → Option Fd
write none b n fd = none
write (some k) b n fd = some (record {
  offset = fd.offset + least k n;
  content = put_block (value_of b) (least k n) fd.offset fd.content;
})

abbrev pub lseek : (done : Bool) → (off : ℕ) → Fd → Option Fd
lseek done off fd = if done then some (record fd { offset = off }) else none

abbrev pub then_do : (Fd → Option Fd) → Option Fd → Option Fd
then_do go none = none
then_do go (some fd) = go fd

-- What the calls on the file return.
pub record Calls : Type 0 where
  pub seek_a : Bool
  pub seek_b : Bool
  pub seek_c : Bool
  pub write_a : Option ℕ
  pub write_b : Option ℕ
  pub write_c : Option ℕ
  pub gathered : Option ℕ

-- `none`: FATAL.
unfoldable pub wr_discontig_the_normal_way : Calls → Fd → Option Fd
wr_discontig_the_normal_way io fd =
    let at_a = then_do (write io.write_a gbuf_a a_len) (lseek io.seek_a a_start_off fd) in
    let at_b =
      then_do (λ d. then_do (write io.write_b gbuf_b b_len) (lseek io.seek_b b_start_off d)) at_a in
    then_do (λ d. then_do (write io.write_c gbuf_c c_len) (lseek io.seek_c c_start_off d)) at_b

pub record Iovec : Type 0 where
  pub iov_base : Buffer
  pub iov_len : ℕ

abbrev pub iov : List Iovec
iov =
    record { iov_base = gbuf_hole; iov_len = a_hole_len }
    ∷ record { iov_base = gbuf_a; iov_len = a_len }
    ∷ record { iov_base = gbuf_hole; iov_len = b_hole_len }
    ∷ record { iov_base = gbuf_b; iov_len = b_len }
    ∷ record { iov_base = gbuf_hole; iov_len = c_hole_len }
    ∷ record { iov_base = gbuf_c; iov_len = c_len }
    ∷ []

-- `writev` when it moves `count` bytes.
abbrev pub gather : (count : ℕ) → List Iovec → Fd → Fd
gather count [] fd = fd
gather count (v ∷ vs) fd =
    let n = least count v.iov_len in
    gather (count - n) vs (record {
      offset = fd.offset + n;
      content = put_block (value_of v.iov_base) n fd.offset fd.content;
    })

abbrev pub writev : (count : Option ℕ) → List Iovec → Fd → Option Fd
writev none vs fd = none
writev (some count) vs fd = some (gather count vs fd)

-- `none`: the result -1, which `main` does not look at.
unfoldable pub wr_discontig_the_better_sgio_way : Calls → Fd → Option Fd
wr_discontig_the_better_sgio_way io fd = writev io.gathered iov fd
