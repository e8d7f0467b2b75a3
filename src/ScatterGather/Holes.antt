-- ===== src/ScatterGather/Holes.antt =====
-- The file, whichever way it is written, and the buffers after a failed set-up.
use sp327_butt_k.Base.{
  Bool, true, false, ◌&&◌, ℕ, zero, suc, ◌<◌, ◌≡◌, refl, Option, none, some, [], ◌∷◌, ltb,
  if◌then◌else◌, ℤ, pos, negsuc, arith, ◌⊎◌, inl, inr, Bool-cases,
}
use sp327_butt_k.Text.{Text}
use sp327_butt_k.Copy.Threads.{File}
use sp327_butt_k.ScatterGather.{
  gbuf_a, gbuf_b, gbuf_c, gbuf_hole, Mallocs, setup_buffers_goto, Fd, Calls,
  wr_discontig_the_normal_way, wr_discontig_the_better_sgio_way, gbuf_c, gbuf_b, gbuf_a,
}
use sp327_butt_k.ScatterGather.Programs.{success, new_file, main}

-- The picture above the functions: A, B and C behind their holes.
unfoldable pub layout : File
layout p =
    if ltb p 10
    then some 0
    else if ltb p 30
    then some 65
    else if ltb p 130
    then some 0
    else if ltb p 160
    then some 66
    else if ltb p 180
    then some 0
    else if ltb p 222
    then some 67
    else none

-- Calls that succeed, none of them short.
abbrev pub whole : Calls
whole = record {
  seek_a = true;
  seek_b = true;
  seek_c = true;
  write_a = some 20;
  write_b = some 30;
  write_c = some 42;
  gathered = some 222;
}

-- The content of a file that a call left open.
abbrev content_at : Option Fd → ℕ → Option ℕ
content_at none p = none
content_at (some fd) p = fd.content p

normal_way-layout : (p : ℕ) → content_at (wr_discontig_the_normal_way whole new_file) p ≡ layout p
unfolding wr_discontig_the_normal_way layout
normal_way-layout p = ground arith

sgio_way-layout :
    (p : ℕ) → content_at (wr_discontig_the_better_sgio_way whole new_file) p ≡ layout p
unfolding wr_discontig_the_better_sgio_way layout
sgio_way-layout p = ground arith

-- Whether every `malloc` succeeds.
abbrev pub all_succeed : Mallocs → Bool
all_succeed m = m.a && (m.b && (m.c && m.hole))

-- `setup_buffers_goto` returns 0 exactly if all its allocations succeed, and then the four buffers are
-- allocated; otherwise it returns a negative number and has freed all that it allocated.
pub setup-frees :
    (m : Mallocs)
    → ((all_succeed m ≡ true)
        × (setup_buffers_goto m ≡ (pos 0, gbuf_hole ∷ gbuf_c ∷ gbuf_b ∷ gbuf_a ∷ [])))
      ⊎ ((all_succeed m ≡ false) × ((n : ℕ) × (setup_buffers_goto m ≡ (negsuc n, []))))
unfolding setup_buffers_goto
setup-frees m = elim (Bool-cases m.a) [
  | inl a ↦ elim (Bool-cases m.b) [
    | inl b ↦ elim (Bool-cases m.c) [
      | inl c ↦ elim (Bool-cases m.hole) [
        | inl hole ↦ rw (a, b, c, hole) (inl (refl, refl))
        | inr hole ↦ rw (a, b, c, hole) (inr (refl, (3, refl)))
      ]
      | inr c ↦ rw (a, b, c) (inr (refl, (2, refl)))
    ]
    | inr b ↦ rw (a, b) (inr (refl, (1, refl)))
  ]
  | inr a ↦ rw a (inr (refl, (0, refl)))
]

abbrev pub all_allocated : Mallocs
all_allocated = record { a = true; b = true; c = true; hole = true }

-- If no call fails and no write is short, both options leave the same file: A, B and C at their
-- places, and NULs in the holes. Of the buffers, the one for the holes stays allocated.
pub same_layout :
    (atoi : Text → ℤ) (program option : Text) (opt : ℕ)
    → atoi option ≡ pos opt
    → opt < 2
    → (content : File) × (main all_allocated true whole atoi (program ∷ option ∷ [])
        ≡ success content (gbuf_hole ∷ []))
      × ((p : ℕ) → content p ≡ layout p)
unfolding main setup_buffers_goto wr_discontig_the_normal_way wr_discontig_the_better_sgio_way
same_layout atoi program option zero reads lt = (
  (λ p. content_at (wr_discontig_the_normal_way whole new_file) p),
  rw reads refl,
  normal_way-layout,
)
same_layout atoi program option (suc zero) reads lt = (
  (λ p. content_at (wr_discontig_the_better_sgio_way whole new_file) p),
  rw reads refl,
  sgio_way-layout,
)
same_layout atoi program option (suc (suc n)) reads lt = absurd (omega (arith, lt))
