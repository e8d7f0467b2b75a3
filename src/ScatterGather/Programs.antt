-- ===== src/ScatterGather/Programs.antt =====
-- `main` of sgio_simple.c, with one of the two ways.
use sp327_butt_k.Base.{
  ℕ, zero, suc, Bool, Option, none, some, List, [], ◌∷◌, ltb, if◌then◌else◌, ℤ, pos, negsuc,
}
use sp327_butt_k.Text.{Text}
use sp327_butt_k.Copy.Threads.{File}
use sp327_butt_k.ScatterGather.{
  Buffer, gbuf_a, gbuf_b, gbuf_c, Mallocs, free, setup_buffers_goto, Fd, Calls,
  wr_discontig_the_normal_way, wr_discontig_the_better_sgio_way,
}

pub data Outcome : Type 0 where
  usage : Outcome
  fatal : Outcome
  -- with what is still allocated
  success : (content : File) (live : List Buffer) → Outcome

-- The file that `open` creates.
abbrev pub new_file : Fd
new_file = record { offset = 0; content = λ _. none }

abbrev pub clean_up : List Buffer → Fd → Outcome
clean_up live fd = success fd.content (free gbuf_a (free gbuf_b (free gbuf_c live)))

abbrev pub after_normal : List Buffer → Option Fd → Outcome
after_normal live none = fatal
after_normal live (some fd) = clean_up live fd

-- A failed `writev` leaves the file as it was.
abbrev pub after_sgio : List Buffer → Option Fd → Outcome
after_sgio live none = clean_up live new_file
after_sgio live (some fd) = clean_up live fd

abbrev pub write_file : (opt : ℕ) → Calls → List Buffer → Outcome
write_file zero io live = after_normal live (wr_discontig_the_normal_way io new_file)
write_file (suc n) io live = after_sgio live (wr_discontig_the_better_sgio_way io new_file)

abbrev pub after_setup : (opt : ℕ) → (opened : Bool) → Calls → ℤ × List Buffer → Outcome
after_setup opt opened io (negsuc n, live) = fatal
after_setup opt opened io (pos n, live) = if opened then write_file opt io live else fatal

abbrev pub with_option : Mallocs → (opened : Bool) → Calls → ℤ → Outcome
with_option m opened io (negsuc n) = usage
with_option m opened io (pos opt) =
    if ltb 1 opt then usage else after_setup opt opened io (setup_buffers_goto m)

unfoldable pub main :
    Mallocs → (opened : Bool) → Calls → (atoi : Text → ℤ) → (argv : List Text) → Outcome
main m opened io atoi (program ∷ option ∷ []) = with_option m opened io (atoi option)
main m opened io atoi _ = usage
