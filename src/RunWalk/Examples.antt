-- ===== src/RunWalk/Examples.antt =====
-- A run of the timer, and two arguments in full.
use sp327_butt_k.Base.{ℕ, ◌≡◌, refl, true, none, some, List, [], ◌∷◌, ◌==◌, if◌then◌else◌, pos}
use sp327_butt_k.Text.{Text, codes, digits_value}
use sp327_butt_k.RunWalk.{
  Reader, Settings, Signal, expiry, round, interrupt, arguments, main, both_positive,
}
use sp327_butt_k.RunWalk.Periods.{Ends, alternate, expiries, all_work, all_ok, main-alternate}

-- Decimal digits only, and -5 as `strtoul` gives it.
abbrev unsigned : Text → ℕ × ℕ
unsigned [] = (0, 0)
unsigned (c ∷ s) = if c == 45 then (18446744073709551611, 0) else (digits_value 0 (c ∷ s), 0)

abbrev reader : Reader
reader = record { atoi = λ s. pos (digits_value 0 s); strtoul = unsigned }

abbrev argv : List Text
argv = codes "runwalk_timer" ∷ codes "90" ∷ codes "30" ∷ []

abbrev settings : Settings
settings = record { verbose = 1; trun = pos 90; twalk = pos 30 }

abbrev signals : List Signal
signals = round true ∷ expiry true ∷ round true ∷ expiry true ∷ []

main-alternate_example :
    Ends
      (main all_ok reader argv
        (round true ∷ expiry true ∷ round true ∷ expiry true ∷ interrupt ∷ []))
      (pos 90 ∷ pos 30 ∷ pos 90 ∷ [])
    × (both_positive (pos 90) (pos 30) ≡ true)
unfolding alternate expiries all_work arguments digits_value
main-alternate_example = main-alternate reader argv settings signals [] refl refl

negative_rejected : arguments reader (codes "runwalk_timer" ∷ codes "-5" ∷ codes "30" ∷ []) ≡ none
unfolding arguments digits_value
negative_rejected = refl

large_accepted :
    arguments reader (codes "runwalk_timer" ∷ codes "4294967297" ∷ codes "30" ∷ [])
    ≡ some (record { verbose = 1; trun = pos 1; twalk = pos 30 })
unfolding arguments digits_value
large_accepted = refl
