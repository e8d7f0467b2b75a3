-- ===== src/React/Examples.antt =====
-- Games with a period of 100 ms.
use sp327_butt_k.Base.{ℕ, ◌≡◌, ◌≤◌, refl, true, some, none, List, [], ◌∷◌, arith, pos, ℤ}
use sp327_butt_k.Text.{Text, codes, digits_value}
use sp327_butt_k.React.{
  Time, timerspecsub, Event, alarm, reaction, Signal, sigalrm, sigrtmin, sigint, main,
}
use sp327_butt_k.React.Times.{IsNormal, IsDifference, timerspecsub-IsDifference, all_ok, Paced}
use sp327_butt_k.React.Verdicts.{Ends, last_start, expiries, quiet, verdict, main-Paced, main-Ends}

abbrev start : Time
start = record { tv_sec = 1000; tv_nsec = 900000000 }

abbrev pressed : Time
pressed = record { tv_sec = 1001; tv_nsec = 150000000 }

timerspecsub-IsDifference_example : IsDifference (timerspecsub pressed start) pressed start
unfolding IsNormal
timerspecsub-IsDifference_example =
    timerspecsub-IsDifference pressed start (omega arith) (omega arith)

-- Decimal digits only.
abbrev atoll : Text → ℤ
atoll s = pos (digits_value 0 s)

abbrev before : List Signal
before = sigalrm true (some start) ∷ sigrtmin ∷ sigrtmin ∷ []

main-Ends_example :
    Ends
      (main all_ok atoll 7
        (codes "react" ∷ codes "100" ∷ [])
        (sigalrm true (some start) ∷ sigrtmin ∷ sigrtmin ∷ sigint (some pressed) ∷ sigrtmin ∷ []))
      (some start)
      2
      pressed
unfolding quiet expiries last_start digits_value
main-Ends_example =
    main-Ends atoll 7 100 (codes "react") (codes "100") [] before (sigrtmin ∷ []) pressed refl
      (omega arith) (omega arith) refl (omega arith)

reaction_example : verdict (some start) 2 pressed ≡ reaction (pos 0, pos 250000000) 2
unfolding timerspecsub
reaction_example = refl

main-Paced_example :
    (seconds : ℕ) × (events : List Event) × ((main all_ok atoll 7
        (codes "react" ∷ codes "100" ∷ [])
        (sigalrm true none ∷ [])).events
      ≡ alarm 0 ∷ alarm seconds ∷ events)
    × (1 ≤ seconds)
    × (seconds ≤ 5)
    × Paced 100 events
unfolding digits_value
main-Paced_example =
    main-Paced atoll 7 100 (codes "react") (codes "100") [] (sigalrm true none ∷ []) refl
      (omega arith) (omega arith)
