-- ===== src/Bank/Examples.antt =====
-- Schedules in full.
use sp327_butt_k.Base.{◌≡◌, refl, true, false, [], ◌∷◌, pos}
use sp327_butt_k.Bank.Locked.{locked_balance}
use sp327_butt_k.Turns.{run, step}
use sp327_butt_k.Bank.{opening, worker, perform, List, main, Bool, locking_of}

-- The second thread waits while the first one has the mutex.
abbrev taking_turns : List Bool
taking_turns =
    true ∷ false ∷ true ∷ true ∷ true ∷ false ∷ true ∷ true ∷ true ∷ true ∷ false ∷ false ∷ false
    ∷ false ∷ false ∷ false ∷ false ∷ false ∷ []

locked_balance_example : (run perform taking_turns (opening true)).shared ≡ pos 6750
unfolding run step opening worker main locking_of
locked_balance_example =
    locked_balance taking_turns (run perform taking_turns (opening true)) refl refl refl

-- Without the mutex the deposit of 3000 is lost if the other thread reads the balance before it.
lost_update :
    (run perform
      (false ∷ false ∷ true ∷ true ∷ true ∷ false ∷ true ∷ true ∷ true ∷ false ∷ false ∷ false ∷ [])
      (opening false)).shared
    ≡ pos 3750
unfolding run step opening worker
lost_update = refl
