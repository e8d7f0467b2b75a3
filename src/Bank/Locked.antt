-- ===== src/Bank/Locked.antt =====
-- The closing balance of ch15/bankacc.c when its threads take the mutex.
use sp327_butt_k.Base.{◌≡◌, refl, ap, Bool, true, false, Option, none, some, List, [], ◌∷◌, ℤ, pos}
use sp327_butt_k.Turns.{Action, unlock, act, System}
use sp327_butt_k.Turns.Locked.{Ends, last, more, FirstGoal, SecondGoal, both_ended}
use sp327_butt_k.Bank.{Op, deposit, withdraw, perform, worker, opening, locking_of, main}

-- The code of a thread between lock and unlock.
abbrev inside : Bool → List (Action Op)
inside true = act (deposit (pos 3000)) ∷ act (withdraw (pos 250)) ∷ unlock ∷ []
inside false = act (withdraw (pos 9000)) ∷ act (deposit (pos 1000)) ∷ unlock ∷ []

-- The balance by which threads are through.
abbrev total : (first second : Bool) → ℤ
total false false = pos 12000
total true false = pos 14750
total false true = pos 4000
total true true = pos 6750

abbrev IsTotal : (first second : Bool) → ℤ → Type 0
IsTotal f g v = v ≡ total f g

-- Nothing is claimed of what a thread has loaded.
abbrev Any : Bool → ℤ → Type 0
Any me r = r ≡ r

first_Ends :
    (second : Bool) (r v : ℤ)
    → IsTotal false second v
    → Ends perform (FirstGoal perform inside IsTotal Any second) (inside true) r v
first_Ends true r v e = rw e (more (more (more (more (more (more (last (refl, refl))))))))
first_Ends false r v e = rw e (more (more (more (more (more (more (last (refl, refl))))))))

second_Ends :
    (first : Bool) (r v : ℤ)
    → IsTotal first false v
    → Ends perform (SecondGoal perform inside IsTotal Any first) (inside false) r v
second_Ends true r v e = rw e (more (more (more (more (more (more (last (refl, refl))))))))
second_Ends false r v e = rw e (more (more (more (more (more (more (last (refl, refl))))))))

abbrev or_opening : Option (System ℤ ℤ Op) → System ℤ ℤ Op
or_opening none = opening true
or_opening (some s) = s

-- With the mutex, whatever the schedule: once both threads have ended, the balance is 6750, as if one
-- had run after the other.
pub locked_balance :
    (schedule : List Bool) (s : System ℤ ℤ Op)
    → main 2 (pos 1) schedule ≡ some s
    → s.first.code ≡ []
    → s.second.code ≡ []
    → s.shared ≡ pos 6750
unfolding main locking_of opening worker
locked_balance schedule s e x y =
    (both_ended perform inside IsTotal Any first_Ends second_Ends schedule (pos 12000) (pos 0)
      (pos 0) s refl (ap or_opening e) x y).2
