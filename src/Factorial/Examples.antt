-- ===== src/Factorial/Examples.antt =====
-- Schedules in full.
use sp327_butt_k.Base.{ℕ, zero, suc, ◌≡◌, refl, Bool, true, false, some, List, [], ◌∷◌, arith}
use sp327_butt_k.Turns.{run, step}
use sp327_butt_k.Factorial.{perform, factorize, factorize_loop, opening, worker, main, locking_of}
use sp327_butt_k.Factorial.Locked.{factorial, locked_factorials}

-- `n` steps of one thread.
abbrev steps : ℕ → Bool → List Bool → List Bool
steps zero me schedule = schedule
steps (suc n) me schedule = me ∷ steps n me schedule

-- The second thread waits twice while the first one has the mutex.
abbrev taking_turns : List Bool
taking_turns = steps 2 true (steps 2 false (steps 22 true (steps 28 false [])))

locked_factorials_example :
    ((run perform taking_turns (opening true)).first.own.printed ≡ some 3628800)
    × ((run perform taking_turns (opening true)).second.own.printed ≡ some 479001600)
unfolding run step opening worker factorize factorize_loop main locking_of factorial
locked_factorials_example =
    locked_factorials 2 taking_turns (run perform taking_turns (opening true)) (omega arith) refl
      refl refl

-- Without the mutex, the first thread prints 1 if the second one starts just before.
abbrev interrupted : List Bool
interrupted = steps 21 true (false ∷ true ∷ [])

lost_factorial : (run perform interrupted (opening false)).first.own.printed ≡ some 1
unfolding run step opening worker factorize factorize_loop
lost_factorial = refl
