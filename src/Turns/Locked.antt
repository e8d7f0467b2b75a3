-- ===== src/Turns/Locked.antt =====
-- Threads that take the mutex first and give it up last: what holds at the end for each of them by
-- itself holds in any order of the steps.
use mathlib.Core.Path.{subst}
use sp327_butt_k.Base.{◌≡◌, Bool, true, false, Option, none, some, List, [], ◌∷◌}
use sp327_butt_k.Turns.{Action, lock, unlock, act, Local, System, execute, step, run}

-- Run by itself, the code gives up the mutex as its last step, with this goal reached.
pub data Ends {V R Op : Type 0} (perform : Op → List (Action Op) → R → V → Local V R Op)
    (Goal : R → V → Type 0) : List (Action Op) → R → V → Type 0 where
  last : {r : R} {v : V} → Goal r v → Ends perform Goal (unlock ∷ []) r v
  more :
      {op : Op} {rest : List (Action Op)} {r : R} {v : V}
      → Ends perform Goal
          (perform op rest r v).code
          (perform op rest r v).own
          (perform op rest r v).shared
      → Ends perform Goal (act op ∷ rest) r v

-- `Shared f g v`: the variable while no thread has the mutex, where `f` and `g` say which threads are
-- through. `Own me r`: the variables of a thread that is through.
module _ {V R Op : Type 0} (perform : Op → List (Action Op) → R → V → Local V R Op)
    (inside : Bool → List (Action Op)) (Shared : (f g : Bool) → V → Type 0)
    (Own : Bool → R → Type 0) where
  -- A thread outside its critical section: before it, or through.
  data Outside : Bool → List (Action Op) → R → Bool → Type 0 where
    before : {me : Bool} {r : R} → Outside me (lock ∷ inside me) r false
    through : {me : Bool} {r : R} → Own me r → Outside me [] r true

  abbrev pub FirstGoal : Bool → R → V → Type 0
  FirstGoal g r v = Own true r × Shared true g v

  abbrev pub SecondGoal : Bool → R → V → Type 0
  SecondGoal f r v = Own false r × Shared f true v

  -- The variable, the holder of the mutex, and the code and the variables of each thread.
  data Inv : V → Option Bool → List (Action Op) → R → List (Action Op) → R → Type 0 where
    free :
        {v : V} {r q : R} {c d : List (Action Op)} (f g : Bool)
        → Shared f g v
        → Outside true c r f
        → Outside false d q g
        → Inv v none c r d q
    first_inside :
        {v : V} {r q : R} {c d : List (Action Op)} (g : Bool)
        → Ends perform (FirstGoal g) c r v
        → Outside false d q g
        → Inv v (some true) c r d q
    second_inside :
        {v : V} {r q : R} {c d : List (Action Op)} (f : Bool)
        → Outside true c r f
        → Ends perform (SecondGoal f) d q v
        → Inv v (some false) c r d q

  abbrev InvOf : System V R Op → Type 0
  InvOf s = Inv s.shared s.holder s.first.code s.first.own s.second.code s.second.own

  abbrev state : V → Option Bool → List (Action Op) → R → List (Action Op) → R → System V R Op
  state v h c r d q = record {
    shared = v;
    holder = h;
    first = record { code = c; own = r };
    second = record { code = d; own = q };
  }

  first_moves :
      {c d : List (Action Op)} {r q : R} {v : V} (g : Bool)
      → Ends perform (FirstGoal g) c r v
      → Outside false d q g
      → InvOf (execute perform true c r (state v (some true) c r d q))
  first_moves g (last goal) out = free true g goal.1 (through goal.0) out
  first_moves g (more ends) out = first_inside g ends out

  second_moves :
      {c d : List (Action Op)} {r q : R} {v : V} (f : Bool)
      → Outside true c r f
      → Ends perform (SecondGoal f) d q v
      → InvOf (execute perform false d q (state v (some false) c r d q))
  second_moves f out (last goal) = free f true goal.1 out (through goal.0)
  second_moves f out (more ends) = second_inside f out ends

  -- Each thread by itself reaches its goal from where the other one leaves the variable.
  module _
      (first_Ends : (g : Bool) (r : R) (v : V)
        → Shared false g v
        → Ends perform (FirstGoal g) (inside true) r v)
      (second_Ends : (f : Bool) (r : R) (v : V)
        → Shared f false v
        → Ends perform (SecondGoal f) (inside false) r v) where
    first_step-Inv :
        {v : V} {r q : R} {h : Option Bool} {c d : List (Action Op)}
        → Inv v h c r d q
        → InvOf (execute perform true c r (state v h c r d q))
    first_step-Inv {v = v} {r = r} (free f g p before out) = first_inside g (first_Ends g r v p) out
    first_step-Inv (free f g p (through o) out) = free true g p (through o) out
    first_step-Inv (first_inside g ends out) = first_moves g ends out
    first_step-Inv (second_inside f before ends) = second_inside false before ends
    first_step-Inv (second_inside f (through o) ends) = second_inside true (through o) ends

    second_step-Inv :
        {v : V} {r q : R} {h : Option Bool} {c d : List (Action Op)}
        → Inv v h c r d q
        → InvOf (execute perform false d q (state v h c r d q))
    second_step-Inv {v = v} {q = q} (free f g p out before) =
        second_inside f out (second_Ends f q v p)
    second_step-Inv (free f g p out (through o)) = free f true p out (through o)
    second_step-Inv (second_inside f out ends) = second_moves f out ends
    second_step-Inv (first_inside g ends before) = first_inside false ends before
    second_step-Inv (first_inside g ends (through o)) = first_inside true ends (through o)

    run-Inv : (schedule : List Bool) (s : System V R Op) → InvOf s → InvOf (run perform schedule s)
    unfolding run step
    run-Inv [] s inv = inv
    run-Inv (true ∷ schedule) s inv = run-Inv schedule (step perform true s) (first_step-Inv inv)
    run-Inv (false ∷ schedule) s inv = run-Inv schedule (step perform false s) (second_step-Inv inv)

    ended :
        {v : V} {r q : R} {h : Option Bool} {c d : List (Action Op)}
        → Inv v h c r d q
        → c ≡ []
        → d ≡ []
        → Own true r × Own false q × Shared true true v
    ended (free f g p before out) x y = cc
    ended (free f g p (through o) before) x y = cc
    ended (free f g p (through o) (through u)) x y = (o, u, p)
    ended (first_inside g (last goal) out) x y = cc
    ended (first_inside g (more ends) out) x y = cc
    ended (second_inside f out (last goal)) x y = cc
    ended (second_inside f out (more ends)) x y = cc

    -- From the start of both threads, whatever the schedule: once both have ended, both goals hold.
    pub both_ended :
        (schedule : List Bool) (v : V) (r q : R) (s : System V R Op)
        → Shared false false v
        → run perform schedule (state v none (lock ∷ inside true) r (lock ∷ inside false) q) ≡ s
        → s.first.code ≡ []
        → s.second.code ≡ []
        → Own true s.first.own × Own false s.second.own × Shared true true s.shared
    both_ended schedule v r q s p e x y =
        ended
          (subst (λ t. InvOf t) e
            (run-Inv schedule (state v none (lock ∷ inside true) r (lock ∷ inside false) q)
              (free false false p before before)))
          x y
