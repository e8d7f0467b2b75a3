-- ===== src/Turns.antt =====
-- Two threads that share one variable and one mutex, as the programs of booksrc/ch15/facto.c and
-- booksrc/solutions_to_assgn/ch15/bankacc.c do. A step is one access to the variable or the mutex; a
-- schedule is the list of the threads that take the steps. A thread that waits for the mutex, or has
-- ended, does not move.
pub mod Locked
use sp327_butt_k.Base.{Bool, true, false, Option, none, some, List, [], ◌∷◌, ◌++◌, if◌then◌else◌}

-- What a thread has still to do; `Op` is what a program does to its variable.
pub data Action (Op : Type 0) : Type 0 where
  lock : Action Op
  unlock : Action Op
  act : (op : Op) → Action Op

-- The lines around a critical section do nothing without `gLocking`.
abbrev pub if_locking : {Op : Type 0} → Bool → Action Op → List (Action Op)
if_locking locking a = if locking then a ∷ [] else []

-- What an operation leaves: the thread's code and its own variables `R`, and the shared variable `V`.
pub record Local (V R Op : Type 0) : Type 0 where
  pub code : List (Action Op)
  pub own : R
  pub shared : V

pub record Thread (R Op : Type 0) : Type 0 where
  pub code : List (Action Op)
  pub own : R

-- `holder`: the thread that has the mutex; `true` is the first one.
pub record System (V R Op : Type 0) : Type 0 where
  pub shared : V
  pub holder : Option Bool
  pub first : Thread R Op
  pub second : Thread R Op

abbrev pub thread : {V R Op : Type 0} → Bool → System V R Op → Thread R Op
thread true s = s.first
thread false s = s.second

abbrev pub set_thread : {V R Op : Type 0} → Bool → Thread R Op → System V R Op → System V R Op
set_thread true t s = record s { first = t }
set_thread false t s = record s { second = t }

abbrev pub with_local : {V R Op : Type 0} → Bool → System V R Op → Local V R Op → System V R Op
with_local me s l =
    set_thread me (record { code = l.code; own = l.own }) (record s { shared = l.shared })

abbrev pub take_lock :
    {V R Op : Type 0} → Bool → Thread R Op → System V R Op → Option Bool → System V R Op
take_lock me t s none = set_thread me t (record s { holder = some me })
take_lock me t s (some other) = s

module _ {V R Op : Type 0} (perform : Op → List (Action Op) → R → V → Local V R Op) where
  abbrev pub execute : Bool → List (Action Op) → R → System V R Op → System V R Op
  execute me [] r s = s
  execute me (lock ∷ rest) r s = take_lock me (record { code = rest; own = r }) s s.holder
  execute me (unlock ∷ rest) r s =
      set_thread me (record { code = rest; own = r }) (record s { holder = none })
  execute me (act op ∷ rest) r s = with_local me s (perform op rest r s.shared)

  unfoldable pub step : Bool → System V R Op → System V R Op
  step me s = execute me (thread me s).code (thread me s).own s

  unfoldable pub run : (schedule : List Bool) → System V R Op → System V R Op
  run [] s = s
  run (me ∷ schedule) s = run schedule (step me s)
