-- ===== src/Factorial.antt =====
-- booksrc/ch15/facto.c: two threads compute a factorial in the same variable, with or without a mutex.
-- The messages of the verbose mode are left out.
pub mod Locked
mod Examples
use sp327_butt_k.Base.{
  ℕ, zero, suc, ◌+◌, ◌*◌, ◌%◌, ◌^◌, Bool, true, false, Option, none, some, List, [], ◌∷◌, ◌++◌, ltb,
  if◌then◌else◌, ℤ, pos, negsuc,
}
use sp327_butt_k.Turns.{Action, lock, unlock, act, if_locking, Local, System, run}

pub data Op : Type 0 where
  assign : (n : ℕ) → Op  -- `gFactorial = n`
  load : Op  -- the first half of `gFactorial *= i`
  store_product : (i : ℕ) → Op
  print : Op  -- the `printf` of the worker

pub record Own : Type 0 where
  pub loaded : ℕ
  pub printed : Option ℕ

-- `gFactorial` is an `unsigned long long`.
abbrev pub perform : Op → List (Action Op) → Own → ℕ → Local ℕ Own Op
perform (assign n) rest r g = record { code = rest; own = r; shared = n }
perform load rest r g = record { code = rest; own = record r { loaded = g }; shared = g }
perform (store_product i) rest r g = record {
  code = rest;
  own = r;
  shared = (r.loaded * i) % 2 ^ 64;
}
perform print rest r g = record { code = rest; own = record r { printed = some g }; shared = g }

-- The loop from `i` on.
unfoldable pub factorize_loop : (rounds i : ℕ) → List (Action Op)
factorize_loop zero i = []
factorize_loop (suc rounds) i = act load ∷ act (store_product i) ∷ factorize_loop rounds (i + 1)

unfoldable pub factorize : (num : ℤ) → List (Action Op)
factorize (pos num) = act (assign 1) ∷ factorize_loop num 1
factorize (negsuc n) = act (assign 1) ∷ []

-- `N` of the first thread, and of the second.
abbrev pub number_of : Bool → ℕ
number_of true = 10
number_of false = 12

unfoldable pub worker : (locking me : Bool) → List (Action Op)
worker locking me =
    if_locking locking lock
    ++ (factorize (pos (number_of me)) ++ (act print ∷ if_locking locking unlock))

abbrev pub idle : Own
idle = record { loaded = 0; printed = none }

-- The threads as `main` creates them.
unfoldable pub opening : (locking : Bool) → System ℕ Own Op
opening locking = record {
  shared = 1;
  holder = none;
  first = record { code = worker locking true; own = idle };
  second = record { code = worker locking false; own = idle };
}

-- `gLocking` from the command line, if `main` accepts it.
unfoldable pub locking_of : (argc : ℕ) (arg : ℤ) → Option Bool
locking_of argc (pos zero) = if ltb argc 2 then none else some false
locking_of argc (pos (suc zero)) = if ltb argc 2 then none else some true
locking_of argc _ = none

abbrev pub closing : Option Bool → List Bool → Option (System ℕ Own Op)
closing none schedule = none
closing (some locking) schedule = some (run perform schedule (opening locking))

-- `main`, up to the joins: the schedule is what happens until then.
unfoldable pub main : (argc : ℕ) (arg : ℤ) (schedule : List Bool) → Option (System ℕ Own Op)
main argc arg schedule = closing (locking_of argc arg) schedule
