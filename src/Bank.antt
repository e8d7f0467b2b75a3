-- ===== src/Bank.antt =====
-- booksrc/solutions_to_assgn/ch15/bankacc.c: two threads on one balance, with or without a mutex.
-- Messages are left out, and with them the test for a high balance.
pub mod Locked
mod Examples
use sp327_butt_k.Base.{
  ℕ, zero, suc, Bool, true, false, Option, none, some, List, [], ◌∷◌, ◌++◌, ◌==◌, if◌then◌else◌, ℤ,
  pos, ◌+ℤ◌, ◌-ℤ◌, ltb_ℤ,
}
use sp327_butt_k.Turns.{Action, lock, unlock, act, if_locking, Local, System, run}

pub data Op : Type 0 where
  deposit : (amt : ℤ) → Op  -- a call of `deposit`
  withdraw : (amt : ℤ) → Op  -- a call of `withdraw`, up to its test
  load : Op  -- the first half of `gBalance += amt` or `gBalance -= amt`
  store_sum : (amt : ℤ) → Op
  store_diff : (amt : ℤ) → Op

abbrev pub start_deposit : ℤ → List (Action Op) → List (Action Op)
start_deposit amt rest = if ltb_ℤ (pos 0) amt then act load ∷ act (store_sum amt) ∷ rest else rest

-- The withdrawal fails if less than `gCB_MinCredit` would be left.
abbrev pub start_withdrawal : ℤ → ℤ → List (Action Op) → List (Action Op)
start_withdrawal balance amt rest =
    if ltb_ℤ (balance -ℤ amt) (pos 500) then rest else act load ∷ act (store_diff amt) ∷ rest

-- `r` is the balance that the thread has loaded.
abbrev pub perform : Op → List (Action Op) → (r balance : ℤ) → Local ℤ ℤ Op
perform (deposit amt) rest r b = record { code = start_deposit amt rest; own = r; shared = b }
perform (withdraw amt) rest r b = record { code = start_withdrawal b amt rest; own = r; shared = b }
perform load rest r b = record { code = rest; own = b; shared = b }
perform (store_sum amt) rest r b = record { code = rest; own = r; shared = r +ℤ amt }
perform (store_diff amt) rest r b = record { code = rest; own = r; shared = r -ℤ amt }

unfoldable pub worker : (locking me : Bool) → List (Action Op)
worker locking true =
    if_locking locking lock
    ++ (act (deposit (pos 3000)) ∷ act (withdraw (pos 250)) ∷ if_locking locking unlock)
worker locking false =
    if_locking locking lock
    ++ (act (withdraw (pos 9000)) ∷ act (deposit (pos 1000)) ∷ if_locking locking unlock)

-- The threads as `main` creates them, on the opening balance.
unfoldable pub opening : (locking : Bool) → System ℤ ℤ Op
opening locking = record {
  shared = pos 12000;
  holder = none;
  first = record { code = worker locking true; own = pos 0 };
  second = record { code = worker locking false; own = pos 0 };
}

-- `gLocking` from the command line, if `main` accepts it.
unfoldable pub locking_of : (argc : ℕ) (arg : ℤ) → Option Bool
locking_of argc (pos zero) = if argc == 2 then some false else none
locking_of argc (pos (suc zero)) = if argc == 2 then some true else none
locking_of argc _ = none

abbrev pub closing : Option Bool → List Bool → Option (System ℤ ℤ Op)
closing none schedule = none
closing (some locking) schedule = some (run perform schedule (opening locking))

-- `main`, up to the joins: the schedule is what happens until then.
unfoldable pub main : (argc : ℕ) (arg : ℤ) (schedule : List Bool) → Option (System ℤ ℤ Op)
main argc arg schedule = closing (locking_of argc arg) schedule
