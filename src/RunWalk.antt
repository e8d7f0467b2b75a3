-- ===== src/RunWalk.antt =====
-- booksrc/ch13/runwalk_timer.c: the timer that buzzes at the end of each period of running or walking.
-- What happens after the set-up is a list of signals: a round of the main loop, an expiry of the timer,
-- or ^C. A call that fails ends the program by FATAL. Messages are left out, the buzzes are not.
pub mod Periods
mod Examples
use sp327_butt_k.Base.{
  ℕ, Bool, true, false, not, ◌&&◌, ◌||◌, Option, none, some, List, [], ◌∷◌, ◌==◌, ltb,
  if◌then◌else◌, ℤ, pos, negsuc, ltb_ℤ, to_int,
}
use sp327_butt_k.Text.{Text}
use Prim.Native.String.{[], ◌∷◌}
use Prim.Native.Nat.{ℕ}

-- `enum type`
pub data Kind : Type 0 where
  run : Kind
  walk : Kind

-- `sRunWalk`, with the seconds of its `itmrspec`, all other fields of which are 0.
pub record Context : Type 0 where
  pub trun : ℤ
  pub twalk : ℤ
  pub type : Kind
  pub tv_sec : ℤ

pub data Event : Type 0 where
  buzz : (next : Kind) (seconds : ℤ) → Event  -- BUZZ, and the length of the period that starts
  arm : (seconds : ℤ) → Event  -- `timer_settime`

pub data Exit : Type 0 where
  success : Exit
  failure : Exit
  waiting : Exit  -- the program goes on after the last signal

pub record Outcome : Type 0 where
  pub events : List Event
  pub exit : Exit

abbrev pub ended : Exit → Outcome
ended exit = record { events = []; exit = exit }

abbrev pub after : Event → Outcome → Outcome
after e o = record { events = e ∷ o.events; exit = o.exit }

-- With what `timer_settime`, or `timer_gettime` in the main loop, returns.
pub data Signal : Type 0 where
  expiry : (armed : Bool) → Signal
  round : (read : Bool) → Signal
  interrupt : Signal

-- `its_time` up to `timer_settime`.
abbrev pub toggled : Kind → Context → Context
toggled walk c = record c { type = run; tv_sec = c.trun }
toggled run c = record c { type = walk; tv_sec = c.twalk }

abbrev pub buzzed : Kind → Context → Event
buzzed walk c = buzz run c.trun
buzzed run c = buzz walk c.twalk

abbrev pub timer_settime : (armed : Bool) → ℤ → Outcome → Outcome
timer_settime armed seconds rest = after (arm seconds) (if armed then rest else ended failure)

abbrev pub its_time : (armed : Bool) → Context → Outcome → Outcome
its_time armed c rest = after (buzzed c.type c) (timer_settime armed (toggled c.type c).tv_sec rest)

-- The loop of `main`. `verbose` is 2 for HIGH, where a round reads the timer.
unfoldable pub main_loop : (verbose : ℕ) → List Signal → Context → Outcome
main_loop verbose [] c = ended waiting
main_loop verbose (expiry armed ∷ signals) c =
    its_time armed c (main_loop verbose signals (toggled c.type c))
main_loop verbose (round read ∷ signals) c =
    let rest = main_loop verbose signals c in
    if (verbose == 2) && not read then ended failure else rest
main_loop verbose (interrupt ∷ signals) c = ended success

-- What the calls of the set-up return.
pub record Os : Type 0 where
  pub interrupt_trapped : Bool
  pub allocated : Bool
  pub expiry_trapped : Bool
  pub created : Bool
  pub armed : Bool

-- `sigaction`, `timer_create`, `timer_settime`.
abbrev pub runwalk_timer_init_and_arm : Os → Context → (Context → Outcome) → Outcome
runwalk_timer_init_and_arm os c go =
    if os.expiry_trapped && os.created
    then timer_settime os.armed c.trun (go (record c { type = run; tv_sec = c.trun }))
    else ended failure

-- `strtoul` gives a value and `errno`.
pub record Reader : Type 0 where
  pub atoi : Text → ℤ
  pub strtoul : Text → ℕ × ℕ

-- ERANGE or EINVAL is fatal.
abbrev pub seconds_of : ℕ × ℕ → Option ℤ
seconds_of (n, errno) = if (errno == 34) || (errno == 22) then none else some (to_int (pos n))

abbrev pub level_of : ℤ → Option ℕ
level_of (pos n) = if ltb 2 n then none else some n
level_of (negsuc n) = none

-- The level is LOW unless there are exactly three arguments.
abbrev pub verbosity : Reader → List Text → Option ℕ
verbosity r (level ∷ []) = level_of (r.atoi level)
verbosity r _ = some 1

abbrev pub both_positive : ℤ → ℤ → Bool
both_positive trun twalk = ltb_ℤ (pos 0) trun && ltb_ℤ (pos 0) twalk

pub record Settings : Type 0 where
  pub verbose : ℕ
  pub trun : ℤ
  pub twalk : ℤ

abbrev pub settings_of : Option ℕ → Option ℤ → Option ℤ → Option Settings
settings_of none trun twalk = none
settings_of (some verbose) none twalk = none
settings_of (some verbose) (some trun) none = none
settings_of (some verbose) (some trun) (some twalk) =
    if both_positive trun twalk
    then some (record { verbose = verbose; trun = trun; twalk = twalk })
    else none

-- The arguments, on `argv` with the program's name; `none` where `main` ends with a failure.
unfoldable pub arguments : Reader → List Text → Option Settings
arguments r (program ∷ trun ∷ twalk ∷ more) =
    settings_of (verbosity r more) (seconds_of (r.strtoul trun)) (seconds_of (r.strtoul twalk))
arguments r _ = none

abbrev pub start : Os → Settings → List Signal → Outcome
start os s signals =
    if os.interrupt_trapped && os.allocated
    then runwalk_timer_init_and_arm os
        (record { trun = s.trun; twalk = s.twalk; type = run; tv_sec = pos 0 })
        (λ c. main_loop s.verbose signals c)
    else ended failure

abbrev pub start_accepted : Os → Option Settings → List Signal → Outcome
start_accepted os none signals = ended failure
start_accepted os (some s) signals = start os s signals

unfoldable pub main : Os → Reader → List Text → List Signal → Outcome
main os r argv signals = start_accepted os (arguments r argv) signals
