-- ===== src/React.antt =====
-- booksrc/ch13/react.c: the game that measures how fast ^C is pressed after a message. What happens
-- after the set-up is a list of signals, each with the results of the calls that its handler makes; a
-- call that fails ends the program by FATAL. Of the messages only those that judge the player are
-- kept, and the verbose mode is left out.
pub mod Times
pub mod Verdicts
mod Examples
use sp327_butt_k.Base.{
  ℕ, ◌+◌, ◌-◌, ◌*◌, ◌/◌, ◌%◌, ◌^◌, Bool, true, false, not, ◌&&◌, Option, none, some, List, [], ◌∷◌,
  ◌==◌, ltb, if◌then◌else◌, ℤ, pos, negsuc, sub_ℕ, ◌+ℤ◌, ◌-ℤ◌, ltb_ℤ,
}
use sp327_butt_k.Text.{Text}

-- A reading of the clock, or a period.
pub record Time : Type 0 where
  pub tv_sec : ℕ
  pub tv_nsec : ℕ

pub record Itimerspec : Type 0 where
  pub it_value : Time
  pub it_interval : Time

-- `timerspecsub` of common.h: a - b.
unfoldable pub timerspecsub : (a b : Time) → ℤ × ℤ
timerspecsub a b =
    if ltb_ℤ (sub_ℕ a.tv_nsec b.tv_nsec) (pos 0)
    then (sub_ℕ a.tv_sec b.tv_sec -ℤ pos 1, sub_ℕ a.tv_nsec b.tv_nsec +ℤ pos 1000000000)
    else (sub_ℕ a.tv_sec b.tv_sec, sub_ℕ a.tv_nsec b.tv_nsec)

pub data Event : Type 0 where
  alarm : (seconds : ℕ) → Event
  timer_settime : Itimerspec → Event
  jumped : Event  -- "Whoops, you jumped the gun!"
  perfect : Event  -- "WOW!"
  reaction : (res : ℤ × ℤ) (count : ℕ) → Event
  again : (count : ℕ) → Event  -- "^C pressed"

pub data Exit : Type 0 where
  success : Exit
  failure : Exit
  waiting : Exit  -- in `pause` after the last signal
  undefined : Exit  -- a signed number overflowed

pub record Outcome : Type 0 where
  pub events : List Event
  pub exit : Exit

abbrev pub ended : Exit → Outcome
ended exit = record { events = []; exit = exit }

abbrev pub after : Event → Outcome → Outcome
after e o = record { events = e ∷ o.events; exit = o.exit }

-- With what `timer_settime` and `clock_gettime` return in the handler.
pub data Signal : Type 0 where
  sigalrm : (armed : Bool) (now : Option Time) → Signal
  sigrtmin : Signal
  sigint : (now : Option Time) → Signal

-- The globals of the handlers.
pub record Game : Type 0 where
  pub c : ℕ
  pub first_time : Bool
  pub jumped_the_gun : Bool
  pub tm_start : Time

-- The program never assigns it.
abbrev pub g_timer_repeats : Bool
g_timer_repeats = false

-- `timer_handler`
abbrev pub timer_handler : Game → Outcome → Outcome
timer_handler g rest = if ltb g.c (2 ^ 31 - 1) then rest else ended undefined

abbrev pub judged : Game → (tm_end : Time) → Event
judged g tm_end =
    if g.first_time
    then (if g.c == 0 then perfect else reaction (timerspecsub tm_end g.tm_start) g.c)
    else again g.c

abbrev pub userpress : (now : Option Time) → Game → Outcome → Outcome
userpress none g rest = ended failure
userpress (some tm_end) g rest =
    if g.jumped_the_gun
    then after jumped (ended failure)
    else after (judged g tm_end) (if not g_timer_repeats then ended success else rest)

abbrev pub arm_timer : (armed : Bool) → Itimerspec → Outcome → Outcome
arm_timer armed itv rest = after (timer_settime itv) (if armed then rest else ended failure)

-- The handlers, one signal after the other, and `pause`.
unfoldable pub main_loop : Itimerspec → List Signal → Game → Outcome
main_loop itv [] g = ended waiting
main_loop itv (sigalrm armed none ∷ signals) g = arm_timer armed itv (ended failure)
main_loop itv (sigalrm armed (some now) ∷ signals) g =
    arm_timer armed itv
      (main_loop itv signals (record g { jumped_the_gun = false; tm_start = now }))
main_loop itv (sigrtmin ∷ signals) g =
    timer_handler g (main_loop itv signals (record g { c = g.c + 1 }))
main_loop itv (sigint now ∷ signals) g =
    userpress now g (main_loop itv signals (record g { c = 0; first_time = false }))

-- Whether the calls of `init` succeed.
pub record Os : Type 0 where
  pub expiry_trapped : Bool
  pub interrupt_trapped : Bool
  pub alarm_trapped : Bool
  pub created : Bool

-- `(freq_ms * 1000000) / 1000000000` and the remainder.
abbrev pub period : (freq_ms : ℕ) → Time
period freq_ms = record {
  tv_sec = freq_ms * 1000000 / 1000000000;
  tv_nsec = freq_ms * 1000000 % 1000000000;
}

abbrev pub init : Os → (freq_ms : ℕ) → (Itimerspec → Outcome) → Outcome
init os freq_ms go =
    if os.expiry_trapped && (os.interrupt_trapped && (os.alarm_trapped && os.created))
    then (if ltb (freq_ms * 1000000) (2 ^ 63)
        then go (record { it_value = period freq_ms; it_interval = period freq_ms })
        else ended undefined)
    else ended failure

abbrev pub random_start : (min max random : ℕ) → Outcome → Outcome
random_start min max random rest = after (alarm 0) (after (alarm (random % max + min)) rest)

-- The static variables at the start.
abbrev pub new_game : Game
new_game = record {
  c = 0;
  first_time = true;
  jumped_the_gun = true;
  tm_start = record { tv_sec = 0; tv_nsec = 0 };
}

-- `main` from the test of `freq_ms` on.
abbrev pub play : Os → (random : ℕ) → (freq_ms : ℤ) → List Signal → Outcome
play os random (negsuc n) signals = ended failure
play os random (pos freq_ms) signals =
    if ltb freq_ms 1
    then ended failure
    else init os freq_ms λ itv. random_start 1 5 random (main_loop itv signals new_game)

unfoldable pub main :
    Os → (atoll : Text → ℤ) → (random : ℕ) → (argv : List Text) → List Signal → Outcome
main os atoll random (program ∷ freq ∷ more) signals = play os random (atoll freq) signals
main os atoll random _ signals = ended failure
