-- ===== src/React/Verdicts.antt =====
-- The verdict of react.c on the player, and the period of the game.
use sp327_butt_k.Base.{
  ◌-◌, ℕ, suc, ◌+◌, ◌*◌, ◌%◌, ◌^◌, ◌≤◌, ◌<◌, ◌≡◌, refl, ap, ◌∙◌, Bool, true, false, ◌&&◌, Option,
  none, some, List, [], ◌∷◌, ◌++◌, ◌==◌, arith, ltb, ℤ, pos, Bool-cases, inl, inr, if◌then◌else◌,
}
use sp327_butt_k.Text.{Text}
use sp327_butt_k.React.{
  Time, Itimerspec, timerspecsub, Event, alarm, timer_settime, jumped, perfect, reaction, Exit,
  success, failure, Outcome, Signal, sigalrm, sigrtmin, sigint, Game, main_loop, main, period,
  new_game, play,
}
use sp327_butt_k.React.Times.{Paced, loop-Paced, period-Lasts, all_ok, play-main_loop}

-- The last start of the timer, and the number of its expiries.
unfoldable pub last_start : Option Time → List Signal → Option Time
last_start t [] = t
last_start t (sigalrm armed now ∷ signals) = last_start now signals
last_start t (sigrtmin ∷ signals) = last_start t signals
last_start t (sigint now ∷ signals) = last_start t signals

unfoldable pub expiries : List Signal → ℕ
expiries [] = 0
expiries (sigalrm armed now ∷ signals) = expiries signals
expiries (sigrtmin ∷ signals) = suc (expiries signals)
expiries (sigint now ∷ signals) = expiries signals

-- Signals before the first ^C, in whose handlers no call fails.
unfoldable pub quiet : List Signal → Bool
quiet [] = true
quiet (sigalrm armed (some now) ∷ signals) = armed && quiet signals
quiet (sigalrm armed none ∷ signals) = false
quiet (sigrtmin ∷ signals) = quiet signals
quiet (sigint now ∷ signals) = false

abbrev pub verdict : (started : Option Time) (count : ℕ) (pressed : Time) → Event
verdict none count pressed = jumped
verdict (some t) count pressed =
    if count == 0 then perfect else reaction (timerspecsub pressed t) count

abbrev pub status : (started : Option Time) → Exit
status none = failure
status (some t) = success

-- The events that judge the player.
unfoldable pub judgements : List Event → List Event
judgements [] = []
judgements (alarm seconds ∷ events) = judgements events
judgements (timer_settime itv ∷ events) = judgements events
judgements (e ∷ events) = e ∷ judgements events

unfoldable pub Ends : Outcome → (started : Option Time) (count : ℕ) (pressed : Time) → Type 0
Ends o started count pressed =
    (judgements o.events ≡ verdict started count pressed ∷ []) × (o.exit ≡ status started)

-- The game at that point.
abbrev game : Option Time → ℕ → Game
game none c = record {
  c = c;
  first_time = true;
  jumped_the_gun = true;
  tm_start = record { tv_sec = 0; tv_nsec = 0 };
}
game (some t) c = record { c = c; first_time = true; jumped_the_gun = false; tm_start = t }

press-Ends :
    (itv : Itimerspec) (o : Option Time) (c : ℕ) (t : Time) (more : List Signal)
    → Ends (main_loop itv (sigint (some t) ∷ more) (game o c)) o c t
unfolding Ends main_loop judgements
press-Ends itv none c t more = (refl, refl)
press-Ends itv (some s) c t more = elim (Bool-cases (c == 0)) [
  | inl z ↦ rw z (refl, refl)
  | inr z ↦ rw z (refl, refl)
]

loop-Ends :
    (itv : Itimerspec) (before : List Signal) (o : Option Time) (c : ℕ) (t : Time)
    (more : List Signal)
    → quiet before ≡ true
    → c + expiries before < 2 ^ 31
    → Ends
        (main_loop itv (before ++ sigint (some t) ∷ more) (game o c))
        (last_start o before)
        (c + expiries before)
        t
unfolding quiet expiries last_start Ends judgements main_loop
loop-Ends itv [] o c t more q fits =
    let e : c + 0 ≡ c = omega arith in rw e (press-Ends itv o c t more)
loop-Ends itv (sigalrm true (some now) ∷ before) none c t more q fits =
    loop-Ends itv before (some now) c t more q fits
loop-Ends itv (sigalrm true (some now) ∷ before) (some s) c t more q fits =
    loop-Ends itv before (some now) c t more q fits
loop-Ends itv (sigalrm false (some now) ∷ before) o c t more q fits = cc
loop-Ends itv (sigalrm armed none ∷ before) o c t more q fits = cc
loop-Ends itv (sigrtmin ∷ before) none c t more q fits =
    let small : ltb c (2 ^ 31 - 1) ≡ true = ground arith in
    let e : c + suc (expiries before) ≡ c + 1 + expiries before = omega arith in
    rw (small, e) (loop-Ends itv before none (c + 1) t more q (omega arith))
loop-Ends itv (sigrtmin ∷ before) (some s) c t more q fits =
    let small : ltb c (2 ^ 31 - 1) ≡ true = ground arith in
    let e : c + suc (expiries before) ≡ c + 1 + expiries before = omega arith in
    rw (small, e) (loop-Ends itv before (some s) (c + 1) t more q (omega arith))
loop-Ends itv (sigint now ∷ before) o c t more q fits = cc

-- An accepted period, and no call of the set-up fails: the program sets an alarm of 1 to 5 seconds, and
-- whatever signals come, and whichever calls in their handlers fail, every timer that it arms expires
-- each `freq_ms` milliseconds.
pub main-Paced :
    (atoll : Text → ℤ) (random freq_ms : ℕ) (program freq : Text) (more : List Text)
    (signals : List Signal)
    → atoll freq ≡ pos freq_ms
    → 1 ≤ freq_ms
    → freq_ms * 1000000 < 2 ^ 63
    → (seconds : ℕ) × (events : List Event) × ((main all_ok atoll random
          (program ∷ freq ∷ more)
          signals).events
        ≡ alarm 0 ∷ alarm seconds ∷ events)
      × (1 ≤ seconds)
      × (seconds ≤ 5)
      × Paced freq_ms events
unfolding main
main-Paced atoll random f program freq more signals reads some_ms fits =
    let itv : Itimerspec = record { it_value = period f; it_interval = period f } in
    (
      random % 5 + 1,
      (main_loop itv signals new_game).events,
      ap (λ z. (play all_ok random z signals).events) reads
          ∙ ap (λ o. o.events) (play-main_loop random f signals some_ms fits),
      omega arith,
      omega arith,
      loop-Paced f itv (period-Lasts f) signals new_game,
    )

-- An accepted period, no call fails, and fewer than 2^31 expiries before the first ^C: it ends the
-- program. Before any start this is a failure; otherwise it is a success, and the player is told that
-- the reaction was perfect if the timer has not expired, and else the time since the last start and
-- the number of expiries.
pub main-Ends :
    (atoll : Text → ℤ) (random freq_ms : ℕ) (program freq : Text) (rest : List Text)
    (before more : List Signal) (pressed : Time)
    → atoll freq ≡ pos freq_ms
    → 1 ≤ freq_ms
    → freq_ms * 1000000 < 2 ^ 63
    → quiet before ≡ true
    → expiries before < 2 ^ 31
    → Ends
        (main all_ok atoll random (program ∷ freq ∷ rest) (before ++ sigint (some pressed) ∷ more))
        (last_start none before)
        (expiries before)
        pressed
unfolding main Ends judgements
main-Ends atoll random f program freq rest before more pressed reads some_ms fits q few =
    let e : expiries before ≡ 0 + expiries before = omega arith in
    rw (reads, play-main_loop random f (before ++ sigint (some pressed) ∷ more) some_ms fits, e)
      (loop-Ends (record { it_value = period f; it_interval = period f }) before none 0 pressed more
        q (omega (arith, few)))
