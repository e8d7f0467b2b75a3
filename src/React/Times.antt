-- ===== src/React/Times.antt =====
-- The times of the game: the period of the timer, the random start, and the reaction time.
use sp327_butt_k.Base.{
  ◌-◌, ◌-ℤ◌, ◌+ℤ◌, ℕ, ◌+◌, ◌*◌, ◌^◌, ◌≤◌, ◌<◌, ◌≡◌, refl, true, false, none, some, List, [], ◌∷◌,
  ◌==◌, arith, ltb, ℤ, pos, pos_part, neg_part, sub_ℕ, Bool-cases, inl, inr, ltb_ℤ,
}
use sp327_butt_k.React.{
  Time, Itimerspec, timerspecsub, Event, timer_settime, Signal, sigalrm, sigrtmin, sigint, Game,
  main_loop, Os, period, judged, new_game, random_start, play,
}

unfoldable pub nanoseconds : Time → ℕ
nanoseconds t = t.tv_sec * 1000000000 + t.tv_nsec

-- A normal reading of the clock.
unfoldable pub IsNormal : Time → Type 0
IsNormal t = t.tv_nsec < 1000000000

sub_ℕ-parts : (a b : ℕ) → pos_part (sub_ℕ a b) + b ≡ neg_part (sub_ℕ a b) + a
sub_ℕ-parts a b = ground arith

-- What is said of a difference `r` of `a` and `b`.
unfoldable pub IsDifference : ℤ × ℤ → (a b : Time) → Type 0
IsDifference r a b =
    (ns : ℕ) × (r.1 ≡ pos ns)
    × (ns < 1000000000)
    × (pos_part r.0 * 1000000000 + ns + nanoseconds b ≡ neg_part r.0 * 1000000000 + nanoseconds a)

borrowed-IsDifference :
    (a b : Time)
    → IsNormal b
    → a.tv_nsec < b.tv_nsec
    → IsDifference
        (sub_ℕ a.tv_sec b.tv_sec -ℤ pos 1, sub_ℕ a.tv_nsec b.tv_nsec +ℤ pos 1000000000)
        a
        b
unfolding IsDifference nanoseconds IsNormal
borrowed-IsDifference a b nb lt =
    let d = sub_ℕ a.tv_sec b.tv_sec in
    (
      a.tv_nsec + 1000000000 - b.tv_nsec,
      ground arith,
      omega arith,
      omega (arith, sub_ℕ-parts a.tv_sec b.tv_sec, sub_ℕ-parts (pos_part d + 0) (neg_part d + 1)),
    )

plain-IsDifference :
    (a b : Time)
    → IsNormal a
    → b.tv_nsec ≤ a.tv_nsec
    → IsDifference (sub_ℕ a.tv_sec b.tv_sec, sub_ℕ a.tv_nsec b.tv_nsec) a b
unfolding IsDifference nanoseconds IsNormal
plain-IsDifference a b na le =
    (a.tv_nsec - b.tv_nsec, ground arith, omega arith, omega (arith, sub_ℕ-parts a.tv_sec b.tv_sec))

-- For readings of the clock in any order, `timerspecsub` gives their difference in nanoseconds: a
-- negative one by its seconds, so that the nanoseconds are from 0 to 999999999.
pub timerspecsub-IsDifference :
    (a b : Time) → IsNormal a → IsNormal b → IsDifference (timerspecsub a b) a b
unfolding timerspecsub
timerspecsub-IsDifference a b na nb = elim (Bool-cases (ltb a.tv_nsec b.tv_nsec)) [
  | inl lt ↦
      let neg : ltb_ℤ (sub_ℕ a.tv_nsec b.tv_nsec) (pos 0) ≡ true = ground (arith, lt) in
      rw neg (borrowed-IsDifference a b nb (ground (arith, lt)))
  | inr ge ↦
      let neg : ltb_ℤ (sub_ℕ a.tv_nsec b.tv_nsec) (pos 0) ≡ false = ground (arith, ge) in
      rw neg (plain-IsDifference a b na (ground (arith, ge)))
]

-- A timer that expires every `freq_ms` milliseconds.
pub record Lasts (freq_ms : ℕ) (itv : Itimerspec) : Type 0 where
  pub value : nanoseconds itv.it_value ≡ freq_ms * 1000000
  pub normal : IsNormal itv.it_value
  pub repeats : itv.it_interval ≡ itv.it_value

pub period-Lasts :
    (freq_ms : ℕ)
    → Lasts freq_ms (record { it_value = period freq_ms; it_interval = period freq_ms })
unfolding nanoseconds IsNormal
period-Lasts freq_ms = record { value = omega arith; normal = omega arith; repeats = refl }

-- All timers among these events are set to that period.
unfoldable pub Paced : (freq_ms : ℕ) → List Event → Type 0
Paced freq_ms [] = Unit {0}
Paced freq_ms (timer_settime itv ∷ events) = Lasts freq_ms itv × Paced freq_ms events
Paced freq_ms (_ ∷ events) = Paced freq_ms events

judged-Paced :
    (freq_ms : ℕ) (g : Game) (t : Time) (events : List Event)
    → Paced freq_ms events
    → Paced freq_ms (judged g t ∷ events)
unfolding Paced
judged-Paced f g t events p = elim (Bool-cases g.first_time) [
  | inl first ↦ elim (Bool-cases (g.c == 0)) [ inl z ↦ rw (first, z) p | inr z ↦ rw (first, z) p ]
  | inr later ↦ rw later p
]

pub loop-Paced :
    (freq_ms : ℕ) (itv : Itimerspec)
    → Lasts freq_ms itv
    → (signals : List Signal) (g : Game) → Paced freq_ms (main_loop itv signals g).events
unfolding Paced main_loop
loop-Paced f itv l [] g = tt
loop-Paced f itv l (sigalrm true none ∷ signals) g = (l, tt)
loop-Paced f itv l (sigalrm false none ∷ signals) g = (l, tt)
loop-Paced f itv l (sigalrm true (some now) ∷ signals) g = (l, loop-Paced f itv l signals _)
loop-Paced f itv l (sigalrm false (some now) ∷ signals) g = (l, tt)
loop-Paced f itv l (sigrtmin ∷ signals) g = elim (Bool-cases (ltb g.c (2 ^ 31 - 1))) [
  | inl fits ↦ rw fits (loop-Paced f itv l signals (record g { c = g.c + 1 }))
  | inr over ↦ rw over tt
]
loop-Paced f itv l (sigint none ∷ signals) g = tt
loop-Paced f itv l (sigint (some now) ∷ signals) g = elim (Bool-cases g.jumped_the_gun) [
  | inl early ↦ rw early tt
  | inr late ↦ rw late (judged-Paced f g now [] tt)
]

-- No call of the set-up fails.
abbrev pub all_ok : Os
all_ok = record {
  expiry_trapped = true;
  interrupt_trapped = true;
  alarm_trapped = true;
  created = true;
}

pub play-main_loop :
    (random f : ℕ) (signals : List Signal)
    → 1 ≤ f
    → f * 1000000 < 2 ^ 63
    → play all_ok random (pos f) signals
      ≡ random_start 1 5 random
          (main_loop (record { it_value = period f; it_interval = period f }) signals new_game)
play-main_loop random f signals some_ms fits =
    let ge : ltb f 1 ≡ false = ground arith in
    let lt : ltb (f * 1000000) (2 ^ 63) ≡ true = ground arith in rw (ge, lt) refl
