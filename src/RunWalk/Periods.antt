-- ===== src/RunWalk/Periods.antt =====
-- The periods for which runwalk_timer.c arms its timer.
use sp327_butt_k.Base.{
  sym, ◌∙◌, ℕ, zero, suc, ◌≡◌, refl, ap, Bool, true, false, ◌&&◌, not, ◌==◌, Option, none, some,
  List, [], ◌∷◌, ◌++◌, arith, if◌then◌else◌, ℤ,
}
use sp327_butt_k.RunWalk.{
  both_positive, seconds_of, verbosity, Kind, run, walk, Event, buzz, arm, Outcome, success, Signal,
  expiry, round, interrupt, main_loop, Os, Settings, main, start, settings_of, arguments,
  both_positive, Reader,
}
use sp327_butt_k.Text.{Text}

-- The seconds for which the timer is armed, one arming after the other.
unfoldable pub armings : List Event → List ℤ
armings [] = []
armings (buzz next seconds ∷ events) = armings events
armings (arm seconds ∷ events) = seconds ∷ armings events

-- `n` periods in turn, the first of length `a`.
unfoldable pub alternate : ℕ → (a b : ℤ) → List ℤ
alternate zero a b = []
alternate (suc n) a b = a ∷ alternate n b a

unfoldable pub expiries : List Signal → ℕ
expiries [] = 0
expiries (expiry armed ∷ signals) = suc (expiries signals)
expiries (round read ∷ signals) = expiries signals
expiries (interrupt ∷ signals) = expiries signals

-- A signal on which no call fails, and which is not ^C.
abbrev works : Signal → Bool
works (expiry armed) = armed
works (round read) = read
works interrupt = false

unfoldable pub all_work : List Signal → Bool
all_work [] = true
all_work (s ∷ signals) = works s && all_work signals

-- The length of the next period, and of the one after it, in a period of this kind.
abbrev next_period : Kind → (trun twalk : ℤ) → ℤ
next_period run trun twalk = twalk
next_period walk trun twalk = trun

abbrev later_period : Kind → (trun twalk : ℤ) → ℤ
later_period run trun twalk = trun
later_period walk trun twalk = twalk

-- The outcome of a program that ends with success after arming the timer for these periods.
unfoldable pub Ends : Outcome → List ℤ → Type 0
Ends o periods = (armings o.events ≡ periods) × (o.exit ≡ success)

-- The loop up to a first ^C.
loop-Ends :
    (verbose : ℕ) (signals more : List Signal) (k : Kind) (a b c : ℤ)
    → all_work signals ≡ true
    → Ends
        (main_loop verbose
          (signals ++ interrupt ∷ more)
          (record { trun = a; twalk = b; type = k; tv_sec = c }))
        (alternate (expiries signals) (next_period k a b) (later_period k a b))
unfolding Ends main_loop armings alternate expiries all_work
loop-Ends v [] more k a b c e = (refl, refl)
loop-Ends v (interrupt ∷ signals) more k a b c e = cc
loop-Ends v (round true ∷ signals) more k a b c e =
    let quiet : ((v == 2) && not true) ≡ false = ground arith in
    rw quiet (loop-Ends v signals more k a b c e)
loop-Ends v (round false ∷ signals) more k a b c e = cc
loop-Ends v (expiry false ∷ signals) more k a b c e = cc
loop-Ends v (expiry true ∷ signals) more walk a b c e =
    let ih = loop-Ends v signals more run a b a e in (ap (λ t. a ∷ t) ih.0, ih.1)
loop-Ends v (expiry true ∷ signals) more run a b c e =
    let ih = loop-Ends v signals more walk a b b e in (ap (λ t. b ∷ t) ih.0, ih.1)

-- No call of the set-up fails.
abbrev pub all_ok : Os
all_ok = record {
  interrupt_trapped = true;
  allocated = true;
  expiry_trapped = true;
  created = true;
  armed = true;
}

start-Ends :
    (s : Settings) (signals more : List Signal)
    → all_work signals ≡ true
    → Ends
        (start all_ok s (signals ++ interrupt ∷ more))
        (alternate (suc (expiries signals)) s.trun s.twalk)
unfolding Ends alternate armings
start-Ends s signals more w =
    let ih = loop-Ends s.verbose signals more run s.trun s.twalk s.trun w in
    (ap (λ t. s.trun ∷ t) ih.0, ih.1)

abbrev both_positive_if : Option Settings → Bool
both_positive_if none = true
both_positive_if (some s) = both_positive s.trun s.twalk

guarded-both_positive :
    (b : Bool) (t s : Settings)
    → both_positive t.trun t.twalk ≡ b
    → (if b then some t else none) ≡ some s
    → both_positive s.trun s.twalk ≡ true
guarded-both_positive true t s p e = sym (ap both_positive_if e) ∙ p
guarded-both_positive false t s p e = cc

settings_of-both_positive :
    (v : Option ℕ) (a b : Option ℤ) (s : Settings)
    → settings_of v a b ≡ some s
    → both_positive s.trun s.twalk ≡ true
settings_of-both_positive (some v) (some a) (some b) s e =
    guarded-both_positive (both_positive a b) (record { verbose = v; trun = a; twalk = b }) s refl e
settings_of-both_positive (some v) (some a) none s e = cc
settings_of-both_positive (some v) none b s e = cc
settings_of-both_positive none a b s e = cc

arguments-both_positive :
    (r : Reader) (argv : List Text) (s : Settings)
    → arguments r argv ≡ some s
    → both_positive s.trun s.twalk ≡ true
unfolding arguments
arguments-both_positive r (program ∷ trun ∷ twalk ∷ more) s e =
    settings_of-both_positive (verbosity r more) (seconds_of (r.strtoul trun))
      (seconds_of (r.strtoul twalk)) s e
arguments-both_positive r (program ∷ trun ∷ []) s e = cc
arguments-both_positive r (program ∷ []) s e = cc
arguments-both_positive r [] s e = cc

-- The arguments are accepted and no call fails: up to the first ^C the timer is armed once at the start
-- and once at each expiry, for the running and the walking time in turn, both of them positive, and ^C
-- ends the program with success.
pub main-alternate :
    (r : Reader) (argv : List Text) (s : Settings) (signals more : List Signal)
    → arguments r argv ≡ some s
    → all_work signals ≡ true
    → Ends
        (main all_ok r argv (signals ++ interrupt ∷ more))
        (alternate (suc (expiries signals)) s.trun s.twalk)
      × (both_positive s.trun s.twalk ≡ true)
unfolding main
main-alternate r argv s signals more accepted w =
    (rw accepted (start-Ends s signals more w), arguments-both_positive r argv s accepted)
