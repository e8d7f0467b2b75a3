-- ===== src/Factorial/Locked.antt =====
-- What the threads of ch15/facto.c print when they take the mutex.
use native.Mathlib.Nat.{add-mul-mod_self_left, mod-add-div, add-mul, mul_assoc}
use sp327_butt_k.Base.{
  ℕ, zero, suc, ◌+◌, ◌*◌, ◌/◌, ◌%◌, ◌^◌, ◌≡◌, refl, sym, ap, ◌∙◌, Bool, true, false, Option, none,
  some, List, [], ◌∷◌, ◌++◌, arith, ltb, if◌then◌else◌, ◌≤◌, pos,
}
use sp327_butt_k.Turns.{Action, unlock, act, System, run}
use sp327_butt_k.Turns.Locked.{Ends, last, more, both_ended}
use sp327_butt_k.Factorial.{
  Op, Own, print, perform, factorize_loop, factorize, number_of, idle, worker, opening, locking_of,
  closing, main,
}

unfoldable pub factorial : ℕ → ℕ
factorial zero = 1
factorial (suc n) = factorial n * suc n

mod-mul : (a b w : ℕ) → ((a % w) * b) % w ≡ (a * b) % w
mod-mul a b w =
    let whole : (a % w) * b + w * ((a / w) * b) ≡ a * b =
      ap (λ t. (a % w) * b + t) (sym (mul_assoc w (a / w) b))
      ∙ sym (add-mul (a % w) (w * (a / w)) b)
      ∙ ap (λ t. t * b) (mod-add-div a w) in
    sym (add-mul-mod_self_left ((a % w) * b) w ((a / w) * b)) ∙ ap (λ x. x % w) whole

module _ {Goal : Own → ℕ → Type 0} (rest : List (Action Op)) where
  -- From the factorial of `i` on, the loop goes on to that of `i + rounds`.
  loop-Ends :
      (rounds i : ℕ) (r : Own) (g : ℕ)
      → g ≡ factorial i % 2 ^ 64
      → ((q : Own) (h : ℕ) → h ≡ factorial (i + rounds) % 2 ^ 64 → Ends perform Goal rest q h)
      → Ends perform Goal (factorize_loop rounds (suc i) ++ rest) r g
  unfolding factorize_loop factorial
  loop-Ends zero i r g e go =
      let same : i + 0 ≡ i = omega arith in go r g (e ∙ ap (λ k. factorial k % 2 ^ 64) (sym same))
  loop-Ends (suc rounds) i r g e go =
      let next : suc i + 1 ≡ suc (suc i) = omega arith in
      let stays : suc i + rounds ≡ i + suc rounds = omega arith in
      let product : (g * suc i) % 2 ^ 64 ≡ factorial (suc i) % 2 ^ 64 =
        ap (λ x. (x * suc i) % 2 ^ 64) e ∙ mod-mul (factorial i) (suc i) (2 ^ 64) in
      more (
        more (
          rw next (
            loop-Ends rounds (suc i) (record r { loaded = g }) ((g * suc i) % 2 ^ 64) product
              λ q h f. go q h (f ∙ ap (λ k. factorial k % 2 ^ 64) stays))))

abbrev inside : Bool → List (Action Op)
inside me = factorize (pos (number_of me)) ++ (act print ∷ unlock ∷ [])

-- Nothing is claimed of the shared variable.
abbrev Any : (f g : Bool) → ℕ → Type 0
Any f g v = v ≡ v

abbrev Printed : Bool → Own → Type 0
Printed me r = r.printed ≡ some (factorial (number_of me))

worker_Ends :
    {Goal : Own → ℕ → Type 0} (me : Bool) (r : Own) (g : ℕ)
    → ((q : Own) (h : ℕ) → Printed me q → Goal q h)
    → Ends perform Goal (inside me) r g
unfolding factorize factorial
worker_Ends true r g goal =
    more (
      loop-Ends (act print ∷ unlock ∷ []) 10 0 r 1 refl λ q h e. more (last (goal _ h (ap some e))))
worker_Ends false r g goal =
    more (
      loop-Ends (act print ∷ unlock ∷ []) 12 0 r 1 refl λ q h e. more (last (goal _ h (ap some e))))

abbrev or_opening : Option (System ℕ Own Op) → System ℕ Own Op
or_opening none = opening true
or_opening (some s) = s

-- With the mutex, whatever the schedule: once both threads have ended, the first has printed the
-- factorial of 10, and the second that of 12.
pub locked_factorials :
    (argc : ℕ) (schedule : List Bool) (s : System ℕ Own Op)
    → 2 ≤ argc
    → main argc (pos 1) schedule ≡ some s
    → s.first.code ≡ []
    → s.second.code ≡ []
    → (s.first.own.printed ≡ some (factorial 10)) × (s.second.own.printed ≡ some (factorial 12))
unfolding main locking_of opening worker
locked_factorials argc schedule s args e x y =
    let enough : ltb argc 2 ≡ false = ground arith in
    let same : some (run perform schedule (opening true)) ≡ some s =
      sym (ap (λ (b : Bool). closing (if b then none else some true) schedule) enough) ∙ e in
    let both =
      both_ended perform inside Any Printed
        (λ g r v p. worker_Ends true r v (λ q h printed. (printed, refl)))
        (λ f r v p. worker_Ends false r v (λ q h printed. (printed, refl))) schedule 1 idle idle s
        refl (ap or_opening same) x y in
    (both.0, both.1)
