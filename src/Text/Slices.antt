-- ===== src/Text/Slices.antt =====
-- Lengths and composition of `take` and `drop`.
use sp327_butt_k.Base.{
  ℕ, zero, suc, ◌+◌, ◌-◌, ◌<◌, ◌≡◌, refl, sym, ap, ◌∙◌, [], ◌∷◌, ◌++◌, arith, length, length-append,
  leb, if◌then◌else◌,
}
use sp327_butt_k.Text.{Text, take, drop}

-- The smaller number.
abbrev pub least : ℕ → ℕ → ℕ
least a b = if leb a b then a else b

pub length-take : (n : ℕ) (s : Text) → length (take n s) ≡ least n (length s)
length-take zero s = ground arith
length-take (suc n) [] = ground arith
length-take (suc n) (c ∷ s) = ground (arith, length-take n s)

pub length-drop : (n : ℕ) (s : Text) → length (drop n s) ≡ length s - n
length-drop zero s = omega arith
length-drop (suc n) [] = omega arith
length-drop (suc n) (c ∷ s) = omega (arith, length-drop n s)

pub take-drop : (n : ℕ) (s : Text) → take n s ++ drop n s ≡ s
take-drop zero s = refl
take-drop (suc n) [] = refl
take-drop (suc n) (c ∷ s) = ap (◌∷◌ c) (take-drop n s)

pub drop-nil : (n : ℕ) → ◌≡◌ {A = Text} (drop n []) []
drop-nil zero = refl
drop-nil (suc n) = refl

pub drop-short : (n : ℕ) (s : Text) → length (take n s) < n → drop n s ≡ []
drop-short zero s lt = absurd (omega arith)
drop-short (suc n) [] lt = refl
drop-short (suc n) (c ∷ s) lt = drop-short n s (omega arith)

pub drop-drop : (m n : ℕ) (s : Text) → drop n (drop m s) ≡ drop (m + n) s
drop-drop zero n s = let e : n ≡ 0 + n = omega arith in ap (λ k. drop k s) e
drop-drop (suc m) n [] = drop-nil n ∙ sym (drop-nil (suc m + n))
drop-drop (suc m) n (c ∷ s) =
    let e : suc (m + n) ≡ suc m + n = omega arith in drop-drop m n s ∙ ap (λ k. drop k (c ∷ s)) e

pub length-take-drop : (n : ℕ) (s : Text) → length (take n s) + length (drop n s) ≡ length s
length-take-drop n s = sym (length-append (take n s) (drop n s)) ∙ ap length (take-drop n s)

pub take-length : (s : Text) → take (length s) s ≡ s
take-length [] = refl
take-length (c ∷ s) = ap (◌∷◌ c) (take-length s)
