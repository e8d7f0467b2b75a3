-- ===== src/Text/Span.antt =====
-- Where `span`, `scan_word`, `strchr` and `strstr` stop.
use sp327_butt_k.Base.{
  ap, ◌∙◌, ℕ, ◌≡◌, refl, Bool, true, false, some, [], ◌∷◌, ◌++◌, arith, All, ◌==◌,
}
use sp327_butt_k.Text.{nonempty, Text, is_space, is_solid, span, skip_spaces, scan_word, strchr}

-- The rest of a text does not go on with a character that passes the test.
abbrev pub Stops : (ℕ → Bool) → Text → Type 0
Stops p [] = Unit {0}
Stops p (c ∷ s) = p c ≡ false

pub span-append :
    (p : ℕ → Bool) (w r : Text) → All (λ c. p c ≡ true) w → Stops p r → span p (w ++ r) ≡ (w, r)
unfolding span
span-append p [] [] all stop = refl
span-append p [] (c ∷ r) all stop = rw stop
span-append p (c ∷ w) r all stop = rw (all.0, span-append p w r all.1 stop)

-- A word at the front of the text.
pub scan_word-append :
    (c : ℕ) (w r : Text)
    → All (λ d. is_solid d ≡ true) (c ∷ w)
    → Stops is_solid r
    → scan_word ((c ∷ w) ++ r) ≡ some (c ∷ w, r)
unfolding scan_word skip_spaces
scan_word-append c w r all stop =
    let solid : is_space c ≡ false = ground (arith, all.0) in
    let here : span is_space ((c ∷ w) ++ r) ≡ ([], (c ∷ w) ++ r) =
      span-append is_space [] _ tt solid in
    ap (λ (t : Text × Text). nonempty (span is_solid t.1)) here
    ∙ ap nonempty (span-append is_solid (c ∷ w) r all stop)

-- A word behind one space.
pub scan_word-space :
    (c : ℕ) (w r : Text)
    → All (λ d. is_solid d ≡ true) (c ∷ w)
    → Stops is_solid r
    → scan_word (32 ∷ ((c ∷ w) ++ r)) ≡ some (c ∷ w, r)
unfolding scan_word skip_spaces
scan_word-space c w r all stop =
    let solid : is_space c ≡ false = ground (arith, all.0) in
    let here : span is_space (32 ∷ ((c ∷ w) ++ r)) ≡ (32 ∷ [], (c ∷ w) ++ r) =
      span-append is_space (32 ∷ []) _ (refl, tt) solid in
    ap (λ (t : Text × Text). nonempty (span is_solid t.1)) here
    ∙ ap nonempty (span-append is_solid (c ∷ w) r all stop)

pub strchr-append :
    (c : ℕ) (w r : Text) → All (λ d. (c == d) ≡ false) w → strchr c (w ++ c ∷ r) ≡ some (c ∷ r)
unfolding strchr
strchr-append c [] r all = ground arith
strchr-append c (d ∷ w) r all = rw all.0 (strchr-append c w r all.1)
