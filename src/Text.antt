-- ===== src/Text.antt =====
-- The C string functions that http_proxy.c uses, over lists of character codes with no NUL.
pub mod Span
pub mod Slices
use sp327_butt_k.Base.{
  ℕ, zero, suc, ◌+◌, ◌-◌, ◌*◌, ◌≡◌, Bool, true, false, not, ◌&&◌, ◌||◌, Option, none, some, List,
  [], ◌∷◌, ◌++◌, ◌==◌, leb, ltb, length, if◌then◌else◌,
}
use Prim.Native.Char.{code}
use Prim.Native.String.{String}

abbrev pub Text : Type 0
Text = List ℕ

-- The codes of a literal.
abbrev pub codes : String → Text
codes String.[] = []
codes (String.◌∷◌ c s) = code c ∷ codes s

-- `isspace` and `isdigit` in the C locale.
abbrev pub is_space : ℕ → Bool
is_space c = (c == 32) || (leb 9 c && leb c 13)

abbrev pub is_digit : ℕ → Bool
is_digit c = leb 48 c && leb c 57

abbrev pub is_solid : ℕ → Bool
is_solid c = not (is_space c)

-- The longest prefix whose characters pass the test, and the rest.
unfoldable pub span : (ℕ → Bool) → Text → Text × Text
span p [] = ([], [])
span p (c ∷ s) = if p c then (c ∷ (span p s).0, (span p s).1) else ([], c ∷ s)

unfoldable pub skip_spaces : Text → Text
skip_spaces s = (span is_space s).1

-- A conversion needs at least one character.
abbrev pub nonempty : Text × Text → Option (Text × Text)
nonempty ([], r) = none
nonempty (c ∷ w, r) = some (c ∷ w, r)

-- `%s`: the next word and the rest; `none` if the text ends first.
unfoldable pub scan_word : Text → Option (Text × Text)
scan_word s = nonempty (span is_solid (skip_spaces s))

-- The first `n` characters (`strncpy`, `snprintf` and `%255[` cut the text so).
abbrev pub take : ℕ → Text → Text
take zero s = []
take (suc n) [] = []
take (suc n) (c ∷ s) = c ∷ take n s

abbrev pub drop : ℕ → Text → Text
drop zero s = s
drop (suc n) [] = []
drop (suc n) (c ∷ s) = drop n s

-- The byte at an index of a string; NUL behind its end.
abbrev pub char_at : Text → ℕ → ℕ
char_at [] i = 0
char_at (c ∷ s) zero = c
char_at (c ∷ s) (suc i) = char_at s i

-- `strncmp(s, p, strlen(p)) == 0`
abbrev pub starts_with : Text → Text → Bool
starts_with [] s = true
starts_with (c ∷ p) [] = false
starts_with (c ∷ p) (d ∷ s) = (c == d) && starts_with p s

-- `strchr(s, c)`: the text from the first `c` on.
unfoldable pub strchr : ℕ → Text → Option Text
strchr c [] = none
strchr c (d ∷ s) = if c == d then some (d ∷ s) else strchr c s

-- `strstr(s, p)`: the text from the first occurrence of `p` on.
unfoldable pub strstr : Text → Text → Option Text
strstr p [] = if starts_with p [] then some [] else none
strstr p (d ∷ s) = if starts_with p (d ∷ s) then some (d ∷ s) else strstr p s

-- The number that decimal digits stand for, read from the left behind `acc`.
unfoldable pub digits_value : ℕ → Text → ℕ
digits_value acc [] = acc
digits_value acc (c ∷ s) = digits_value (acc * 10 + (c - 48)) s
