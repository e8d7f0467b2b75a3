-- ===== src/FutureValue/Input.antt =====
-- The arguments and `main` of M2/future_value.c. `strtod`, `strtol` and the comparisons of a `double`
-- with a whole number are the parameter `Reader`.
use sp327_butt_k.Base.{
  ℕ, zero, suc, ◌+◌, ◌-◌, Bool, true, false, Option, none, some, and_then, ◌==◌, ltb, ◌||◌, not,
  List, [], ◌∷◌, if◌then◌else◌, ℤ, pos, negsuc, to_int,
}
use sp327_butt_k.Text.{Text, is_digit}
use sp327_butt_k.FutureValue.{Arithmetic, Row, State, calculate_future_value}

-- `is_valid_number`: not empty, and only digits, points and minus signs.
abbrev pub is_number_char : ℕ → Bool
is_number_char c = is_digit c || (c == 46 || c == 45)

unfoldable pub all_number_chars : Text → Bool
all_number_chars [] = true
all_number_chars (c ∷ s) =
    let rest = all_number_chars s in if not (is_number_char c) then false else rest

abbrev pub is_empty : Text → Bool
is_empty [] = true
is_empty (c ∷ s) = false

unfoldable pub is_valid_number : Text → Bool
is_valid_number s = if is_empty s then false else all_number_chars s

-- The value and the text behind the number.
pub record Reader (D : Type 0) : Type 0 where
  pub strtod : Text → D × Text
  pub strtol : Text → ℤ × Text
  pub less : D → ℕ → Bool
  pub greater : D → ℕ → Bool

abbrev pub years_in_range : ℤ → Option ℕ
years_in_range (pos n) = if ltb n 1 || ltb 50 n then none else some n
years_in_range (negsuc n) = none

abbrev pub accept_years : ℤ × Text → Option ℕ
accept_years (n, []) = years_in_range (to_int n)
accept_years (n, c ∷ rest) = none

pub record Input (D : Type 0) : Type 0 where
  pub monthly_investment : D
  pub annual_interest_rate : D
  pub years : ℕ

-- All three arguments are valid, or the program ends with a message.
abbrev pub together : {D : Type 0} → Option D → Option D → Option ℕ → Option (Input D)
together none a n = none
together (some m) none n = none
together (some m) (some a) none = none
together (some m) (some a) (some n) =
    some (record { monthly_investment = m; annual_interest_rate = a; years = n })

module _ {D : Type 0} (r : Reader D) where
  abbrev pub accept_double : (lo hi : ℕ) → D × Text → Option D
  accept_double lo hi (d, []) = if r.less d lo || r.greater d hi then none else some d
  accept_double lo hi (d, c ∷ rest) = none

  unfoldable pub parse_double : (lo hi : ℕ) → Text → Option D
  parse_double lo hi s = if is_valid_number s then accept_double lo hi (r.strtod s) else none

  unfoldable pub parse_years : Text → Option ℕ
  parse_years s = if is_valid_number s then accept_years (r.strtol s) else none

  unfoldable pub parse_arguments : (investment rate years : Text) → Option (Input D)
  parse_arguments investment rate years =
      together (parse_double 1 1000 investment) (parse_double 1 15 rate) (parse_years years)

  -- `parse_input` on `argv`, the program's name included; `none` where it returns 1.
  unfoldable pub parse_input : List Text → Option (Input D)
  parse_input (program ∷ investment ∷ rate ∷ years ∷ []) = parse_arguments investment rate years
  parse_input _ = none

-- What `display_results` prints.
pub record Display (D : Type 0) : Type 0 where
  pub input : Input D
  pub future_value : D
  pub rows : List (ℕ × Row D)

-- The loop of `display_results`, with its line numbers.
unfoldable pub display_loop : {D : Type 0} → (rounds i : ℕ) → (ℕ → Row D) → List (ℕ × Row D)
display_loop zero i results = []
display_loop (suc rounds) i results = (i + 1, results i) ∷ display_loop rounds (i + 1) results

unfoldable pub display_results : {D : Type 0} → Input D → (ℕ → Row D) → Display D
display_results input results = record {
  input = input;
  future_value = (results (input.years - 1)).1;
  rows = display_loop input.years 0 results;
}

module _ {D : Type 0} (num : Arithmetic D) where
  abbrev pub zeros : ℕ → Row D
  zeros year = (num.of_int 0, num.of_int 0)

  abbrev pub calculate_and_display : Input D → Option (Display D)
  calculate_and_display input =
      and_then (λ (s : State num). some (display_results input s.results))
        (calculate_future_value num input.monthly_investment input.annual_interest_rate input.years
          zeros)

  unfoldable pub main : Reader D → List Text → Option (Display D)
  main r argv = and_then calculate_and_display (parse_input r argv)
