-- ===== src/FutureValue/Program.antt =====
-- What the program prints for the arguments that it accepts.
use sp327_butt_k.Base.{
  ℕ, zero, suc, ◌+◌, ◌-◌, ◌≤◌, ◌<◌, ◌≡◌, refl, ap, ◌∙◌, Bool, true, false, Option, none, some,
  and_then, List, [], ◌∷◌, arith, if◌then◌else◌, ℤ, pos, negsuc, to_int,
}
use sp327_butt_k.Text.{Text}
use sp327_butt_k.FutureValue.{Arithmetic, Row, State, monthly_rate}
use sp327_butt_k.FutureValue.Rows.{row_at, calculate_future_value-Filled}
use sp327_butt_k.FutureValue.Input.{
  Reader, Input, years_in_range, accept_years, parse_double, together, parse_years, parse_arguments,
  parse_input, display_loop, display_results, zeros, calculate_and_display, main, is_valid_number,
}

Bounded : ℕ → Type 0
Bounded n = (1 ≤ n) × (n ≤ 50)

years_in_range-Bounded : (k : ℤ) (n : ℕ) → years_in_range k ≡ some n → Bounded n
unfolding Bounded
years_in_range-Bounded (pos k) n e = ground (arith, e)
years_in_range-Bounded (negsuc k) n e = cc

accept_years-Bounded : (t : ℤ × Text) (n : ℕ) → accept_years t ≡ some n → Bounded n
accept_years-Bounded (k, []) n e = years_in_range-Bounded (to_int k) n e
accept_years-Bounded (k, c ∷ rest) n e = cc

together_years :
    {D : Type 0} (m a : Option D) (n : Option ℕ) (input : Input D)
    → together m a n ≡ some input
    → n ≡ some input.years
together_years none a n input e = cc
together_years (some m) none n input e = cc
together_years (some m) (some a) none input e = cc
together_years {D} (some m) (some a) (some n) input e =
    ap (λ o. and_then (λ (i : Input D). some i.years) o) e

module _ {D : Type 0} (r : Reader D) where
  parse_years-Bounded : (s : Text) (n : ℕ) → parse_years r s ≡ some n → Bounded n
  unfolding parse_years
  parse_years-Bounded s n e = chosen (is_valid_number s) e
    where
      chosen : (b : Bool) → (if b then accept_years (r.strtol s) else none) ≡ some n → Bounded n
      chosen true e = accept_years-Bounded (r.strtol s) n e
      chosen false e = cc

  parse_arguments-Bounded :
      (a b c : Text) (input : Input D) → parse_arguments r a b c ≡ some input → Bounded input.years
  unfolding parse_arguments
  parse_arguments-Bounded a b c input e =
      parse_years-Bounded c input.years
        (together_years (parse_double r 1 1000 a) (parse_double r 1 15 b) (parse_years r c) input e)

  parse_input-Bounded :
      (argv : List Text) (input : Input D) → parse_input r argv ≡ some input → Bounded input.years
  unfolding parse_input
  parse_input-Bounded [] input e = cc
  parse_input-Bounded (p ∷ []) input e = cc
  parse_input-Bounded (p ∷ a ∷ []) input e = cc
  parse_input-Bounded (p ∷ a ∷ b ∷ []) input e = cc
  parse_input-Bounded (p ∷ a ∷ b ∷ c ∷ []) input e = parse_arguments-Bounded a b c input e
  parse_input-Bounded (p ∷ a ∷ b ∷ c ∷ d ∷ rest) input e = cc

-- The table as it should be printed: the line of each year with its row.
pub table : {D : Type 0} → (ℕ → Row D) → (rounds i : ℕ) → List (ℕ × Row D)
table row zero i = []
table row (suc rounds) i = (i + 1, row i) ∷ table row rounds (i + 1)

display_loop-table :
    {D : Type 0} (row results : ℕ → Row D) (rounds i : ℕ)
    → ((y : ℕ) → i ≤ y → y < i + rounds → results y ≡ row y)
    → display_loop rounds i results ≡ table row rounds i
unfolding display_loop table
display_loop-table row results zero i same = refl
display_loop-table row results (suc rounds) i same = rw (
  same i (omega arith) (omega arith),
  display_loop-table row results rounds (i + 1) (λ y le lt. same y (omega arith) (omega arith)),
)

-- For every command line that `parse_input` accepts, whatever `strtod` and `strtol` give, the number of
-- years is from 1 to 50, no write is outside the table, and the program prints the row of every year in
-- order, and as the final value that of the last year.
pub main-table :
    {D : Type 0} (num : Arithmetic D) (r : Reader D) (argv : List Text) (input : Input D)
    → parse_input r argv ≡ some input
    → (1 ≤ input.years)
      × (input.years ≤ 50)
      × (main num r argv
          ≡ some (record {
            input = input;
            future_value =
                (row_at num input.monthly_investment
                  (monthly_rate num input.annual_interest_rate)
                  (input.years - 1)).1;
            rows =
                table
                  (row_at num input.monthly_investment
                    (monthly_rate num input.annual_interest_rate))
                  input.years
                  0;
          }))
unfolding main display_results Bounded
main-table num r argv input e =
    let (one, fifty) = parse_input-Bounded r argv input e in
    let row = row_at num input.monthly_investment (monthly_rate num input.annual_interest_rate) in
    let (s, runs, filled, kept) =
      calculate_future_value-Filled num input.monthly_investment input.annual_interest_rate
        input.years (zeros num) fifty in
    (
      one,
      fifty,
      ap (and_then (calculate_and_display num)) e
          ∙ ap (and_then (λ (t : State num). some (display_results input t.results))) runs
          ∙ ap
              (λ (last : Row _). some (record {
                input = input;
                future_value = last.1;
                rows = display_loop input.years 0 s.results;
              }))
              (filled (input.years - 1) (omega arith))
          ∙ ap
              (λ rows.
                some
                  (record { input = input; future_value = (row (input.years - 1)).1; rows = rows }))
              (display_loop-table row s.results input.years 0 (λ y le lt. filled y (omega arith))),
    )
