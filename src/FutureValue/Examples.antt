-- ===== src/FutureValue/Examples.antt =====
-- The table in full, with natural numbers for `double`.
use sp327_butt_k.Base.{pos, ltb, List, [], ◌∷◌, ℕ, ◌+◌, ◌-◌, ◌*◌, ◌/◌, ◌≤◌, ◌≡◌, refl, some}
use sp327_butt_k.FutureValue.{
  Arithmetic, State, Row, monthly_rate, month, round, months_loop, calculate_future_value,
}
use sp327_butt_k.Text.{Text, codes, digits_value}
use sp327_butt_k.FutureValue.Input.{
  Reader, Input, parse_input, parse_arguments, parse_double, parse_years, is_valid_number,
  all_number_chars, main,
}
use sp327_butt_k.FutureValue.Program.{table, main-table}
use sp327_butt_k.FutureValue.Rows.{row_at}

abbrev whole_numbers : Arithmetic ℕ
whole_numbers = record {
  of_int = λ n. n;
  add = λ a b. a + b;
  sub = λ a b. a - b;
  mul = λ a b. a * b;
  div = λ a b. a / b;
}

abbrev empty_table : ℕ → Row ℕ
empty_table y = (0, 0)

-- A monthly rate of 1 doubles the value each month after the investment: 2, 6, 14, ..., 8190.
one_year :
    (s : State whole_numbers) × (calculate_future_value whole_numbers 1 1200 1 empty_table ≡ some s)
    × (s.results 0 ≡ (8178, 8190))
unfolding calculate_future_value months_loop round month
one_year = (record { value = 8190; results = _ }, refl, refl)

-- Decimal digits only, with no limit.
abbrev whole_reader : Reader ℕ
whole_reader = record {
  strtod = λ s. (digits_value 0 s, []);
  strtol = λ s. (pos (digits_value 0 s), []);
  less = λ d n. ltb d n;
  greater = λ d n. ltb n d;
}

-- The conversion to `int` drops the higher half of a `long`.
large_years : parse_years whole_reader (codes "4294967297") ≡ some 1
unfolding parse_years is_valid_number all_number_chars digits_value
large_years = refl

abbrev input : Input ℕ
input = record { monthly_investment = 100; annual_interest_rate = 12; years = 2 }

abbrev argv : List Text
argv = codes "future_value" ∷ codes "100" ∷ codes "12" ∷ codes "2" ∷ []

argv_accepted : parse_input whole_reader argv ≡ some input
unfolding parse_input parse_arguments parse_double parse_years is_valid_number all_number_chars
    digits_value
argv_accepted = refl

main-table_example :
    (1 ≤ 2)
    × (2 ≤ 50)
    × (main whole_numbers whole_reader argv
        ≡ some (record {
          input = input;
          future_value = (row_at whole_numbers 100 (monthly_rate whole_numbers 12) 1).1;
          rows = table (row_at whole_numbers 100 (monthly_rate whole_numbers 12)) 2 0;
        }))
main-table_example = main-table whole_numbers whole_reader argv input argv_accepted
