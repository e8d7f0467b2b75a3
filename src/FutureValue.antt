-- ===== src/FutureValue.antt =====
-- M2/future_value.c: the table of the value of monthly investments, year by year. The arithmetic of
-- `double` is the parameter `Arithmetic`, of which no law is used.
pub mod Rows
pub mod Input
pub mod Program
mod Examples
use sp327_butt_k.Base.{
  ℕ, zero, suc, ◌+◌, ◌-◌, ◌*◌, ◌/◌, ◌%◌, Bool, true, false, Option, none, some, and_then, ◌==◌, ltb,
  leb, ◌&&◌, ◌||◌, not, [], ◌∷◌, if◌then◌else◌,
}
use sp327_butt_k.Text.{Text, is_digit}
use sp327_butt_k.Pool.Family.{update}

pub record Arithmetic (D : Type 0) : Type 0 where
  pub of_int : ℕ → D
  pub add : D → D → D
  pub sub : D → D → D
  pub mul : D → D → D
  pub div : D → D → D

-- A row of `results`: the interest so far and the value.
abbrev pub Row : Type 0 → Type 0
Row D = D × D

module _ {D : Type 0} (num : Arithmetic D) where
  -- One month: the investment, then the interest on the sum.
  unfoldable pub month : (investment rate value : D) → D
  month investment rate value =
      let value = num.add value investment in num.add value (num.mul value rate)

  -- `future_value` and `results`.
  pub record State : Type 0 where
    pub value : D
    pub results : ℕ → Row D

  -- A write to `results[year]`; `none`: there are 50 rows.
  abbrev pub set_row : (year : ℕ) → Row D → State → Option State
  set_row year row s =
      if ltb year 50 then some (record s { results = update s.results year row }) else none

  -- The two entries of `results[year - 1]`.
  abbrev pub row_of : (investment value : D) → (year : ℕ) → Row D
  row_of investment value year =
      (num.sub value (num.mul (num.mul investment (num.of_int 12)) (num.of_int year)), value)

  -- The body of the `for`.
  unfoldable pub round : (investment rate : D) → (i : ℕ) → State → Option State
  round investment rate i s =
      let t = record s { value = month investment rate s.value } in
      if (i + 1) % 12 == 0
      then set_row ((i + 1) / 12 - 1) (row_of investment t.value ((i + 1) / 12)) t
      else some t

  -- The `for` with `rounds` rounds left.
  unfoldable pub months_loop : (investment rate : D) → (rounds i : ℕ) → State → Option State
  months_loop investment rate zero i s = some s
  months_loop investment rate (suc rounds) i s =
      and_then (λ t. months_loop investment rate rounds (i + 1) t) (round investment rate i s)

  -- `annual_interest_rate / 12 / 100`
  abbrev pub monthly_rate : (annual : D) → D
  monthly_rate annual = num.div (num.div annual (num.of_int 12)) (num.of_int 100)

  unfoldable pub calculate_future_value :
      (investment annual : D) → (years : ℕ) → (ℕ → Row D) → Option State
  calculate_future_value investment annual years results =
      months_loop investment (monthly_rate annual) (years * 12) 0
        (record { value = num.of_int 0; results = results })
