-- ===== src/FutureValue/Rows.antt =====
-- What `calculate_future_value` leaves in the table.
use sp327_butt_k.Base.{
  ℕ, zero, suc, ◌+◌, ◌-◌, ◌*◌, ◌/◌, ◌%◌, ◌≤◌, ◌<◌, ◌≡◌, refl, sym, ap, ◌∙◌, true, false, some, ◌==◌,
  ltb, arith, Bool-cases, ◌⊎◌, ◌≢◌, inl, inr,
}
use sp327_butt_k.Pool.Family.{update}
use sp327_butt_k.FutureValue.{
  Arithmetic, Row, State, month, row_of, and_then, round, months_loop, calculate_future_value,
  monthly_rate,
}

-- A month ends a year, or it does not.
year_end : (i : ℕ) → ((y : ℕ) → i + 1 ≢ 12 * (y + 1)) ⊎ ((y : ℕ) × i + 1 ≡ 12 * (y + 1))
year_end i = elim (compare ((i + 1) % 12)) [
  | inl e ↦ inr ((i + 1) / 12 - 1, omega (arith, e))
  | inr e ↦ inl (λ y f. omega (arith, e, f))
]
  where
    compare : (n : ℕ) → (n ≡ 0) ⊎ (n ≢ 0)
    compare zero = inl refl
    compare (suc n) = inr (λ e. omega (arith, e))

no_year : (i : ℕ) → ((y : ℕ) → i + 1 ≢ 12 * (y + 1)) → ((i + 1) % 12 == 0) ≡ false
no_year i e = elim (Bool-cases ((i + 1) % 12 == 0)) [
  | inl year ↦
      let zero_left : (i + 1) % 12 ≡ 0 = ground (arith, year) in
      absurd (e ((i + 1) / 12 - 1) (omega (arith, zero_left)))
  | inr other ↦ other
]

module _ {D : Type 0} (num : Arithmetic D) (investment rate : D) where
  -- The value after `n` months.
  pub value_after : ℕ → D
  value_after zero = num.of_int 0
  value_after (suc n) = month num investment rate (value_after n)

  value_after-next : (i : ℕ) → month num investment rate (value_after i) ≡ value_after (i + 1)
  unfolding value_after
  value_after-next i = let e : suc i ≡ i + 1 = omega arith in ap value_after e

  -- The row for the year with index `y`.
  pub row_at : ℕ → Row D
  row_at y = row_of num investment (value_after (12 * (y + 1))) (y + 1)

  abbrev at : ℕ → (ℕ → Row D) → State num
  at i results = record { value = value_after i; results = results }

  round-year :
      (i y : ℕ) (results : ℕ → Row D)
      → i + 1 ≡ 12 * (y + 1)
      → y < 50
      → round num investment rate i (at i results) ≡ some (at (i + 1) (update results y (row_at y)))
  unfolding round row_at
  round-year i y results e lt =
      let test : ((i + 1) % 12 == 0) ≡ true = ground (arith, e) in
      let index : (i + 1) / 12 - 1 ≡ y = omega (arith, e) in
      let year : (i + 1) / 12 ≡ y + 1 = omega (arith, e) in
      let fits : ltb y 50 ≡ true = ground (arith, lt) in
      let value : value_after (12 * (y + 1)) ≡ value_after (i + 1) = ap value_after (sym e) in
      rw (test, index, year, fits, value_after-next i, value)

  round-month :
      (i : ℕ) (results : ℕ → Row D)
      → ((i + 1) % 12 == 0) ≡ false
      → round num investment rate i (at i results) ≡ some (at (i + 1) results)
  unfolding round
  round-month i results e = rw (e, value_after-next i)

  -- The table after the months from `i` on, `k` of them.
  pub record Filled (i k : ℕ) (before after : ℕ → Row D) : Type 0 where
    pub written : (y : ℕ) → i < 12 * (y + 1) → 12 * (y + 1) ≤ i + k → after y ≡ row_at y
    pub kept : (y : ℕ) → 12 * (y + 1) ≤ i ⊎ i + k < 12 * (y + 1) → after y ≡ before y

  Runs : (i k : ℕ) → (ℕ → Row D) → Type 0
  Runs i k results =
      (after : ℕ → Row D) × (months_loop num investment rate k i (at i results)
        ≡ some (at (i + k) after))
      × Filled i k results after

  continue :
      (k i : ℕ) (results between after : ℕ → Row D)
      → round num investment rate i (at i results) ≡ some (at (i + 1) between)
      → months_loop num investment rate k (i + 1) (at (i + 1) between) ≡ some (at (i + 1 + k) after)
      → months_loop num investment rate (suc k) i (at i results) ≡ some (at (i + suc k) after)
  unfolding months_loop
  continue k i results between after one rest =
      let count : i + 1 + k ≡ i + suc k = omega arith in
      ap (and_then (λ t. months_loop num investment rate k (i + 1) t)) one
      ∙ rest
      ∙ ap (λ j. some (at j after)) count

  Filled-month :
      (k i : ℕ) (results after : ℕ → Row D)
      → ((y : ℕ) → i + 1 ≢ 12 * (y + 1))
      → Filled (i + 1) k results after
      → Filled i (suc k) results after
  Filled-month k i results after e filled = record {
    written = λ y above below. filled.written y (omega (arith, e y)) (omega arith);
    kept = λ y out.
        filled.kept y (elim out [ inl le ↦ inl (omega arith) | inr lt ↦ inr (omega arith) ]);
  }

  Filled-year :
      (k i y : ℕ) (results after : ℕ → Row D)
      → i + 1 ≡ 12 * (y + 1)
      → Filled (i + 1) k (update results y (row_at y)) after
      → Filled i (suc k) results after
  Filled-year k i y results after e filled = record { written = written; kept = kept }
    where
      written : (z : ℕ) → i < 12 * (z + 1) → 12 * (z + 1) ≤ i + suc k → after z ≡ row_at z
      written z above below = elim (Bool-cases (y == z)) [
        | inl same ↦
            let row : y ≡ z = ground (arith, same) in
            filled.kept z (inl (omega (arith, e, row))) ∙ rw same (ap row_at row)
        | inr other ↦
            let ne : y ≢ z = ground (arith, other) in
            filled.written z (omega (arith, e, ne)) (omega arith)
      ]

      kept : (z : ℕ) → 12 * (z + 1) ≤ i ⊎ i + suc k < 12 * (z + 1) → after z ≡ results z
      kept z (inl le) =
          let other : (y == z) ≡ false = ground (arith, le, e) in
          filled.kept z (inl (omega arith)) ∙ rw other
      kept z (inr lt) =
          let other : (y == z) ≡ false = ground (arith, lt, e) in
          filled.kept z (inr (omega arith)) ∙ rw other

  months_loop-Runs : (k i : ℕ) (results : ℕ → Row D) → i + k ≤ 600 → Runs i k results
  unfolding months_loop Runs
  months_loop-Runs zero i results le =
      let same : i + 0 ≡ i = omega arith in
      (
        results,
        rw same,
        record { written = λ y above below. absurd (omega arith); kept = λ y out. refl },
      )
  months_loop-Runs (suc k) i results le = elim (year_end i) [
    | inl e ↦
        let (after, rest, filled) = months_loop-Runs k (i + 1) results (omega arith) in
        (
          after,
          continue k i results results after (round-month i results (no_year i e)) rest,
          Filled-month k i results after e filled,
        )
    | inr (y, e) ↦
        let between = update results y (row_at y) in
        let (after, rest, filled) = months_loop-Runs k (i + 1) between (omega arith) in
        (
          after,
          continue k i results between after (round-year i y results e (omega arith)) rest,
          Filled-year k i y results after e filled,
        )
  ]

-- For at most 50 years the loop ends without a write outside the table of 50 rows. The row of each
-- year then holds the value after that year's last month and, before it, this value less what was
-- invested until then; every other row is as before.
pub calculate_future_value-Filled :
    {D : Type 0} (num : Arithmetic D) (investment annual : D) (years : ℕ) (results : ℕ → Row D)
    → years ≤ 50
    → (s : State num) × (calculate_future_value num investment annual years results ≡ some s)
      × ((y : ℕ) → y < years → s.results y ≡ row_at num investment (monthly_rate num annual) y)
      × ((y : ℕ) → years ≤ y → s.results y ≡ results y)
unfolding calculate_future_value Runs value_after
calculate_future_value-Filled num investment annual years results le =
    let rate = monthly_rate num annual in
    let (after, runs, filled) =
      months_loop-Runs num investment rate (years * 12) 0 results (omega arith) in
    (
      record { value = value_after num investment rate (0 + years * 12); results = after },
      runs,
      (λ y lt. filled.written y (omega arith) (omega arith)),
      (λ y ge. filled.kept y (inr (omega arith))),
    )
