-- ===== src/Tasks/Sums.antt =====
-- The two ways to sum the numbers below a bound.
use sp327_butt_k.Base.{
  ℕ, zero, suc, ◌+◌, ◌-◌, ◌*◌, ◌/◌, ◌%◌, ◌^◌, ◌<◌, ◌≡◌, ap, arith, ◌∷◌, [], true,
}
use sp327_butt_k.Tasks.{message, sum, closed_sum, example_task, sum_loop, compute_sum}

-- Twice the loop's result, from any point of the loop.
sum_loop-double : (k i acc : ℕ) → 2 * sum_loop k i acc + k ≡ 2 * acc + k * k + 2 * (k * i)
unfolding sum_loop
sum_loop-double zero i acc = omega arith
sum_loop-double (suc k) i acc = grind (arith, sum_loop-double k (i + 1) (acc + i))

-- The loop of M9's `compute_sum` gives what the closed form in the request server's `example_task`
-- gives.
pub compute_sum-closed_sum : (n : ℕ) → compute_sum n ≡ sum n (closed_sum n)
unfolding compute_sum closed_sum
compute_sum-closed_sum n = ap (sum n) (same n (sum_loop-double n 0 0))
  where
    same :
        (n : ℕ)
        → 2 * sum_loop n 0 0 + n ≡ 2 * 0 + n * n + 2 * (n * 0)
        → sum_loop n 0 0 ≡ (n * (n - 1)) / 2
    same zero e = omega arith
    same (suc n) e = let back : suc n - 1 ≡ n = omega arith in rw back (omega (arith, e))

-- When `example_task` sums, its log lines are the message and then what M9's loop would report for the
-- same argument, and the product that it halves fits an `int`.
pub example_task-compute_sum :
    (val rand_type rand_arg : ℕ)
    → rand_type % 3 ≡ 0
    → (example_task true val rand_type rand_arg ≡ message val ∷ compute_sum (rand_arg % 1000) ∷ [])
      × (rand_arg % 1000 * (rand_arg % 1000 - 1) < 2 ^ 31)
unfolding example_task
example_task-compute_sum val rand_type rand_arg e =
    (rw (e, compute_sum-closed_sum (rand_arg % 1000)), grind arith)
