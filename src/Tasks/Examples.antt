-- ===== src/Tasks/Examples.antt =====
-- Runs of the work functions, and the theorems at small arguments.
use sp327_butt_k.Base.{ℤ, ℕ, ◌*◌, pos, negsuc, ◌≡◌, refl, some, [], ◌∷◌}
use sp327_butt_k.Tasks.{
  sum, sum_loop, compute_sum, random_sleep_time_in_range, create_request, create_requests,
  write_log, compute,
}
use sp327_butt_k.Tasks.Delays.{invalid_sleep_time}
use sp327_butt_k.Text.{Text, codes, digits_value}
use sp327_butt_k.Tasks.Main.{Rands, main}
use sp327_butt_k.M9.ThreadPool.{all_ok, thread_pool_init, create_threads}
use sp327_butt_k.Tasks.Main

sums_run : compute_sum 10 ≡ sum 10 45
unfolding compute_sum sum_loop
sums_run = refl

invalid_sleep_time_run :
    random_sleep_time_in_range (negsuc 4) (pos 10) 77 ≡ some (record { tv_sec = 0; tv_nsec = 0 })
invalid_sleep_time_run = invalid_sleep_time (negsuc 4) (pos 10) 77 refl

create_run :
    create_requests ((3, 5) ∷ (1, 1234) ∷ (6, 0) ∷ []) 1
    ≡ some (write_log 1) ∷ some (compute 234) ∷ some (write_log 2) ∷ []
unfolding create_requests create_request
create_run = refl

-- Decimal digits only.
abbrev atoi : Text → ℤ
atoi s = pos (digits_value 0 s)

abbrev rand : ℕ → Rands
rand i = record { type = i; arg = 1234; nap = 451 * i }

-- With 21 threads the program stores behind its array.
too_many_run : main all_ok atoi (codes "main" ∷ codes "21" ∷ codes "3" ∷ []) rand ≡ Main.undefined
unfolding main thread_pool_init create_threads digits_value
too_many_run = refl
