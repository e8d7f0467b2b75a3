-- ===== src/Tasks.antt =====
-- The work functions and the request generator: tasks.c of the request server, tasks.c and main.c of
-- M9. A call of `rand()` is a number that the caller supplies; what is written to the log file is the
-- result.
pub mod Sums
pub mod Delays
pub mod Requests
pub mod Main
mod Examples
use sp327_butt_k.Base.{
  ℤ, pos, negsuc, ℕ, zero, suc, ◌+◌, ◌-◌, ◌*◌, ◌/◌, ◌%◌, ◌^◌, Bool, true, false, Option, none, some,
  List, [], ◌∷◌, ◌==◌, leb, ltb, if◌then◌else◌,
}

-- A line of the log, without its time stamp and thread number.
pub data Line : Type 0 where
  message : (number : ℕ) → Line  -- "Log message %d"
  sum : (below result : ℕ) → Line  -- "Sum of numbers < %d is %ld"
  delay : (seconds milliseconds : ℕ) → Line  -- "Simulated delay of ..."

-- `(x * (x - 1)) / 2` on an `int`; at 0 the product is 0 whatever the second factor.
unfoldable pub closed_sum : ℕ → ℕ
closed_sum x = (x * (x - 1)) / 2

-- `example_task` of tasks.c: the numbers are the calls of `rand()`; `opened`: whether `fopen` succeeds.
unfoldable pub example_task : (opened : Bool) (val rand_type rand_arg : ℕ) → List Line
example_task false val rand_type rand_arg = []
example_task true val rand_type rand_arg =
    message val
    ∷ (if rand_type % 3 == 0
        then sum (rand_arg % 1000) (closed_sum (rand_arg % 1000)) ∷ []
        else if rand_type % 3 == 1
        then delay 0 (rand_arg % 200 + 50) ∷ []
        else message val ∷ [])

-- `for (int i = 0; i < n; i++) sum += i;` of `compute_sum` (M9/tasks.c), with `n - i` rounds left.
unfoldable pub sum_loop : (rounds i acc : ℕ) → ℕ
sum_loop zero i acc = acc
sum_loop (suc k) i acc = sum_loop k (i + 1) (acc + i)

unfoldable pub compute_sum : ℕ → Line
compute_sum n = sum n (sum_loop n 0 0)

pub record Timespec : Type 0 where
  pub tv_sec : ℕ
  pub tv_nsec : ℕ

-- The bounds that `random_sleep_time_in_range` works with: 0 and 0 if `min_ms > max_ms` or
-- `min_ms < 0`.
abbrev pub valid_range : ℤ → ℤ → ℕ × ℕ
valid_range (pos lo) (pos hi) = if ltb hi lo then (0, 0) else (lo, hi)
valid_range (pos lo) (negsuc hi) = (0, 0)
valid_range (negsuc lo) hi = (0, 0)

abbrev pub timespec_of : ℕ → Timespec
timespec_of millis = record { tv_sec = millis / 1000; tv_nsec = millis % 1000 * 1000000 }

-- `none`: the length of the range overflows an `int`.
abbrev pub sleep_in : ℕ × ℕ → ℕ → Option Timespec
sleep_in (lo, hi) rand =
    if ltb (hi - lo) (2 ^ 31 - 1) then some (timespec_of (lo + rand % (hi - lo + 1))) else none

unfoldable pub random_sleep_time_in_range : (min_ms max_ms : ℤ) → (rand : ℕ) → Option Timespec
random_sleep_time_in_range min_ms max_ms rand = sleep_in (valid_range min_ms max_ms) rand

-- `nap_random` of M9/main.c.
unfoldable pub nap_random : (rand : ℕ) → Option Timespec
nap_random rand = random_sleep_time_in_range (pos 50) (pos 500) rand

-- `delay_task`: what it reports of the time it slept.
unfoldable pub delay_task : Timespec → Line
delay_task ts = delay ts.tv_sec (ts.tv_nsec / 1000000)

-- The requests of M9/main.c with their arguments.
pub data Request : Type 0 where
  write_log : (msg_number : ℕ) → Request
  compute : (n : ℕ) → Request
  sleep : Timespec → Request

abbrev pub sleep_request : ℕ → Option Timespec → ℕ × Option Request
sleep_request count none = (count, none)
sleep_request count (some ts) = (count, some (sleep ts))

-- `create_request`, with the static `msg_count` before and after; `none` is NULL.
unfoldable pub create_request : (task_type : ℕ) → (rand msg_count : ℕ) → ℕ × Option Request
create_request zero rand msg_count = (msg_count + 1, some (write_log msg_count))
create_request (suc zero) rand msg_count = (msg_count, some (compute (rand % 1000)))
create_request (suc (suc zero)) rand msg_count =
    sleep_request msg_count (random_sleep_time_in_range (pos 25) (pos 250) rand)
create_request _ rand msg_count = (msg_count, none)

-- The loop of main: each pair is the two calls of `rand()` in a round.
unfoldable pub create_requests : List (ℕ × ℕ) → (msg_count : ℕ) → List (Option Request)
create_requests [] msg_count = []
create_requests ((rand_type, rand_arg) ∷ rands) msg_count =
    let (next, request) = create_request (rand_type % 3) rand_arg msg_count in
    request ∷ create_requests rands next

-- `log_message` (M9/tasks.c) writes nothing if `fopen` fails.
abbrev pub log_message : (opened : Bool) → Line → List Line
log_message true line = line ∷ []
log_message false line = []

-- What a worker writes to the log for a request.
unfoldable pub run_request : (opened : Bool) → Request → List Line
run_request opened (write_log number) = log_message opened (message number)
run_request opened (compute n) = log_message opened (compute_sum n)
run_request opened (sleep ts) = log_message opened (delay_task ts)
