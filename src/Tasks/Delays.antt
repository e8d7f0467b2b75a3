-- ===== src/Tasks/Delays.antt =====
-- The random delays.
use sp327_butt_k.Base.{
  ℤ, pos, ℕ, ◌+◌, ◌-◌, ◌*◌, ◌/◌, ◌%◌, ◌^◌, ◌≤◌, ◌<◌, ◌≡◌, some, arith, ltb, true, false,
}
use sp327_butt_k.Tasks.{Timespec, timespec_of, valid_range, random_sleep_time_in_range}

-- A time between two numbers of milliseconds, split as `nanosleep` wants it.
pub record Between (lo hi : ℕ) (ts : Timespec) : Type 0 where
  pub least : lo ≤ ts.tv_sec * 1000 + ts.tv_nsec / 1000000
  pub most : ts.tv_sec * 1000 + ts.tv_nsec / 1000000 ≤ hi
  pub nanoseconds : ts.tv_nsec < 1000000000
  pub whole : ts.tv_nsec % 1000000 ≡ 0

timespec_of-Between : (lo hi m : ℕ) → lo ≤ m → m ≤ hi → Between lo hi (timespec_of m)
timespec_of-Between lo hi m le ge = record {
  least = omega arith;
  most = omega arith;
  nanoseconds = omega arith;
  whole = omega arith;
}

-- On a valid range `random_sleep_time_in_range` fills in a time of the range, with its nanoseconds
-- below one second and a whole number of milliseconds.
pub sleep_time-Between :
    (lo hi rand : ℕ)
    → lo ≤ hi
    → hi < 2 ^ 31 - 1
    → (ts : Timespec) × (random_sleep_time_in_range (pos lo) (pos hi) rand ≡ some ts)
      × Between lo hi ts
unfolding random_sleep_time_in_range
sleep_time-Between lo hi rand le small =
    let ordered : ltb hi lo ≡ false = ground arith in
    let fits : ltb (hi - lo) (2 ^ 31 - 1) ≡ true = ground arith in
    let bound : rand % (hi - lo + 1) < hi - lo + 1 = omega arith in
    (
      timespec_of (lo + rand % (hi - lo + 1)),
      rw (ordered, fits),
      timespec_of-Between lo hi _ (omega arith) (omega (arith, bound)),
    )

-- On an invalid range, with `max_ms` below `min_ms` or a negative `min_ms`, the time is zero.
pub invalid_sleep_time :
    (min_ms max_ms : ℤ) (rand : ℕ)
    → valid_range min_ms max_ms ≡ (0, 0)
    → random_sleep_time_in_range min_ms max_ms rand ≡ some (record { tv_sec = 0; tv_nsec = 0 })
unfolding random_sleep_time_in_range
invalid_sleep_time min_ms max_ms rand e = rw e (ground arith)
