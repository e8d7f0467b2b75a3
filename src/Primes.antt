-- ===== src/Primes.antt =====
-- booksrc/ch3/rlimit_primes.c and booksrc/solutions_to_assgn/ch16/mt_primes1.c, mt_primes2.c: primes by
-- trial division, on one thread and on three. The result buffer of a thread is the list of the numbers
-- printed into it; its length in characters is `strlen`. A limit stays below the largest `unsigned`.
pub mod Divisors
pub mod Listing
pub mod Programs
pub mod Threads
pub mod DataFile
mod Examples
use sp327_butt_k.Base.{
  ℤ, pos, negsuc, ℕ, zero, suc, ◌+◌, ◌-◌, ◌*◌, ◌/◌, ◌%◌, ◌^◌, Bool, true, false, not, ◌&&◌, Option,
  none, some, and_then, List, [], ◌∷◌, ◌++◌, ◌==◌, leb, ltb, length, if◌then◌else◌,
}

-- `for (j = 2; j < limit / 2; j++)` with `rounds` rounds left: the value of `isprime`.
unfoldable pub divisor_loop : (rounds j i : ℕ) → Bool
divisor_loop zero j i = true
divisor_loop (suc rounds) j i =
    let rest = divisor_loop rounds (j + 1) i in if not (i == j) && (i % j == 0) then false else rest

unfoldable pub is_prime : (limit i : ℕ) → Bool
is_prime limit i = divisor_loop (limit / 2 - 2) 2 i

-- What rlimit_primes prints.
pub data Piece : Type 0 where
  number : (i : ℕ) → Piece
  newline : Piece

abbrev pub piece : (num i : ℕ) → List Piece
piece num i = if num % 16 == 0 then number i ∷ newline ∷ [] else number i ∷ []

-- `for (i = 4; i <= limit; i++)`; `num` primes are printed so far.
unfoldable pub print_loop : (limit rounds i num : ℕ) → List Piece
print_loop limit zero i num = []
print_loop limit (suc rounds) i num =
    let next = if is_prime limit i then num + 1 else num in
    let rest = print_loop limit rounds (i + 1) next in
    (if is_prime limit i then piece next i else []) ++ rest

-- `simple_primegen` of rlimit_primes.
unfoldable pub print_primes : (limit : ℕ) → List Piece
print_primes limit = number 2 ∷ number 3 ∷ (print_loop limit (limit + 1 - 4) 4 2 ++ newline ∷ [])

-- `setup_cpu_rlimit`: the limit that it sets. A negative number but -1 wraps around in `rlim_t`.
pub data CpuLimit : Type 0 where
  infinity : CpuLimit
  seconds : ℕ → CpuLimit

unfoldable pub setup_cpu_rlimit : (cpulimit : ℤ) → CpuLimit
setup_cpu_rlimit (negsuc zero) = infinity
setup_cpu_rlimit (negsuc (suc n)) = seconds (2 ^ 64 - (n + 2))
setup_cpu_rlimit (pos n) = seconds n

-- The limit that `main` asks for; `none` leaves it as it is.
unfoldable pub wanted_limit : (nsec : ℤ) → Option CpuLimit
wanted_limit (negsuc (suc zero)) = none
wanted_limit (pos zero) = some (setup_cpu_rlimit (pos 1))
wanted_limit nsec = some (setup_cpu_rlimit nsec)

pub data End : Type 0 where
  failure : End
  success : Option CpuLimit → List Piece → End

abbrev pub limited : (prlimit_ok : Bool) → Option CpuLimit → List Piece → End
limited prlimit_ok none out = success none out
limited prlimit_ok (some l) out = if prlimit_ok then success (some l) out else failure

abbrev pub in_range : ℤ → Bool
in_range (pos n) = ltb 4 n && leb n 10000000
in_range (negsuc n) = false

abbrev pub magnitude : ℤ → ℕ
magnitude (pos n) = n
magnitude (negsuc n) = 0

-- `main` of rlimit_primes with the numbers that `atoi` gives.
unfoldable pub rlimit_main : (argc : ℕ) (limit nsec : ℤ) (prlimit_ok : Bool) → End
rlimit_main argc limit nsec prlimit_ok =
    if ltb argc 3
    then failure
    else if in_range limit
    then limited prlimit_ok (wanted_limit nsec) (print_primes (magnitude limit))
    else failure

-- `simple_primegen` of mt_primes1 and mt_primes2: the length of "%6d, ", where a number from 2 ^ 31 on
-- is printed as a negative one.
abbrev pub digits : ℕ → ℕ
digits i =
    if ltb i 1000000
    then 6
    else if ltb i 10000000
    then 7
    else if ltb i 100000000
    then 8
    else if ltb i 1000000000
    then 9
    else 10

abbrev pub entry_width : ℕ → ℕ
entry_width i = 2 + (if ltb i (2 ^ 31) then digits i else digits (2 ^ 32 - i) + 1)

unfoldable pub strlen : List ℕ → ℕ
strlen [] = 0
strlen (i ∷ is) = entry_width i + strlen is

pub record Generated : Type 0 where
  pub num_primes : ℕ
  pub buf : List ℕ

-- `num_primes++` and `strncat`; `none`: the text with its NUL does not fit MEM_SIZE.
unfoldable pub place : ℕ → Generated → Option Generated
place i g =
    if ltb (strlen g.buf + entry_width i) 100000
    then some (record { num_primes = g.num_primes + 1; buf = g.buf ++ i ∷ [] })
    else none

unfoldable pub primegen_loop : (limit rounds i : ℕ) → Generated → Option Generated
primegen_loop limit zero i g = some g
primegen_loop limit (suc rounds) i g =
    and_then (λ h. primegen_loop limit rounds (i + 1) h)
      (if is_prime limit i then place i g else some g)

-- `none` also where the first `assert` fails.
unfoldable pub simple_primegen : (start limit : ℕ) → Option Generated
simple_primegen start limit =
    if leb start limit
    then primegen_loop limit (limit + 1 - start) start (record { num_primes = 0; buf = [] })
    else none
