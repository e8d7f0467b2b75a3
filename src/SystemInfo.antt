-- ===== src/SystemInfo.antt =====
-- M5/system_info.c: what is read from the files below /proc. A file is its text, or `none` if `fopen`
-- fails, which ends the program; a `fault` is the use of a variable or of characters that were not set.
-- The arithmetic of `float` and the `%f` of `fscanf` are the parameter `Float`.
pub mod Lines
mod Examples
use sp327_butt_k.Base.{
  ℕ, zero, suc, ◌+◌, ◌-◌, ◌*◌, ◌^◌, Bool, true, false, Option, none, some, List, [], ◌∷◌, ◌++◌,
  ◌==◌, leb, ltb, length, if◌then◌else◌, ℤ, pos, negsuc,
}
use sp327_butt_k.Text.{Text, codes, is_digit, span, skip_spaces, drop, starts_with, digits_value}

pub data Outcome (A : Type 0) : Type 0 where
  ok : A → Outcome A
  exited : Outcome A
  fault : Outcome A

-- The characters up to the first line break, which counts, at most `n`, and the rest.
unfoldable pub cut_line : (n : ℕ) → Text → Text × Text
cut_line zero s = ([], s)
cut_line (suc n) [] = ([], [])
cut_line (suc n) (c ∷ s) =
    let (line, rest) = cut_line n s in if c == 10 then (c ∷ [], s) else (c ∷ line, rest)

-- `fgets` into 256 characters; `none` at the end of the file.
unfoldable pub fgets : Text → Option (Text × Text)
fgets [] = none
fgets (c ∷ s) = some (cut_line 255 (c ∷ s))

-- `get_host_name` and `get_kernel_version`: the first line.
abbrev pub line_of : Option (Text × Text) → Outcome Text
line_of none = fault
line_of (some (line, rest)) = ok line

unfoldable pub first_line : Option Text → Outcome Text
first_line none = exited
first_line (some text) = line_of (fgets text)

-- `%ld`: the number and the rest.
abbrev pub number_of : (negative : Bool) → Text × Text → Option (ℤ × Text)
number_of negative ([], rest) = none
number_of false (c ∷ ds, rest) =
    let n = digits_value 0 (c ∷ ds) in if ltb n (2 ^ 63) then some (pos n, rest) else none
number_of true (c ∷ ds, rest) =
    let n = digits_value 0 (c ∷ ds) in
    if n == 0
    then some (pos 0, rest)
    else if leb n (2 ^ 63)
    then some (negsuc (n - 1), rest)
    else none

abbrev pub signed_number : Text → Option (ℤ × Text)
signed_number [] = none
signed_number (c ∷ s) =
    if c == 45
    then number_of true (span is_digit s)
    else if c == 43
    then number_of false (span is_digit s)
    else number_of false (span is_digit (c ∷ s))

unfoldable pub scan_long : Text → Option (ℤ × Text)
scan_long s = signed_number (skip_spaces s)

-- `line + n`; behind the end of the text there are only characters that were not set.
abbrev pub behind : ℕ → Text → Option Text
behind n s = if leb n (length s) then some (drop n s) else none

-- What `get_cpu_info` prints. Without a number `atoi` gives 0.
pub data CpuLine : Type 0 where
  model : Text → CpuLine
  cores : ℤ → CpuLine

abbrev pub atoi : Option (ℤ × Text) → ℤ
atoi none = pos 0
atoi (some (n, rest)) = n

abbrev pub print_model : Option Text → Outcome (List CpuLine) → Outcome (List CpuLine)
print_model none rest = fault
print_model (some name) (ok lines) = ok (model name ∷ lines)
print_model (some name) exited = exited
print_model (some name) fault = fault

abbrev pub print_cores : Option Text → Outcome (List CpuLine)
print_cores none = fault
print_cores (some s) = ok (cores (atoi (scan_long s)) ∷ [])

-- The body of the `while`; `rest` is what the later lines print.
abbrev pub cpu_line : Text → Outcome (List CpuLine) → Outcome (List CpuLine)
cpu_line line rest =
    let tail =
      if starts_with (codes "processor") line then print_cores (behind 11 line) else rest in
    if starts_with (codes "model name") line then print_model (behind 13 line) tail else tail

abbrev pub with_line :
    (Text → Text → Outcome (List CpuLine)) → Option (Text × Text) → Outcome (List CpuLine)
with_line go none = ok []
with_line go (some (line, rest)) = go line rest

-- The `while` over the lines; every round reads a character, so the text's length and one more rounds
-- are enough.
unfoldable pub cpu_loop : (rounds : ℕ) → Text → Outcome (List CpuLine)
cpu_loop zero text = ok []
cpu_loop (suc rounds) text =
    with_line (λ line rest. cpu_line line (cpu_loop rounds rest)) (fgets text)

unfoldable pub get_cpu_info : Option Text → Outcome (List CpuLine)
get_cpu_info none = exited
get_cpu_info (some text) = cpu_loop (suc (length text)) text

pub record Usage : Type 0 where
  pub user : ℤ
  pub system : ℤ
  pub idle : ℤ

abbrev pub usage_of : Option (ℤ × Text) → Option (ℤ × Text) → Option (ℤ × Text) → Outcome Usage
usage_of (some (u, a)) (some (s, b)) (some (i, c)) = ok (record { user = u; system = s; idle = i })
usage_of _ _ _ = fault

abbrev pub next_long : Option (ℤ × Text) → Option (ℤ × Text)
next_long none = none
next_long (some (n, rest)) = scan_long rest

-- `sscanf(line, "cpu  %ld %*d %ld %ld", ...)`, whose results are printed without a test.
unfoldable pub scan_usage : Text → Outcome Usage
scan_usage line =
    if starts_with (codes "cpu") line
    then (let user = scan_long (drop 3 line) in
        let nice = next_long user in
        let system = next_long nice in usage_of user system (next_long system))
    else fault

abbrev pub usage_line : Outcome Text → Outcome Usage
usage_line (ok line) = scan_usage line
usage_line exited = exited
usage_line fault = fault

unfoldable pub get_cpu_usage : Option Text → Outcome Usage
get_cpu_usage file = usage_line (first_line file)

-- `mem_total` and `mem_free` of `get_memory_info`; `none` before they are set.
pub record Memory : Type 0 where
  pub mem_total : Option ℤ
  pub mem_free : Option ℤ

abbrev pub assign : Option (ℤ × Text) → Option ℤ → Option ℤ
assign none old = old
assign (some (n, rest)) old = some n

-- `sscanf(line, "MemTotal: %ld kB", &mem_total)` behind its `strncmp`, and the same for the free memory.
abbrev pub scan_field : (name : Text) → Text → Option ℤ → Option ℤ
scan_field name line old =
    if starts_with (name ++ codes ":") line
    then assign (scan_long (drop (length name + 1) line)) old
    else old

unfoldable pub memory_line : Text → Memory → Memory
memory_line line m = record {
  mem_total = scan_field (codes "MemTotal") line m.mem_total;
  mem_free = scan_field (codes "MemFree") line m.mem_free;
}

abbrev pub with_memory : (Text → Text → Memory) → Memory → Option (Text × Text) → Memory
with_memory go m none = m
with_memory go m (some (line, rest)) = go line rest

unfoldable pub memory_loop : (rounds : ℕ) → Text → Memory → Memory
memory_loop zero text m = m
memory_loop (suc rounds) text m =
    with_memory (λ line rest. memory_loop rounds rest (memory_line line m)) m (fgets text)

abbrev pub both : Option ℤ → Option ℤ → Outcome (ℤ × ℤ)
both (some total) (some free) = ok (total, free)
both (some total) none = fault
both none free = fault

abbrev pub printed : Memory → Outcome (ℤ × ℤ)
printed m = both m.mem_total m.mem_free

unfoldable pub get_memory_info : Option Text → Outcome (ℤ × ℤ)
get_memory_info none = exited
get_memory_info (some text) =
    printed (memory_loop (suc (length text)) text (record { mem_total = none; mem_free = none }))

-- `float`: the number at the start of a text, the operations with an `int`, and the conversion to
-- `int`, which is `none` for a number outside its range.
pub record Float (F : Type 0) : Type 0 where
  pub scan : Text → Option F
  pub sub : F → ℤ → F
  pub div : F → ℤ → F
  pub trunc : F → Option ℤ

-- Whether an `int` can have this value.
abbrev pub is_int : ℤ → Bool
is_int (pos n) = ltb n (2 ^ 31)
is_int (negsuc n) = ltb n (2 ^ 31)

abbrev pub times_int : ℤ → ℕ → ℤ
times_int (pos n) k = pos (n * k)
times_int (negsuc n) zero = pos 0
times_int (negsuc n) (suc k) = negsuc (suc n * suc k - 1)

-- The product of two `int`s; an overflow is undefined.
abbrev pub product : ℤ → ℕ → Outcome ℤ
product a k = let p = times_int a k in if is_int p then ok p else fault

pub record Uptime : Type 0 where
  pub days : ℤ
  pub hours : ℤ
  pub minutes : ℤ
  pub seconds : ℤ

abbrev pub then_with : {A B : Type 0} → Outcome A → (A → Outcome B) → Outcome B
then_with (ok a) next = next a
then_with exited next = exited
then_with fault next = fault

abbrev pub defined : {A : Type 0} → Option A → Outcome A
defined none = fault
defined (some a) = ok a

-- The four parts of the number that `fscanf` read.
unfoldable pub parts_of : {F : Type 0} → Float F → F → Outcome Uptime
parts_of num u = then_with (defined (num.trunc (num.div u (pos (24 * 3600))))) λ days.
    then_with (then_with (product days 24) λ d. product d 3600) λ day_seconds.
      let day_rest = num.sub u day_seconds in
      then_with (defined (num.trunc (num.div day_rest (pos 3600)))) λ hours.
        then_with (product hours 3600) λ hour_seconds.
          let hour_rest = num.sub day_rest hour_seconds in
          then_with (defined (num.trunc (num.div hour_rest (pos 60)))) λ minutes.
            then_with (product minutes 60) λ minute_seconds.
              then_with (defined (num.trunc (num.sub hour_rest minute_seconds))) λ seconds.
                ok (record { days = days; hours = hours; minutes = minutes; seconds = seconds })

-- What `get_uptime` prints. Without a number in the file, `uptime_sec` is not set.
unfoldable pub get_uptime : {F : Type 0} → Float F → Option Text → Outcome Uptime
get_uptime num none = exited
get_uptime num (some text) = then_with (defined (num.scan text)) (parts_of num)
