-- ===== src/SystemInfo/Lines.antt =====
-- What is read from files that are made of lines.
use sp327_butt_k.Base.{
  ℕ, zero, suc, ◌<◌, ◌≡◌, refl, ap, ◌∙◌, true, false, none, some, List, [], ◌∷◌, ◌++◌, append_assoc,
  ◌==◌, ◌^◌, arith, leb, ltb, length, length-append, All, pos,
}
use sp327_butt_k.Text.{Text, codes, is_digit, is_space, skip_spaces, starts_with, digits_value}
use sp327_butt_k.Text.Span.{span-append}
use sp327_butt_k.SystemInfo.{
  ok, cut_line, fgets, number_of, signed_number, scan_long, cores, atoi, cpu_line, with_line,
  cpu_loop, get_cpu_info, Memory, assign, memory_line, with_memory, memory_loop, printed,
  get_memory_info,
}

-- A line without its line break.
abbrev pub IsLine : Text → Type 0
IsLine w = (length w < 255) × All (λ c. (c == 10) ≡ false) w

pub cut_line-append :
    (n : ℕ) (w rest : Text)
    → length w < n
    → All (λ c. (c == 10) ≡ false) w
    → cut_line n (w ++ 10 ∷ rest) ≡ (w ++ 10 ∷ [], rest)
unfolding cut_line
cut_line-append zero w rest lt all = absurd (omega arith)
cut_line-append (suc n) [] rest lt all = refl
cut_line-append (suc n) (c ∷ w) rest lt all =
    rw (all.0, cut_line-append n w rest (omega arith) all.1)

pub fgets-line : (w rest : Text) → IsLine w → fgets (w ++ 10 ∷ rest) ≡ some (w ++ 10 ∷ [], rest)
unfolding fgets
fgets-line [] rest is = ap some (cut_line-append 255 [] rest is.0 is.1)
fgets-line (c ∷ w) rest is = ap some (cut_line-append 255 (c ∷ w) rest is.0 is.1)

-- The first line of the processor file names a processor, and `get_cpu_info` stops there: it prints the
-- number of that line as the number of cores, and no model, whatever the other lines are.
pub get_cpu_info-first :
    (x y : ℕ) (tail rest : Text)
    → IsLine (codes "processor" ++ x ∷ y ∷ tail)
    → get_cpu_info (some ((codes "processor" ++ x ∷ y ∷ tail) ++ 10 ∷ rest))
      ≡ ok (cores (atoi (scan_long (tail ++ 10 ∷ []))) ∷ [])
unfolding get_cpu_info cpu_loop
get_cpu_info-first x y tail rest is =
    let w = codes "processor" ++ x ∷ y ∷ tail in
    ap (with_line (λ line behind. cpu_line line (cpu_loop (length (w ++ 10 ∷ rest)) behind)))
      (fgets-line w rest is)
    ∙ (let long : leb 11 (length (w ++ 10 ∷ [])) ≡ true =
          ground (arith, length-append tail (10 ∷ [])) in
        rw long)

abbrev pub join : List Text → Text
join [] = []
join (w ∷ ws) = w ++ 10 ∷ join ws

-- The lines one after the other.
pub read_lines : List Text → Memory → Memory
read_lines [] m = m
read_lines (w ∷ ws) m = read_lines ws (memory_line (w ++ 10 ∷ []) m)

pub memory_loop-lines :
    (rounds : ℕ) (ws : List Text) (m : Memory)
    → length (join ws) < rounds
    → All IsLine ws
    → memory_loop rounds (join ws) m ≡ read_lines ws m
unfolding memory_loop read_lines fgets
memory_loop-lines zero ws m lt all = absurd (omega arith)
memory_loop-lines (suc rounds) [] m lt all = refl
memory_loop-lines (suc rounds) (w ∷ ws) m lt all =
    ap (with_memory (λ line rest. memory_loop rounds rest (memory_line line m)) m)
      (fgets-line w (join ws) all.0)
    ∙ memory_loop-lines rounds ws (memory_line (w ++ 10 ∷ []) m)
        (omega (arith, length-append w (10 ∷ join ws))) all.1

-- A number between spaces.
pub scan_long-number :
    (pad : Text) (d : ℕ) (ds rest : Text)
    → All (λ c. is_space c ≡ true) pad
    → All (λ c. is_digit c ≡ true) (d ∷ ds)
    → digits_value 0 (d ∷ ds) < 2 ^ 63
    → scan_long (pad ++ ((d ∷ ds) ++ 32 ∷ rest)) ≡ some (pos (digits_value 0 (d ∷ ds)), 32 ∷ rest)
unfolding scan_long skip_spaces
scan_long-number pad d ds rest spaces digits small =
    let solid : is_space d ≡ false = ground (arith, digits.0) in
    let minus : (d == 45) ≡ false = ground (arith, digits.0) in
    let plus : (d == 43) ≡ false = ground (arith, digits.0) in
    let fits : ltb (digits_value 0 (d ∷ ds)) (2 ^ 63) ≡ true = ground (arith, small) in
    ap (λ t. signed_number t.1) (span-append is_space pad ((d ∷ ds) ++ 32 ∷ rest) spaces solid)
    ∙ rw (minus, plus)
        (ap (number_of false) (span-append is_digit (d ∷ ds) (32 ∷ rest) digits refl) ∙ rw fits)

-- A field of the memory file: its name with a colon, spaces, a number, a space and more.
abbrev pub field : (name pad : Text) (d : ℕ) (ds unit : Text) → Text
field name pad d ds unit = name ++ codes ":" ++ (pad ++ ((d ∷ ds) ++ 32 ∷ unit))

-- A line with another field.
abbrev pub IsOther : Text → Type 0
IsOther w =
    (starts_with (codes "MemTotal:") (w ++ 10 ∷ []) ≡ false)
    × (starts_with (codes "MemFree:") (w ++ 10 ∷ []) ≡ false)

read_lines-IsOther : (ws : List Text) (m : Memory) → All IsOther ws → read_lines ws m ≡ m
unfolding read_lines memory_line
read_lines-IsOther [] m all = refl
read_lines-IsOther (w ∷ ws) m all = rw (all.0.0, all.0.1) (read_lines-IsOther ws m all.1)

pub record IsNumber (pad : Text) (d : ℕ) (ds : Text) : Type 0 where
  pub spaces : All (λ c. is_space c ≡ true) pad
  pub digits : All (λ c. is_digit c ≡ true) (d ∷ ds)
  pub small : digits_value 0 (d ∷ ds) < 2 ^ 63

module _ (pad : Text) (d : ℕ) (ds unit : Text) (is : IsNumber pad d ds) where
  value_scanned :
      scan_long ((pad ++ ((d ∷ ds) ++ 32 ∷ unit)) ++ 10 ∷ [])
      ≡ some (pos (digits_value 0 (d ∷ ds)), 32 ∷ (unit ++ 10 ∷ []))
  value_scanned =
      ap scan_long (
        append_assoc pad ((d ∷ ds) ++ 32 ∷ unit) (10 ∷ [])
        ∙ ap (λ t. pad ++ t) (append_assoc (d ∷ ds) (32 ∷ unit) (10 ∷ [])))
      ∙ scan_long-number pad d ds (unit ++ 10 ∷ []) is.spaces is.digits is.small

  total_line :
      (m : Memory)
      → memory_line (field (codes "MemTotal") pad d ds unit ++ 10 ∷ []) m
        ≡ record m { mem_total = some (pos (digits_value 0 (d ∷ ds))) }
  unfolding memory_line
  total_line m =
      ap (λ o. record { mem_total = assign o m.mem_total; mem_free = m.mem_free }) value_scanned

  free_line :
      (m : Memory)
      → memory_line (field (codes "MemFree") pad d ds unit ++ 10 ∷ []) m
        ≡ record m { mem_free = some (pos (digits_value 0 (d ∷ ds))) }
  unfolding memory_line
  free_line m =
      ap (λ o. record { mem_total = m.mem_total; mem_free = assign o m.mem_free }) value_scanned

-- From a file with the two fields at its start, each with a number, and lines of any other fields,
-- `get_memory_info` prints the two numbers.
pub get_memory_info-fields :
    (pad : Text) (d : ℕ) (ds unit : Text) (pad' : Text) (d' : ℕ) (ds' unit' : Text) (ws : List Text)
    → IsNumber pad d ds
    → IsNumber pad' d' ds'
    → All IsLine
        (field (codes "MemTotal") pad d ds unit ∷ field (codes "MemFree") pad' d' ds' unit' ∷ ws)
    → All IsOther ws
    → get_memory_info (
        some (
          join (
            field (codes "MemTotal") pad d ds unit
            ∷ field (codes "MemFree") pad' d' ds' unit'
            ∷ ws)))
      ≡ ok (pos (digits_value 0 (d ∷ ds)), pos (digits_value 0 (d' ∷ ds')))
unfolding get_memory_info read_lines
get_memory_info-fields pad d ds unit pad' d' ds' unit' ws is is' lines others =
    let total = field (codes "MemTotal") pad d ds unit in
    let free = field (codes "MemFree") pad' d' ds' unit' in
    let start : Memory = record { mem_total = none; mem_free = none } in
    ap printed (
      memory_loop-lines (suc (length (join (total ∷ free ∷ ws)))) (total ∷ free ∷ ws) start
        (omega arith) lines
      ∙ ap (λ m. read_lines ws (memory_line (free ++ 10 ∷ []) m))
          (total_line pad d ds unit is start)
      ∙ ap (read_lines ws) (
          free_line pad' d' ds' unit' is'
            (record start { mem_total = some (pos (digits_value 0 (d ∷ ds))) }))
      ∙ read_lines-IsOther ws _ others)
