-- ===== src/SystemInfo/Examples.antt =====
-- Short files in full, and the theorems at them.
use sp327_butt_k.Base.{
  ◌/◌, ◌≡◌, refl, some, [], ◌∷◌, arith, pos, ℤ, Option, none, if◌then◌else◌, ◌-ℤ◌,
}
use sp327_butt_k.Text.{codes, span, skip_spaces, digits_value, Text}
use sp327_butt_k.SystemInfo.{
  ok, cut_line, fgets, first_line, scan_long, scan_usage, get_cpu_usage, get_memory_info, Float,
  get_uptime, parts_of, exited, is_int,
}
use sp327_butt_k.SystemInfo.Lines.{field, join, get_memory_info-fields}

usage_run :
    get_cpu_usage (some (codes "cpu  10 20 30 40 0\n"))
    ≡ ok (record { user = pos 10; system = pos 30; idle = pos 40 })
unfolding get_cpu_usage first_line fgets cut_line scan_usage scan_long span skip_spaces digits_value
usage_run = refl

get_memory_info-fields_example :
    get_memory_info (
      some (
        join (
          field (codes "MemTotal") (codes "  ") 49 (codes "6") (codes "kB")
          ∷ field (codes "MemFree") (codes " ") 56 [] (codes "kB")
          ∷ codes "Buffers: 1 kB"
          ∷ [])))
    ≡ ok (pos 16, pos 8)
unfolding digits_value
get_memory_info-fields_example =
    get_memory_info-fields (codes "  ") 49 (codes "6") (codes "kB") (codes " ") 56 [] (codes "kB")
      (codes "Buffers: 1 kB" ∷ [])
      (record { spaces = ground arith; digits = ground arith; small = omega arith })
      (record { spaces = ground arith; digits = ground arith; small = omega arith }) (ground arith)
      (ground arith)

-- Whole seconds, as an instance of `Float`.
abbrev divided : ℤ → ℤ → ℤ
divided (pos a) (pos b) = pos (a / b)
divided a b = a

abbrev next_number : Option (ℤ × Text) → Option ℤ
next_number none = none
next_number (some (n, rest)) = some n

abbrev whole : Float ℤ
whole = record {
  scan = λ text. next_number (scan_long text);
  sub = λ a n. a -ℤ n;
  div = divided;
  trunc = λ a. if is_int a then some a else none;
}

uptime_run :
    get_uptime whole (some (codes "200000.75 90000.0"))
    ≡ ok (record { days = pos 2; hours = pos 7; minutes = pos 33; seconds = pos 20 })
unfolding get_uptime parts_of scan_long span skip_spaces digits_value
uptime_run = refl

uptime_missing : get_uptime whole none ≡ exited
unfolding get_uptime
uptime_missing = refl
