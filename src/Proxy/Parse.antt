-- ===== src/Proxy/Parse.antt =====
-- `parse_http_request` on well-formed requests, and on those that it rejects or cannot hold.
use sp327_butt_k.Base.{
  ℕ, zero, suc, ◌≤◌, ◌<◌, ◌≡◌, refl, ap, ◌∙◌, Bool, true, false, not, ◌||◌, some, [], ◌∷◌, ◌++◌,
  arith, ◌==◌, ltb, length, All, if◌then◌else◌,
}
use sp327_butt_k.Text.{
  Text, is_solid, is_digit, is_space, skip_spaces, nonempty, take, drop, digits_value, starts_with,
}
use sp327_butt_k.Text.Span.{Stops, span-append, scan_word-append, scan_word-space}
use sp327_butt_k.Proxy.{
  ok, rejected, fault, stored, word_into, scan_request_line, http, scan_until, scan_int, number,
  number_of, signed_digits, in_int, host_alone, default_port, given_port, with_port,
  parse_authority, parse_http_request,
}

-- A word that fits an array of `size` characters.
abbrev pub IsWord : (size : ℕ) → Text → Type 0
IsWord size w = (0 < length w) × (length w < size) × All (λ c. is_solid c ≡ true) w

-- The request line `m u p` and what follows it.
abbrev pub request : (m u p r : Text) → Text
request m u p r = m ++ 32 ∷ (u ++ 32 ∷ (p ++ r))

pub record WellFormed (m u p r : Text) : Type 0 where
  pub method : IsWord 10 m
  pub url : IsWord 1024 u
  pub protocol : IsWord 10 p
  pub ends : Stops is_solid r

word_into-append :
    (size : ℕ) (w r : Text)
    → IsWord size w
    → Stops is_solid r
    → word_into size (w ++ r) ≡ ok (some w, r)
unfolding word_into
word_into-append size [] r is stop = absurd (omega arith)
word_into-append size (c ∷ w) r is stop =
    let fits : ltb (length (c ∷ w)) size ≡ true = ground arith in
    ap (stored size) (scan_word-append c w r is.2 stop) ∙ rw fits

word_into-space :
    (size : ℕ) (w r : Text)
    → IsWord size w
    → Stops is_solid r
    → word_into size (32 ∷ (w ++ r)) ≡ ok (some w, r)
unfolding word_into
word_into-space size [] r is stop = absurd (omega arith)
word_into-space size (c ∷ w) r is stop =
    let fits : ltb (length (c ∷ w)) size ≡ true = ground arith in
    ap (stored size) (scan_word-space c w r is.2 stop) ∙ rw fits

pub scan_request_line-request :
    {m u p r : Text}
    → WellFormed m u p r
    → scan_request_line (request m u p r)
      ≡ ok (record { method = some m; url = some u; protocol = some p })
unfolding scan_request_line
scan_request_line-request {m} {u} {p} {r} wf = rw (
  word_into-append 10 m _ wf.method refl,
  word_into-space 1024 u _ wf.url refl,
  word_into-space 10 p r wf.protocol wf.ends,
)

pub take-length : (n : ℕ) (w : Text) → length w ≤ n → take n w ≡ w
take-length zero [] le = refl
take-length zero (c ∷ w) le = absurd (omega arith)
take-length (suc n) [] le = refl
take-length (suc n) (c ∷ w) le = ap (◌∷◌ c) (take-length n w (omega arith))

drop-length : (w r : Text) → drop (length w) (w ++ r) ≡ r
drop-length [] r = refl
drop-length (c ∷ w) r = drop-length w r

-- `%255[^...]` takes a whole host of at most 255 characters.
scan_until-append :
    (stop : ℕ → Bool) (c : ℕ) (w r : Text)
    → length (c ∷ w) ≤ 255
    → All (λ d. not (stop d) ≡ true) (c ∷ w)
    → Stops (λ d. not (stop d)) r
    → scan_until stop ((c ∷ w) ++ r) ≡ some (c ∷ w, r)
unfolding scan_until
scan_until-append stop c w r le all ends =
    let cut =
      λ (t : Text × Text). nonempty (take 255 t.0, drop (length (take 255 t.0)) ((c ∷ w) ++ r)) in
    ap cut (span-append (λ d. not (stop d)) (c ∷ w) r all ends)
    ∙ ap (λ t. nonempty (t, drop (length t) ((c ∷ w) ++ r))) (take-length 255 (c ∷ w) le)
    ∙ ap (λ t. some (c ∷ w, t)) (drop-length (c ∷ w) r)

abbrev in_host : ℕ → Bool
in_host c = not (c == 58 || c == 47)

scan_int-digits :
    (d : ℕ) (ds r : Text)
    → All (λ c. is_digit c ≡ true) (d ∷ ds)
    → Stops is_digit r
    → scan_int ((d ∷ ds) ++ r) ≡ number false (digits_value 0 (d ∷ ds))
unfolding scan_int skip_spaces
scan_int-digits d ds r digits ends =
    let solid : is_space d ≡ false = ground (arith, digits.0) in
    let minus : (d == 45) ≡ false = ground (arith, digits.0) in
    let plus : (d == 43) ≡ false = ground (arith, digits.0) in
    ap (λ t. signed_digits t.1) (span-append is_space [] ((d ∷ ds) ++ r) tt solid)
    ∙ rw (minus, plus) (ap (λ t. number_of false t.0) (span-append is_digit (d ∷ ds) r digits ends))

-- The text behind "http://".
module _ (h : ℕ) (hs : Text) (short : length (h ∷ hs) ≤ 255) where
  parse_authority-port :
      (d : ℕ) (ds path : Text)
      → All (λ c. in_host c ≡ true) (h ∷ hs)
      → All (λ c. is_digit c ≡ true) (d ∷ ds)
      → Stops is_digit path
      → digits_value 0 (d ∷ ds) < 2147483648
      → parse_authority ((h ∷ hs) ++ 58 ∷ ((d ∷ ds) ++ path))
        ≡ ok (record { hostname = h ∷ hs; negative_port = false; port = digits_value 0 (d ∷ ds) })
  unfolding parse_authority
  parse_authority-port d ds path host digits ends small =
      let whole = (h ∷ hs) ++ 58 ∷ ((d ∷ ds) ++ path) in
      let fits : in_int false (digits_value 0 (d ∷ ds)) ≡ true = ground arith in
      ap (with_port whole)
        (scan_until-append (λ c. c == 58 || c == 47) h hs (58 ∷ ((d ∷ ds) ++ path)) short host refl)
      ∙ ap (given_port whole (h ∷ hs)) (scan_int-digits d ds path digits ends)
      ∙ rw fits

  parse_authority-default :
      (path : Text)
      → All (λ c. in_host c ≡ true) (h ∷ hs)
      → Stops (λ c. not (c == 47)) path
      → parse_authority ((h ∷ hs) ++ path)
        ≡ ok (record { hostname = h ∷ hs; negative_port = false; port = 80 })
  unfolding parse_authority default_port
  parse_authority-default path host ends =
      ap (with_port ((h ∷ hs) ++ path))
        (scan_until-append (λ c. c == 58 || c == 47) h hs path short host (stops path ends))
      ∙ behind path ends
      ∙ ap host_alone
          (scan_until-append (λ c. c == 47) h hs path short (no_slash (h ∷ hs) host) ends)
    where
      stops : (p : Text) → Stops (λ c. not (c == 47)) p → Stops in_host p
      stops [] e = tt
      stops (c ∷ p) e = ground arith

      no_slash : (w : Text) → All (λ c. in_host c ≡ true) w → All (λ c. not (c == 47) ≡ true) w
      no_slash [] a = tt
      no_slash (c ∷ w) a = (ground (arith, a.0), no_slash w a.1)

      behind :
          (p : Text)
          → Stops (λ c. not (c == 47)) p
          → with_port ((h ∷ hs) ++ path) (some (h ∷ hs, p)) ≡ default_port ((h ∷ hs) ++ path)
      behind [] e = refl
      behind (c ∷ p) e = let other : (c == 58) ≡ false = ground arith in rw other

module _ {m u p r : Text} (wf : WellFormed m u p r) where
  abbrev buffer : Text
  buffer = request m u p r

  parse-url :
      parse_http_request buffer
      ≡ (if starts_with http u then parse_authority (drop 7 u) else rejected)
  unfolding parse_http_request
  parse-url = rw (scan_request_line-request wf)

  -- A request for `http://host:port...` names that host and port.
  pub parse-port :
      (h : ℕ) (hs : Text) (d : ℕ) (ds path : Text)
      → u ≡ http ++ ((h ∷ hs) ++ 58 ∷ ((d ∷ ds) ++ path))
      → length (h ∷ hs) ≤ 255
      → All (λ c. in_host c ≡ true) (h ∷ hs)
      → All (λ c. is_digit c ≡ true) (d ∷ ds)
      → Stops is_digit path
      → digits_value 0 (d ∷ ds) < 2147483648
      → parse_http_request buffer
        ≡ ok (record { hostname = h ∷ hs; negative_port = false; port = digits_value 0 (d ∷ ds) })
  parse-port h hs d ds path e short host digits ends small =
      parse-url ∙ rw e (parse_authority-port h hs short d ds path host digits ends small)

  -- A request for `http://host` or `http://host/...` names that host and port 80.
  pub parse-default_port :
      (h : ℕ) (hs path : Text)
      → u ≡ http ++ ((h ∷ hs) ++ path)
      → length (h ∷ hs) ≤ 255
      → All (λ c. in_host c ≡ true) (h ∷ hs)
      → Stops (λ c. not (c == 47)) path
      → parse_http_request buffer
        ≡ ok (record { hostname = h ∷ hs; negative_port = false; port = 80 })
  parse-default_port h hs path e short host ends =
      parse-url ∙ rw e (parse_authority-default h hs short path host ends)

  pub parse-rejected : starts_with http u ≡ false → parse_http_request buffer ≡ rejected
  parse-rejected other = parse-url ∙ rw other

word_into-long :
    (size c : ℕ) (w r : Text)
    → size ≤ length (c ∷ w)
    → All (λ d. is_solid d ≡ true) (c ∷ w)
    → Stops is_solid r
    → word_into size ((c ∷ w) ++ r) ≡ fault
unfolding word_into
word_into-long size c w r long solid ends =
    let over : ltb (length (c ∷ w)) size ≡ false = ground arith in
    ap (stored size) (scan_word-append c w r solid ends) ∙ rw over

-- A request whose first word has ten characters or more makes `sscanf` write past the end of
-- `method`, whatever follows the word.
pub long_method_fault :
    (c : ℕ) (w r : Text)
    → 10 ≤ length (c ∷ w)
    → All (λ d. is_solid d ≡ true) (c ∷ w)
    → Stops is_solid r
    → parse_http_request ((c ∷ w) ++ r) ≡ fault
unfolding parse_http_request scan_request_line
long_method_fault c w r long solid ends = rw (word_into-long 10 c w r long solid ends)
