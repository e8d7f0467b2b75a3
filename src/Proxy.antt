-- ===== src/Proxy.antt =====
-- proxy_server/http_proxy.c: the text of a request. `parse_http_request` finds the host and the port,
-- `forward_request` writes the request that goes to the target server. A `fault` is undefined
-- behaviour: a word that does not fit its array, or a read of an array that `sscanf` left unset.
pub mod Parse
pub mod Forward
pub mod Relay
pub mod Server
pub mod Main
mod Examples
use sp327_butt_k.Base.{
  ℕ, zero, suc, ◌+◌, ◌-◌, ◌^◌, Bool, true, false, not, ◌&&◌, Option, none, some, List, [], ◌∷◌,
  ◌++◌, ◌==◌, leb, ltb, length, if◌then◌else◌, ◌||◌,
}
use sp327_butt_k.Text.{
  Text, codes, is_space, is_digit, span, skip_spaces, scan_word, nonempty, take, drop, starts_with,
  strchr, strstr, digits_value,
}

pub data Outcome (A : Type 0) : Type 0 where
  ok : A → Outcome A
  rejected : Outcome A
  fault : Outcome A

infixl 5 ◌>>=◌
abbrev pub ◌>>=◌ : {A B : Type 0} → Outcome A → (A → Outcome B) → Outcome B
ok a >>= f = f a
rejected >>= f = rejected
fault >>= f = fault

abbrev pub stored : (size : ℕ) → Option (Text × Text) → Outcome (Option Text × Text)
stored size none = ok (none, [])
stored size (some (w, r)) = if ltb (length w) size then ok (some w, r) else fault

-- `%s` into an array of `size` characters; `none` leaves it unset.
unfoldable pub word_into : (size : ℕ) → Text → Outcome (Option Text × Text)
word_into size s = stored size (scan_word s)

pub record RequestLine : Type 0 where
  pub method : Option Text
  pub url : Option Text
  pub protocol : Option Text

-- `sscanf(buffer, "%s %s %s", method, url, protocol)`: after a failed conversion the text is at its
-- end, and the later ones fail too.
unfoldable pub scan_request_line : Text → Outcome RequestLine
scan_request_line buffer = do
  (method, r) ← word_into 10 buffer
  (url, r) ← word_into 1024 r
  (protocol, r) ← word_into 10 r
  ok (record { method = method; url = url; protocol = protocol })

-- The use of an array.
abbrev pub set : Option Text → Outcome Text
set none = fault
set (some w) = ok w

abbrev pub http : Text
http = codes "http://"

-- `%255[^...]`: at most 255 characters that pass the test, at least one.
unfoldable pub scan_until : (ℕ → Bool) → Text → Option (Text × Text)
scan_until stop s =
    let w = take 255 (span (λ c. not (stop c)) s).0 in nonempty (w, drop (length w) s)

-- `%d` into an `int`. A sign is allowed; a value out of range is undefined. The Boolean is the sign.
pub data Number : Type 0 where
  absent : Number
  number : (negative : Bool) (value : ℕ) → Number

abbrev pub number_of : Bool → Text → Number
number_of negative [] = absent
number_of negative (c ∷ ds) = number negative (digits_value 0 (c ∷ ds))

abbrev pub signed_digits : Text → Number
signed_digits [] = absent
signed_digits (c ∷ s) =
    if c == 45
    then number_of true (span is_digit s).0
    else if c == 43
    then number_of false (span is_digit s).0
    else number_of false (span is_digit (c ∷ s)).0

unfoldable pub scan_int : Text → Number
scan_int s = signed_digits (skip_spaces s)

pub record Target : Type 0 where
  pub hostname : Text
  pub negative_port : Bool
  pub port : ℕ

abbrev pub in_int : Bool → ℕ → Bool
in_int true n = leb n (2 ^ 31)
in_int false n = ltb n (2 ^ 31)

abbrev pub host_alone : Option (Text × Text) → Outcome Target
host_alone none = rejected
host_alone (some (host, _)) = ok (record { hostname = host; negative_port = false; port = 80 })

-- `sscanf(url + 7, "%255[^/]", hostname) == 1`, with the default port 80.
unfoldable pub default_port : Text → Outcome Target
default_port rest = host_alone (scan_until (λ c. c == 47) rest)

abbrev pub given_port : (rest host : Text) → Number → Outcome Target
given_port rest host absent = default_port rest
given_port rest host (number negative n) =
    if in_int negative n
    then ok (record { hostname = host; negative_port = negative; port = n })
    else fault

abbrev pub with_port : Text → Option (Text × Text) → Outcome Target
with_port rest none = default_port rest
with_port rest (some (host, [])) = default_port rest
with_port rest (some (host, c ∷ after)) =
    if c == 58 then given_port rest host (scan_int after) else default_port rest

-- `sscanf(url + 7, "%255[^:/]:%d", hostname, port) == 2`, and else the host alone.
unfoldable pub parse_authority : Text → Outcome Target
parse_authority rest = with_port rest (scan_until (λ c. c == 58 || c == 47) rest)

unfoldable pub parse_http_request : Text → Outcome Target
parse_http_request buffer = do
  line ← scan_request_line buffer
  url ← set line.url
  if starts_with http url then parse_authority (drop 7 url) else rejected

abbrev pub crlf : Text
crlf = 13 ∷ 10 ∷ []

-- `strchr(url + 7, '/')` copied into `path`, or "/".
abbrev pub path_or_root : Option Text → Text
path_or_root none = 47 ∷ []
path_or_root (some p) = take 1023 p

-- What stands behind the first line break, as far as it fits behind `len` characters.
abbrev pub headers_after : ℕ → Option Text → Text
headers_after len none = []
headers_after len (some h) = take (4096 - len - 1) (drop 2 h)

-- `snprintf` into 4096 characters, then `strncat` of the headers.
unfoldable pub modified_request : (buffer method path protocol : Text) → Text
modified_request buffer method path protocol =
    let line = take 4095 (method ++ 32 ∷ (path ++ 32 ∷ (protocol ++ crlf))) in
    line ++ headers_after (length line) (strstr crlf buffer)

-- The text that is handed to `send`; `rejected` where the function returns without sending.
unfoldable pub forward_request : Text → Outcome Text
forward_request buffer = do
  line ← scan_request_line buffer
  url ← set line.url
  if starts_with http url
      then (do
        method ← set line.method
        protocol ← set line.protocol
        ok (modified_request buffer method (path_or_root (strchr 47 (drop 7 url))) protocol))
      else rejected
