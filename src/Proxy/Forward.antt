-- ===== src/Proxy/Forward.antt =====
-- `forward_request` on well-formed requests: the absolute URL becomes a path, the rest is passed on.
use sp327_butt_k.Base.{
  ℕ, ◌+◌, ◌-◌, ◌≤◌, ◌<◌, ◌≡◌, refl, ap, ◌∙◌, true, false, none, some, [], ◌∷◌, ◌++◌, arith, ◌==◌,
  length, length-append, append_assoc, append-nil, All,
}
use sp327_butt_k.Text.{Text, is_solid, take, drop, starts_with, strchr, strstr}
use sp327_butt_k.Text.Span.{strchr-append}
use sp327_butt_k.Proxy.{
  ok, rejected, http, crlf, path_or_root, headers_after, modified_request, forward_request,
  parse_http_request,
}
use sp327_butt_k.Proxy.Parse.{
  WellFormed, request, scan_request_line-request, parse-rejected, take-length,
}

-- No line break begins in a text without carriage returns.
strstr-crlf :
    (w r : Text) → All (λ c. (13 == c) ≡ false) w → strstr crlf (w ++ crlf ++ r) ≡ some (crlf ++ r)
unfolding strstr
strstr-crlf [] r all = refl
strstr-crlf (c ∷ w) r all = rw all.0 (strstr-crlf w r all.1)

strchr-none : (c : ℕ) (w : Text) → All (λ d. (c == d) ≡ false) w → strchr c w ≡ none
unfolding strchr
strchr-none c [] all = refl
strchr-none c (d ∷ w) all = rw all.0 (strchr-none c w all.1)

-- The path of a URL: "/" where it has none.
abbrev pub path_of : Text → Text
path_of [] = 47 ∷ []
path_of (c ∷ p) = c ∷ p

abbrev StartsSlash : Text → Type 0
StartsSlash [] = Unit {0}
StartsSlash (c ∷ p) = c ≡ 47

path-ok :
    (host path : Text)
    → All (λ c. (47 == c) ≡ false) host
    → StartsSlash path
    → length path ≤ 1023
    → path_or_root (strchr 47 (host ++ path)) ≡ path_of path
path-ok host [] no_slash sl le =
    ap (λ t. path_or_root (strchr 47 t)) (append-nil host)
    ∙ ap path_or_root (strchr-none 47 host no_slash)
path-ok host (c ∷ p) no_slash sl le =
    rw sl
      (ap path_or_root (strchr-append 47 host p no_slash) ∙ take-length 1023 (47 ∷ p) (omega arith))

solid-cr : (w : Text) → All (λ c. is_solid c ≡ true) w → All (λ c. (13 == c) ≡ false) w
solid-cr [] a = tt
solid-cr (c ∷ w) a = (ground (arith, a.0), solid-cr w a.1)

no_cr-append :
    (xs ys : Text)
    → All (λ c. (13 == c) ≡ false) xs
    → All (λ c. (13 == c) ≡ false) ys
    → All (λ c. (13 == c) ≡ false) (xs ++ ys)
no_cr-append [] ys a b = b
no_cr-append (x ∷ xs) ys a b = (a.0, no_cr-append xs ys a.1 b)

-- The first line break of a request is the one behind its request line.
first_break :
    {m u p r : Text}
    → WellFormed m u p (crlf ++ r)
    → strstr crlf (request m u p (crlf ++ r)) ≡ some (crlf ++ r)
first_break {m} {u} {p} {r} wf =
    let line = m ++ 32 ∷ (u ++ 32 ∷ p) in
    let same : request m u p (crlf ++ r) ≡ line ++ crlf ++ r = simp append_assoc in
    rw same (
      strstr-crlf line r (
        no_cr-append m _ (solid-cr m wf.method.2)
          (refl, no_cr-append u _ (solid-cr u wf.url.2) (refl, solid-cr p wf.protocol.2))))

regroup :
    (m q p r : Text)
    → (m ++ 32 ∷ (q ++ 32 ∷ (p ++ crlf))) ++ r ≡ m ++ 32 ∷ (q ++ 32 ∷ (p ++ (crlf ++ r)))
regroup m q p r = simp append_assoc

length-path_of : (p : Text) → length (path_of p) ≤ length p + 1
length-path_of [] = omega arith
length-path_of (c ∷ p) = omega arith

length-url :
    (u host path : Text) → u ≡ http ++ (host ++ path) → length u ≡ 7 + (length host + length path)
length-url u host path e = rw e (omega (arith, length-append host path))

length-request :
    (m u p r : Text)
    → length (request m u p (crlf ++ r)) ≡ length m + length u + length p + length r + 4
length-request m u p r = omega (
  arith,
  length-append m (32 ∷ (u ++ 32 ∷ (p ++ (crlf ++ r)))),
  length-append u (32 ∷ (p ++ (crlf ++ r))),
  length-append p (crlf ++ r),
)

-- The new request, where nothing is cut.
modified-fits :
    (b m q p r : Text)
    → strstr crlf b ≡ some (crlf ++ r)
    → length m + length q + length p + length r + 4 ≤ 4095
    → modified_request b m q p ≡ m ++ 32 ∷ (q ++ 32 ∷ (p ++ (crlf ++ r)))
unfolding modified_request
modified-fits b m q p r brk fits =
    let line = m ++ 32 ∷ (q ++ 32 ∷ (p ++ crlf)) in
    let len : length line ≡ length m + length q + length p + 4 = omega (
      arith,
      length-append m (32 ∷ (q ++ 32 ∷ (p ++ crlf))),
      length-append q (32 ∷ (p ++ crlf)),
      length-append p crlf,
    ) in
    let whole : take 4095 line ≡ line = take-length 4095 line (omega (arith, len)) in
    ap (λ t. t ++ headers_after (length t) (strstr crlf b)) whole
    ∙ ap (λ o. line ++ headers_after (length line) o) brk
    ∙ ap (λ t. line ++ t) (take-length (4096 - length line - 1) r (omega (arith, len)))
    ∙ regroup m q p r

module _ {m u p r : Text} (wf : WellFormed m u p (crlf ++ r)) where
  abbrev buffer : Text
  buffer = request m u p (crlf ++ r)

  -- A request line and headers that fit the buffer are sent on with the URL reduced to its path and
  -- everything behind the request line unchanged.
  pub forward-path :
      (host path : Text)
      → u ≡ http ++ (host ++ path)
      → All (λ c. (47 == c) ≡ false) host
      → StartsSlash path
      → length buffer < 4096
      → forward_request buffer ≡ ok (m ++ 32 ∷ (path_of path ++ 32 ∷ (p ++ (crlf ++ r))))
  unfolding forward_request
  forward-path host path e no_slash sl fits =
      let is_http : starts_with http u ≡ true = rw e in
      let short : length path ≤ 1023 = omega (arith, length-url u host path e, wf.url) in
      let path_is : path_or_root (strchr 47 (drop 7 u)) ≡ path_of path =
        rw e (path-ok host path no_slash sl short) in
      rw (scan_request_line-request wf, is_http, path_is)
        (ap ok (
          modified-fits buffer m (path_of path) p r (first_break wf)
            (omega (arith, length-url u host path e, length-request m u p r, length-path_of path))))

  -- A request whose URL does not begin with "http://" is refused by both functions: no target is
  -- named, and nothing is sent.
  pub forward-rejected :
      starts_with http u ≡ false
      → (parse_http_request buffer ≡ rejected) × (forward_request buffer ≡ rejected)
  unfolding forward_request
  forward-rejected other = (parse-rejected wf other, rw (scan_request_line-request wf, other))
