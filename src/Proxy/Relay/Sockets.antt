-- ===== src/Proxy/Relay/Sockets.antt =====
-- Which sockets `handle_client_request` opens and closes.
use sp327_butt_k.Base.{
  ℕ, ◌+◌, ◌≡◌, refl, true, Option, none, some, List, [], ◌∷◌, ◌++◌, ◌==◌, ◌&&◌, arith,
  if◌then◌else◌,
}
use sp327_butt_k.Text.{Text}
use sp327_butt_k.Proxy.{
  ◌>>=◌, Outcome, ok, rejected, fault, Target, parse_http_request, forward_request,
}
use sp327_butt_k.Proxy.Relay.{
  Fd, NetEvent, opened, closed, sent, Address, Chunk, Net, connect_loop, connect_all,
  connect_to_target_server, sent_part, forward_response, Handled, to_target, exchange, after_parse,
  after_receive, handle_client_request,
}

-- How often a descriptor is opened and closed.
abbrev pub opens : Fd → List NetEvent → ℕ
opens fd [] = 0
opens fd (opened d ∷ es) = (if d == fd then 1 else 0) + opens fd es
opens fd (closed d ∷ es) = opens fd es
opens fd (sent d t ∷ es) = opens fd es

abbrev pub closes : Fd → List NetEvent → ℕ
closes fd [] = 0
closes fd (closed d ∷ es) = (if d == fd then 1 else 0) + closes fd es
closes fd (opened d ∷ es) = closes fd es
closes fd (sent d t ∷ es) = closes fd es

opens-append : (fd : Fd) (xs ys : List NetEvent) → opens fd (xs ++ ys) ≡ opens fd xs + opens fd ys
opens-append fd [] ys = omega arith
opens-append fd (opened d ∷ xs) ys = omega (arith, opens-append fd xs ys)
opens-append fd (closed d ∷ xs) ys = opens-append fd xs ys
opens-append fd (sent d t ∷ xs) ys = opens-append fd xs ys

closes-append :
    (fd : Fd) (xs ys : List NetEvent) → closes fd (xs ++ ys) ≡ closes fd xs + closes fd ys
closes-append fd [] ys = omega arith
closes-append fd (closed d ∷ xs) ys = omega (arith, closes-append fd xs ys)
closes-append fd (opened d ∷ xs) ys = closes-append fd xs ys
closes-append fd (sent d t ∷ xs) ys = closes-append fd xs ys

-- The connected socket, if there is one, is the only one still open.
abbrev still_open : Fd → Option Fd → ℕ
still_open fd none = 0
still_open fd (some d) = if d == fd then 1 else 0

connect_loop-open :
    (fd : Fd) (as' : List Address)
    → opens fd (connect_loop as').1
      ≡ closes fd (connect_loop as').1 + still_open fd (connect_loop as').0
unfolding connect_loop
connect_loop-open fd [] = refl
connect_loop-open fd (a ∷ rest) = ground (arith, connect_loop-open fd rest)

forward_response-quiet :
    (fd client : Fd) (cs : List Chunk)
    → (opens fd (forward_response client cs) ≡ 0) × (closes fd (forward_response client cs) ≡ 0)
unfolding forward_response
forward_response-quiet fd client [] = (refl, refl)
forward_response-quiet fd client (c ∷ cs) = ground (arith, forward_response-quiet fd client cs)

-- Every descriptor is closed as often as it is opened; the client's once more, if the call reached
-- its end.
abbrev pub Balanced : Fd → Handled → Type 0
Balanced client h =
    (fd : Fd)
    → closes fd h.events ≡ opens fd h.events + (if h.completed && client == fd then 1 else 0)

abbrev pub Ok : {A : Type 0} → (A → Type 0) → Outcome A → Type 0
Ok P (ok a) = P a
Ok P _ = Unit {0}

module _ (net : Net) (client : Fd) where
  exchange-Balanced :
      (b : Text) (c : Option Fd × List NetEvent)
      → ((fd : Fd) → opens fd c.1 ≡ closes fd c.1 + still_open fd c.0)
      → Ok (Balanced client) (exchange net client b c)
  exchange-Balanced b (none, es) open_is = λ fd. omega (arith, open_is fd)
  exchange-Balanced b (some d, es) open_is = finish (forward_request b)
    where
      tail : List NetEvent
      tail = forward_response client net.response ++ closed d ∷ closed client ∷ []

      ends :
          (req : List NetEvent)
          → ((fd : Fd) → (opens fd req ≡ 0) × (closes fd req ≡ 0))
          → Balanced client (record { events = es ++ (req ++ tail); completed = true })
      ends req quiet fd = ground (
        arith,
        open_is fd,
        quiet fd,
        forward_response-quiet fd client net.response,
        opens-append fd es (req ++ tail),
        opens-append fd req tail,
        opens-append fd (forward_response client net.response) (closed d ∷ closed client ∷ []),
        closes-append fd es (req ++ tail),
        closes-append fd req tail,
        closes-append fd (forward_response client net.response) (closed d ∷ closed client ∷ []),
      )

      finish :
          (o : Outcome Text)
          → Ok (Balanced client) (
              to_target d net.target_accepts o >>= λ request.
              ok (record { events = es ++ (request ++ tail); completed = true }))
      finish (ok t) = ends (sent_part d t net.target_accepts) (part net.target_accepts)
        where
          part :
              (k : Option ℕ) (fd : Fd)
              → (opens fd (sent_part d t k) ≡ 0) × (closes fd (sent_part d t k) ≡ 0)
          part none fd = (refl, refl)
          part (some k) fd = (refl, refl)
      finish rejected = ends [] (λ fd. (refl, refl))
      finish fault = tt

  -- `handle_client_request` closes every socket that it opens, on every path. The client's socket,
  -- which is open at entry, it closes exactly if it reaches its end: each early return leaves it open.
  -- (Runs into undefined behaviour are left out.)
  pub sockets_balance : Ok (Balanced client) (handle_client_request net client)
  unfolding handle_client_request connect_to_target_server
  sockets_balance = receive net.received
    where
      resolved :
          (o : Option (List Address)) (fd : Fd)
          → opens fd (connect_all o).1
            ≡ closes fd (connect_all o).1 + still_open fd (connect_all o).0
      resolved none fd = refl
      resolved (some addresses) fd = connect_loop-open fd addresses

      parsed : (b : Text) (o : Outcome Target) → Ok (Balanced client) (after_parse net client b o)
      parsed b (ok t) =
          exchange-Balanced b (connect_to_target_server net t) (resolved (net.resolve t))
      parsed b rejected = λ fd. refl
      parsed b fault = tt

      receive : (o : Option Text) → Ok (Balanced client) (after_receive net client o)
      receive none = λ fd. refl
      receive (some b) = parsed b (parse_http_request b)
