-- ===== src/Proxy/Relay.antt =====
-- The sockets of proxy_server/http_proxy.c: receiving a request, connecting to the target, and passing
-- the answer on. What the network does is a parameter; the model lists what the program does to
-- sockets, oldest first.
pub mod Sockets
pub mod Delivery
use sp327_butt_k.Base.{
  ℕ, ◌+◌, Bool, true, false, Option, none, some, List, [], ◌∷◌, ◌++◌, ◌==◌, ◌&&◌, if◌then◌else◌,
  length,
}
use sp327_butt_k.Text.{Text, take}
use sp327_butt_k.Proxy.{
  Outcome, ok, rejected, fault, ◌>>=◌, Target, parse_http_request, forward_request,
}

abbrev pub Fd : Type 0
Fd = ℕ

pub data NetEvent : Type 0 where
  opened : Fd → NetEvent
  closed : Fd → NetEvent
  sent : Fd → Text → NetEvent

-- One entry of the list from `getaddrinfo`: the descriptor that `socket` gives, if any, and whether
-- `connect` succeeds.
pub record Address : Type 0 where
  pub socket : Option Fd
  pub connects : Bool

-- One round of the loop in `forward_response`: what `recv` gave, and how many of these characters
-- `send` took (`none`: it failed).
pub record Chunk : Type 0 where
  pub bytes : Text
  pub accepted : Option ℕ

-- What the network does during one request. `received`: the text in the buffer, `none` if `recv` gave
-- nothing. `resolve`: the addresses of a target, `none` if the name is unknown. The list of chunks
-- ends where `recv` gives nothing more.
pub record Net : Type 0 where
  pub received : Option Text
  pub resolve : Target → Option (List Address)
  pub target_accepts : Option ℕ
  pub response : List Chunk

-- The `for` of `connect_to_target_server`: a socket that cannot connect is closed again.
unfoldable pub connect_loop : List Address → Option Fd × List NetEvent
connect_loop [] = (none, [])
connect_loop (a ∷ rest) =
    let (found, events) = connect_loop rest in
    elim a.socket [
      | none ↦ (found, events)
      | some fd ↦
          if a.connects then (some fd, opened fd ∷ []) else (found, opened fd ∷ closed fd ∷ events)
    ]

abbrev pub connect_all : Option (List Address) → Option Fd × List NetEvent
connect_all none = (none, [])
connect_all (some addresses) = connect_loop addresses

unfoldable pub connect_to_target_server : Net → Target → Option Fd × List NetEvent
connect_to_target_server net t = connect_all (net.resolve t)

abbrev pub sent_part : Fd → Text → Option ℕ → List NetEvent
sent_part fd text none = []
sent_part fd text (some k) = sent fd (take k text) ∷ []

-- The loop ends at the first failed `send`.
unfoldable pub forward_response : Fd → List Chunk → List NetEvent
forward_response client [] = []
forward_response client (c ∷ cs) =
    let rest = forward_response client cs in
    elim c.accepted [ none ↦ [] | some k ↦ sent client (take k c.bytes) ∷ rest ]

-- What a call did, and whether it reached its end.
pub record Handled : Type 0 where
  pub events : List NetEvent
  pub completed : Bool

abbrev pub left_early : List NetEvent → Outcome Handled
left_early events = ok (record { events = events; completed = false })

-- The request that goes to the target; nothing if `forward_request` returns early.
abbrev pub to_target : Fd → Option ℕ → Outcome Text → Outcome (List NetEvent)
to_target fd accepted (ok text) = ok (sent_part fd text accepted)
to_target fd accepted rejected = ok []
to_target fd accepted fault = fault

-- `handle_client_request` from the connection on.
abbrev pub exchange : Net → (client : Fd) → Text → Option Fd × List NetEvent → Outcome Handled
exchange net client buffer (none, events) = left_early events
exchange net client buffer (some target, events) =
    to_target target net.target_accepts (forward_request buffer) >>= λ request. ok (record {
      events =
          events
          ++ (request
              ++ (forward_response client net.response ++ closed target ∷ closed client ∷ []));
      completed = true;
    })

abbrev pub after_parse : Net → (client : Fd) → Text → Outcome Target → Outcome Handled
after_parse net client buffer (ok t) = exchange net client buffer (connect_to_target_server net t)
after_parse net client buffer rejected = left_early []
after_parse net client buffer fault = fault

abbrev pub after_receive : Net → (client : Fd) → Option Text → Outcome Handled
after_receive net client none = left_early []
after_receive net client (some buffer) = after_parse net client buffer (parse_http_request buffer)

unfoldable pub handle_client_request : Net → (client : Fd) → Outcome Handled
handle_client_request net client = after_receive net client net.received
