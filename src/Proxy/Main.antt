-- ===== src/Proxy/Main.antt =====
-- `main` of proxy_server/main.c: the set-up of the listening socket, the accept loop of Proxy/Server and
-- the end of the program, with what happens to the listening socket. An interrupt comes during `accept`.
use sp327_butt_k.Base.{
  ℕ, suc, ◌≡◌, refl, ap, ◌∙◌, Bool, true, false, ◌&&◌, Option, none, some, List, [], ◌∷◌, ◌==◌,
  if◌then◌else◌, ℤ, pos,
}
use sp327_butt_k.Proxy.Server.{
  Round, no_socket_memory, accept_failed, interrupted, no_request_memory, client, Server, start,
  round,
}

pub data Event : Type 0 where
  created : (threads : ℤ) → Event  -- `thread_pool_init`
  opened : (fd : ℕ) → Event
  reusable : (fd : ℕ) → Event  -- `setsockopt`
  bound : (fd port : ℕ) → Event
  listening : (fd backlog : ℕ) → Event
  closed : (fd : ℕ) → Event

pub data Exit : Type 0 where
  success : Exit
  failure : Exit
  serving : Exit  -- in the loop, after the last round

pub record Outcome : Type 0 where
  pub events : List Event
  pub exit : Exit

abbrev pub ended : Exit → Outcome
ended exit = record { events = []; exit = exit }

abbrev pub after : Event → Outcome → Outcome
after e o = record { events = e ∷ o.events; exit = o.exit }

-- What the calls of the set-up return.
pub record Setup : Type 0 where
  pub queue_created : Bool
  pub pool_created : Bool
  pub socket : Option ℕ
  pub bind_ok : Bool
  pub listen_ok : Bool

-- The handler closes the socket.
abbrev pub sigint_handler : Round → ℕ → Outcome → Outcome
sigint_handler interrupted fd rest = after (closed fd) rest
sigint_handler _ fd rest = rest

abbrev pub finish : ℕ → Outcome
finish fd = after (closed fd) (ended success)

unfoldable pub accept_loop : ℕ → List Round → Server → Outcome
accept_loop fd [] s = if s.shutdown_requested then finish fd else ended serving
accept_loop fd (r ∷ rs) s =
    let rest = accept_loop fd rs (round r s) in
    if s.shutdown_requested then finish fd else sigint_handler r fd rest

abbrev pub listen_step : Setup → ℕ → List Round → Outcome
listen_step os fd rs =
    if os.listen_ok
    then after (listening fd 100) (accept_loop fd rs start)
    else after (closed fd) (ended failure)

abbrev pub bind_step : Setup → ℕ → List Round → Outcome
bind_step os fd rs =
    if os.bind_ok
    then after (bound fd 8080) (listen_step os fd rs)
    else after (closed fd) (ended failure)

abbrev pub socket_step : Setup → Option ℕ → List Round → Outcome
socket_step os none rs = ended failure
socket_step os (some fd) rs = after (opened fd) (after (reusable fd) (bind_step os fd rs))

abbrev pub num_threads : (argc : ℕ) (arg : ℤ) → ℤ
num_threads argc arg = if argc == 2 then arg else pos 2

-- `arg` is `atoi(argv[1])`.
unfoldable pub main : Setup → (argc : ℕ) (arg : ℤ) → List Round → Outcome
main os argc arg rs =
    if os.queue_created && os.pool_created
    then after (created (num_threads argc arg)) (socket_step os os.socket rs)
    else ended failure

-- How often the program closes a socket.
unfoldable pub closes : List Event → ℕ
closes [] = 0
closes (closed fd ∷ events) = suc (closes events)
closes (created n ∷ events) = closes events
closes (opened fd ∷ events) = closes events
closes (reusable fd ∷ events) = closes events
closes (bound fd port ∷ events) = closes events
closes (listening fd backlog ∷ events) = closes events

unfoldable pub is_interrupted : List Round → Bool
is_interrupted [] = false
is_interrupted (interrupted ∷ rs) = true
is_interrupted (_ ∷ rs) = is_interrupted rs

-- How a program ends whose socket is set up, and how often it has closed the socket.
abbrev pub served : Bool → ℕ × Exit
served true = (2, success)
served false = (0, serving)

abbrev pub summary : Outcome → ℕ × Exit
summary o = (closes o.events, o.exit)

shut_summary :
    (fd : ℕ) (rs : List Round) (s : Server)
    → s.shutdown_requested ≡ true
    → summary (accept_loop fd rs s) ≡ (1, success)
unfolding accept_loop closes
shut_summary fd [] s e = rw e refl
shut_summary fd (r ∷ rs) s e = rw e refl

open_summary :
    (fd : ℕ) (rs : List Round) (s : Server)
    → s.shutdown_requested ≡ false
    → summary (accept_loop fd rs s) ≡ served (is_interrupted rs)
unfolding accept_loop closes is_interrupted round
open_summary fd [] s e = rw e refl
open_summary fd (interrupted ∷ rs) s e =
    rw e (ap (λ (t : ℕ × Exit). (suc t.0, t.1)) (shut_summary fd rs (round interrupted s) refl))
open_summary fd (client req ∷ rs) s e =
    let next = accept_loop fd rs (round (client req) s) in
    ap (λ (b : Bool). summary (if b then finish fd else next)) e
    ∙ open_summary fd rs (round (client req) s) e
open_summary fd (no_socket_memory ∷ rs) s e = simp e (open_summary fd rs s e)
open_summary fd (accept_failed ∷ rs) s e = simp e (open_summary fd rs s e)
open_summary fd (no_request_memory ∷ rs) s e = simp e (open_summary fd rs s e)

-- The same for every set-up.
abbrev pub expected : Setup → (interrupted : Bool) → ℕ × Exit
expected os i =
    if os.queue_created && os.pool_created
    then elim os.socket [
      | none ↦ (0, failure)
      | some fd ↦ if os.bind_ok && os.listen_ok then served i else (1, failure)
    ]
    else (0, failure)

abbrev setup : (queue_created pool_created bind_ok listen_ok : Bool) → Option ℕ → Setup
setup q p b l socket = record {
  queue_created = q;
  pool_created = p;
  socket = socket;
  bind_ok = b;
  listen_ok = l;
}

summary-setup :
    (q p b l : Bool) (socket : Option ℕ) (argc : ℕ) (arg : ℤ) (rs : List Round)
    → summary (main (setup q p b l socket) argc arg rs)
      ≡ expected (setup q p b l socket) (is_interrupted rs)
unfolding main closes
summary-setup false p b l o argc arg rs = refl
summary-setup true false b l o argc arg rs = refl
summary-setup true true b l none argc arg rs = refl
summary-setup true true false l (some fd) argc arg rs = refl
summary-setup true true true false (some fd) argc arg rs = refl
summary-setup true true true true (some fd) argc arg rs = open_summary fd rs start refl

-- A failed set-up ends with failure, and closes the socket once if there is one. After an interrupt the
-- program ends with success and has closed its socket twice; without one it serves on.
pub main_closes :
    (os : Setup) (argc : ℕ) (arg : ℤ) (rs : List Round)
    → summary (main os argc arg rs) ≡ expected os (is_interrupted rs)
unfolding main closes
main_closes os argc arg rs =
    summary-setup os.queue_created os.pool_created os.bind_ok os.listen_ok os.socket argc arg rs
