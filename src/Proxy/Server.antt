-- ===== src/Proxy/Server.antt =====
-- proxy_server/main.c: the accept loop. It puts each client's request into `request_queue`, which no
-- other function of the program takes from: `thread_pool_init` gives every worker a queue of its own
-- (worker_thread.c).
use sp327_butt_k.Base.{
  ap, sym, ◌∙◌, append-nil, append_assoc, ◌≡◌, refl, Bool, true, false, List, [], ◌∷◌, ◌++◌, arith,
  if◌then◌else◌,
}
use sp327_butt_k.Memory.{Ptr}
use sp327_butt_k.Queue.Spec
use sp327_butt_k.Queue.Spec.{Fifo}

-- One round of the accept loop.
pub data Round : Type 0 where
  no_socket_memory : Round  -- malloc of the descriptor fails: continue
  accept_failed : Round  -- accept gives -1
  interrupted : Round  -- SIGINT during accept, which gives -1: the handler has run
  no_request_memory : Round  -- malloc of the request fails: continue
  client : (request : Ptr) → Round  -- a connection and its request object

pub record Server : Type 0 where
  pub request_queue : Fifo
  pub shutdown_requested : Bool

abbrev pub start : Server
start = record { request_queue = Spec.empty; shutdown_requested = false }

unfoldable pub round : Round → Server → Server
round interrupted s = record s { shutdown_requested = true }
round (client request) s = record s { request_queue = Spec.enqueue request s.request_queue }
round _ s = s

-- `while (!shutdown_requested)` over the rounds that happen.
unfoldable pub serve : List Round → Server → Server
serve [] s = s
serve (r ∷ rs) s = if s.shutdown_requested then s else serve rs (round r s)

-- The requests of the clients that connect before the interrupt.
abbrev pub clients : List Round → List Ptr
clients [] = []
clients (interrupted ∷ rs) = []
clients (client request ∷ rs) = request ∷ clients rs
clients (_ ∷ rs) = clients rs

serve-shut : (rs : List Round) (s : Server) → s.shutdown_requested ≡ true → serve rs s ≡ s
unfolding serve
serve-shut [] s e = refl
serve-shut (r ∷ rs) s e = ground (arith, e)

serve-step :
    (r : Round) (rs : List Round) (s : Server)
    → s.shutdown_requested ≡ false
    → serve (r ∷ rs) s ≡ serve rs (round r s)
unfolding serve
serve-step r rs s e = ground (arith, e)

serve-clients :
    (rs : List Round) (s : Server)
    → s.shutdown_requested ≡ false
    → s.request_queue.closed ≡ false
    → (serve rs s).request_queue.items ≡ s.request_queue.items ++ clients rs
unfolding serve round Spec.enqueue
serve-clients [] s run op = sym (append-nil s.request_queue.items)
serve-clients (interrupted ∷ rs) s run op =
    simp (run, serve-shut rs (record s { shutdown_requested = true }) refl)
      (sym (append-nil s.request_queue.items))
serve-clients (client request ∷ rs) s run op =
    ap (λ t. t.request_queue.items) (serve-step (client request) rs s run)
    ∙ serve-clients rs (round (client request) s) run (ground (arith, op))
    ∙ ground (arith, op, append_assoc s.request_queue.items (request ∷ []) (clients rs))
serve-clients (no_socket_memory ∷ rs) s run op = simp run (serve-clients rs s run op)
serve-clients (accept_failed ∷ rs) s run op = simp run (serve-clients rs s run op)
serve-clients (no_request_memory ∷ rs) s run op = simp run (serve-clients rs s run op)

-- The accept loop leaves the requests of all clients that connect before the interrupt in
-- `request_queue`, each once and in order.
pub clients_queued : (rs : List Round) → (serve rs start).request_queue.items ≡ clients rs
clients_queued rs = serve-clients rs start refl refl
