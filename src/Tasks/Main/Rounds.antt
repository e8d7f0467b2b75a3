-- ===== src/Tasks/Main/Rounds.antt =====
-- The requests and the naps of the loop of `main`.
use sp327_butt_k.Base.{ℕ, zero, suc, ◌+◌, Option, none, some, List, [], ◌∷◌}
use sp327_butt_k.Text.{Text}
use sp327_butt_k.Tasks.{Timespec, Request}
use sp327_butt_k.Tasks.Delays.{Between}
use sp327_butt_k.M9.ThreadPool.{ThreadPool}
use sp327_butt_k.Tasks.Requests.{from}
use sp327_butt_k.Tasks.Main.{Action, enqueue, nap, Rands}

unfoldable pub requests : List Action → List (Option Request)
requests [] = []
requests (enqueue r ∷ actions) = r ∷ requests actions
requests (nap ts ∷ actions) = requests actions

unfoldable pub naps : List Action → List (Option Timespec)
naps [] = []
naps (enqueue r ∷ actions) = naps actions
naps (nap ts ∷ actions) = ts ∷ naps actions

-- What `rand()` gives in the rounds from `i` on.
unfoldable pub draws : (rounds i : ℕ) → (ℕ → Rands) → List (ℕ × ℕ)
draws zero i rand = []
draws (suc rounds) i rand = ((rand i).type, (rand i).arg) ∷ draws rounds (i + 1) rand

-- A nap of 50 to 500 milliseconds.
abbrev pub IsNap : Option Timespec → Type 0
IsNap none = ⊥
IsNap (some ts) = Between 50 500 ts

-- Each request and then its nap, from the requests and the naps.
unfoldable pub in_turn : List (Option Request) → List (Option Timespec) → List Action
in_turn (r ∷ rs) (t ∷ ts) = enqueue r ∷ nap t ∷ in_turn rs ts
in_turn rs ts = []

-- The pool of the threads 1 to `t`.
abbrev pub pool_of : ℕ → ThreadPool
pool_of t = record { next_thread_id = 1 + t; num_threads = t; threads = from 1 t }
