-- ===== src/Tasks/Requests.antt =====
-- The requests that M9/main.c creates.
use sp327_butt_k.Base.{
  pos, ℕ, zero, suc, ◌+◌, ◌%◌, ◌<◌, ◌≡◌, refl, ap, Option, some, none, List, [], ◌∷◌, arith, length,
  All,
}
use sp327_butt_k.Tasks.{
  Request, write_log, compute, sleep, Timespec, random_sleep_time_in_range, create_request,
  create_requests, sleep_request,
}
use sp327_butt_k.Tasks.Delays.{Between, sleep_time-Between}

-- What main may put on the queue: a request, with an argument in range.
abbrev pub IsGood : Option Request → Type 0
IsGood none = ⊥
IsGood (some (write_log n)) = Unit {0}
IsGood (some (compute n)) = n < 1000
IsGood (some (sleep ts)) = Between 25 250 ts

-- The numbers in the log messages, in order.
abbrev pub message_numbers : List (Option Request) → List ℕ
message_numbers [] = []
message_numbers (some (write_log n) ∷ rs) = n ∷ message_numbers rs
message_numbers (_ ∷ rs) = message_numbers rs

-- `n` numbers from `k` on.
abbrev pub from : ℕ → ℕ → List ℕ
from k zero = []
from k (suc n) = k ∷ from (k + 1) n

create_request-IsGood : (t rand k : ℕ) → t < 3 → IsGood (create_request t rand k).1
unfolding create_request
create_request-IsGood zero rand k lt = tt
create_request-IsGood (suc zero) rand k lt = omega arith
create_request-IsGood (suc (suc zero)) rand k lt =
    let (ts, e, between) = sleep_time-Between 25 250 rand (omega arith) (omega arith) in
    rw e between
create_request-IsGood (suc (suc (suc t))) rand k lt = absurd (omega arith)

-- Every round of main creates one request, never NULL, and with an argument in range.
pub requests-IsGood :
    (rands : List (ℕ × ℕ)) (k : ℕ)
    → (length (create_requests rands k) ≡ length rands) × All IsGood (create_requests rands k)
unfolding create_requests
requests-IsGood [] k = (refl, tt)
requests-IsGood ((t, a) ∷ rands) k =
    let rest = requests-IsGood rands (create_request (t % 3) a k).0 in
    (ap suc rest.0, (create_request-IsGood (t % 3) a k (omega arith), rest.1))

-- The numbers that follow a round which left the counter and the request `r`.
abbrev Numbered : List (ℕ × ℕ) → (k : ℕ) → ℕ × Option Request → Type 0
Numbered rands k (next, r) =
    message_numbers (r ∷ create_requests rands next)
    ≡ from k (length (message_numbers (r ∷ create_requests rands next)))

round-Numbered :
    (rands : List (ℕ × ℕ)) (t rand k : ℕ)
    → ((j : ℕ)
        → message_numbers (create_requests rands j)
          ≡ from j (length (message_numbers (create_requests rands j))))
    → Numbered rands k (create_request t rand k)
unfolding create_request
round-Numbered rands zero rand k ih = ap (◌∷◌ k) (ih (k + 1))
round-Numbered rands (suc zero) rand k ih = ih k
round-Numbered rands (suc (suc zero)) rand k ih =
    slept (random_sleep_time_in_range (pos 25) (pos 250) rand)
  where
    slept : (o : Option Timespec) → Numbered rands k (sleep_request k o)
    slept none = ih k
    slept (some ts) = ih k
round-Numbered rands (suc (suc (suc t))) rand k ih = ih k

-- The log messages are numbered one after the other, from the counter's start.
pub requests_numbered :
    (rands : List (ℕ × ℕ)) (k : ℕ)
    → message_numbers (create_requests rands k)
      ≡ from k (length (message_numbers (create_requests rands k)))
unfolding create_requests
requests_numbered [] k = refl
requests_numbered ((t, a) ∷ rands) k =
    round-Numbered rands (t % 3) a k (λ j. requests_numbered rands j)
