-- ===== src/Proxy/Relay/Delivery.antt =====
-- What the client receives from `forward_response`.
use sp327_butt_k.Base.{
  Option-cases, inl, inr, ℕ, zero, suc, ◌+◌, ◌≤◌, ◌<◌, ◌≡◌, refl, ap, none, some, List, [], ◌∷◌,
  ◌++◌, ◌==◌, arith, if◌then◌else◌, length, length-append, append_assoc, sym, ◌∙◌,
}
use sp327_butt_k.Text.{Text, take}
use sp327_butt_k.Proxy.Relay.{Fd, NetEvent, opened, closed, sent, Chunk, forward_response}

-- The text that was sent to a descriptor.
abbrev pub sent_to : Fd → List NetEvent → Text
sent_to fd [] = []
sent_to fd (sent d t ∷ es) = (if d == fd then t else []) ++ sent_to fd es
sent_to fd (opened d ∷ es) = sent_to fd es
sent_to fd (closed d ∷ es) = sent_to fd es

-- What the target answered in all.
abbrev pub response_of : List Chunk → Text
response_of [] = []
response_of (c ∷ cs) = c.bytes ++ response_of cs

-- `send` takes a chunk whole.
abbrev pub IsWhole : Chunk → Type 0
IsWhole c = c.accepted ≡ some (length c.bytes)

abbrev pub Each : (Chunk → Type 0) → List Chunk → Type 0
Each P [] = Unit {0}
Each P (c ∷ cs) = P c × Each P cs

take-all : (s : Text) → take (length s) s ≡ s
take-all [] = refl
take-all (c ∷ s) = ap (◌∷◌ c) (take-all s)

length-take-le : (n : ℕ) (s : Text) → length (take n s) ≤ length s
length-take-le zero s = omega arith
length-take-le (suc n) [] = omega arith
length-take-le (suc n) (c ∷ s) = omega (arith, length-take-le n s)

length-take-le_count : (n : ℕ) (s : Text) → length (take n s) ≤ n
length-take-le_count zero s = omega arith
length-take-le_count (suc n) [] = omega arith
length-take-le_count (suc n) (c ∷ s) = omega (arith, length-take-le_count n s)

-- As long as `send` takes each chunk whole, the client receives the target's answer, unchanged and in
-- order.
pub relay_whole :
    (client : Fd) (cs : List Chunk)
    → Each IsWhole cs
    → sent_to client (forward_response client cs) ≡ response_of cs
unfolding forward_response
relay_whole client [] all = refl
relay_whole client (c ∷ cs) all =
    ground (arith, all.0, take-all c.bytes, relay_whole client cs all.1)

module _ (client : Fd) (c : Chunk) (cs : List Chunk) where
  abbrev behind : Text
  behind = sent_to client (forward_response client cs)

  sent-exact :
      (k : ℕ)
      → c.accepted ≡ some k
      → sent_to client (forward_response client (c ∷ cs)) ≡ take k c.bytes ++ behind
  unfolding forward_response
  sent-exact k e = rw e (ground arith)

  sent-some :
      (k : ℕ)
      → c.accepted ≡ some k
      → length (sent_to client (forward_response client (c ∷ cs)))
        ≡ length (take k c.bytes) + length behind
  unfolding forward_response
  sent-some k e = ground (arith, e, length-append (take k c.bytes) behind)

  sent-none : c.accepted ≡ none → length (sent_to client (forward_response client (c ∷ cs))) ≡ 0
  unfolding forward_response
  sent-none e = rw e

length-sent :
    (client : Fd) (cs : List Chunk)
    → length (sent_to client (forward_response client cs)) ≤ length (response_of cs)
unfolding forward_response
length-sent client [] = omega arith
length-sent client (c ∷ cs) = elim (Option-cases c.accepted) [
  | inl e ↦ omega (arith, sent-none client c cs e)
  | inr (k, e) ↦ omega (
    arith,
    sent-some client c cs k e,
    length-take-le k c.bytes,
    length-sent client cs,
    length-append c.bytes (response_of cs),
  )
]

-- If `send` takes only the first `k` characters of one chunk, after chunks that it took whole: the
-- client receives the chunks before, those `k` characters, and directly behind them what the loop sends
-- for the chunks that follow. The rest of that chunk is never sent, and what the client receives is
-- shorter than the target's answer.
pub short_send_loses :
    (client : Fd) (before after : List Chunk) (c : Chunk) (k : ℕ)
    → Each IsWhole before
    → c.accepted ≡ some k
    → k < length c.bytes
    → (sent_to client (forward_response client (before ++ c ∷ after))
        ≡ response_of before ++ take k c.bytes ++ sent_to client (forward_response client after))
      × (length (sent_to client (forward_response client (before ++ c ∷ after)))
          < length (response_of (before ++ c ∷ after)))
unfolding forward_response
short_send_loses client [] after c k all e short = (
  ground (arith, e),
  omega (
    arith,
    sent-some client c after k e,
    length-take-le_count k c.bytes,
    length-sent client after,
    length-append c.bytes (response_of after),
  ),
)
short_send_loses client (b ∷ before) after c k all e short =
    let rest = before ++ c ∷ after in
    let (exact, less) = short_send_loses client before after c k all.1 e short in
    (
      sent-exact client b rest (length b.bytes) all.0
          ∙ ap (λ t. t ++ behind client b rest) (take-all b.bytes)
          ∙ ap (λ t. b.bytes ++ t) exact
          ∙ sym
              (append_assoc b.bytes (response_of before ++ take k c.bytes) (behind client c after))
          ∙ ap (λ t. t ++ behind client c after)
              (sym (append_assoc b.bytes (response_of before) (take k c.bytes))),
      omega (
        arith,
        sent-some client b rest (length b.bytes) all.0,
        length-take-le (length b.bytes) b.bytes,
        less,
        length-append b.bytes (response_of rest),
      ),
    )
