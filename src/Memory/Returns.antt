-- ===== src/Memory/Returns.antt =====
-- Total correctness of a run: it ends with a result that meets a postcondition.
use sp327_butt_k.Memory.{Store, Run, ok, Cmd, and_then}

pub data Returns {A : Type 0} (P : A → Store → Type 0) : Run A → Type 0 where
  returns : {a : A} {s : Store} → P a s → Returns P (ok a s)

module _ {A : Type 0} {P : A → Store → Type 0} where
  pub bind :
      {B : Type 0} {Q : B → Store → Type 0} {r : Run A} {k : A → Cmd B}
      → Returns P r
      → ((a : A) (s : Store) → P a s → Returns Q (k a s))
      → Returns Q (and_then r k)
  bind (returns p) next = next _ _ p

  pub mono :
      {Q : A → Store → Type 0} {r : Run A}
      → Returns P r
      → ((a : A) (s : Store) → P a s → Q a s)
      → Returns Q r
  mono (returns p) weaken = returns (weaken _ _ p)
