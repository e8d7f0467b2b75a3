-- ===== src/Pool/Family.antt =====
-- Families indexed by thread: a write at one index, and sums over the first `n`.
use sp327_butt_k.Base.{ℕ, zero, suc, ◌+◌, ◌≤◌, ◌<◌, ◌≡◌, refl, arith, ◌==◌, if◌then◌else◌}

abbrev pub update {ℓ} : {A : Type ℓ} → (ℕ → A) → ℕ → A → ℕ → A
update f i a j = if i == j then a else f j

module _ {ℓ} {A : Type ℓ} (weight : A → ℕ) where
  pub total : ℕ → (ℕ → A) → ℕ
  total zero f = 0
  total (suc n) f = total n f + weight (f n)

  total-above : (n : ℕ) (f : ℕ → A) (i : ℕ) (a : A) → n ≤ i → total n (update f i a) ≡ total n f
  unfolding total
  total-above zero f i a h = refl
  total-above (suc n) f i a h = ground (arith, total-above n f i a)

  -- A write moves the sum by the difference at its index.
  pub total-update :
      (n : ℕ) (f : ℕ → A) (i : ℕ) (a : A)
      → i < n
      → total n (update f i a) + weight (f i) ≡ total n f + weight a
  unfolding total
  total-update zero f i a h = elim h [ ]
  total-update (suc n) f i a h = ground (arith, total-update n f i a, total-above n f i a)

  pub total-const : (n : ℕ) (a : A) → weight a ≡ 0 → total n (λ _. a) ≡ 0
  unfolding total
  total-const zero a h = refl
  total-const (suc n) a h = omega (arith, total-const n a h)

pub total-le {ℓ} :
    {A : Type ℓ} (v w : A → ℕ) (n : ℕ) (f : ℕ → A)
    → ((i : ℕ) → i < n → v (f i) ≤ w (f i))
    → total v n f ≤ total w n f
unfolding total
total-le v w zero f h = omega arith
total-le v w (suc n) f h =
    omega (arith, total-le v w n f (λ i lt. h i (omega arith)), h n (omega arith))
