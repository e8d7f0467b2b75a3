-- ===== src/MemBugs/Leaks.antt =====
-- The test cases that leak memory, from any memory on.
use sp327_butt_k.Base.{
  ℕ, zero, suc, ◌+◌, ◌-◌, ◌*◌, ◌≤◌, ◌<◌, ◌≡◌, ◌≢◌, refl, ap, Bool, true, false, some, [], ◌∷◌, ◌==◌,
  arith, ltb, leb, length, if◌then◌else◌, pos, Bool-cases, inl, inr, sub_ℕ,
}
use native.Mathlib.Nat.{suc-mul}
use sp327_butt_k.Text.{Text, char_at}
use sp327_butt_k.MemBugs.{
  heap, Block, Blocks, at, ok, Cmd, ◌>>◌, leaked, print, new_block, filled, find, replace, plus,
}
use sp327_butt_k.MemBugs.Cases.{
  amleaky, leak_loop, leakage_case2, leakage_case3, silly_getpath, path_max,
}

-- `c` returns from `m` on and leaks `n` bytes.
pub record Leaks (c : Cmd (Unit {0})) (m : Blocks) (n : ℕ) : Type 0 where
  pub end : Blocks
  pub returns : c m ≡ ok tt end
  pub leaks : leaked end ≡ n + leaked m

pub seq-Leaks :
    {c d : Cmd (Unit {0})} {m : Blocks} {a b : ℕ}
    → Leaks c m a
    → ((t : Blocks) → Leaks d t b)
    → Leaks (c >> d) m (a + b)
seq-Leaks first second =
    let rest = second first.end in
    record {
      end = rest.end;
      returns = rw first.returns rest.returns;
      leaks = omega (arith, rest.leaks, first.leaks);
    }

same : (n : ℕ) → (n == n) ≡ true
same n = ground arith

find-newest : (k : Block) (m : Blocks) → find (length m) (k ∷ m) ≡ some k
find-newest k m = rw (same (length m)) refl

replace-newest : (k old : Block) (m : Blocks) → replace (length m) k (old ∷ m) ≡ k ∷ m
replace-newest k old m = rw (same (length m)) refl

module _ (grants : ℕ → Bool) where
  pub amleaky-Leaks : (n : ℕ) (m : Blocks) → grants n ≡ true → Leaks (amleaky grants n) m n
  unfolding amleaky leaked
  amleaky-Leaks n m g =
      let fits : leb (0 + n) n ≡ true = ground arith in
      record {
        end = filled (new_block heap n) (pos 0) n (λ _. 0) ∷ m;
        returns =
            rw
              (
                g,
                find-newest (new_block heap n) m,
                fits,
                replace-newest (filled (new_block heap n) (pos 0) n (λ _. 0)) (new_block heap n) m,
              )
              refl;
        leaks = refl;
      }

  leak_loop-Leaks :
      (rounds size : ℕ) (m : Blocks)
      → grants size ≡ true
      → Leaks (leak_loop grants rounds size) m (rounds * size)
  leak_loop-Leaks zero size m g = record { end = m; returns = refl; leaks = omega arith }
  leak_loop-Leaks (suc rounds) size m g =
      let one = amleaky-Leaks size m g in
      let more = leak_loop-Leaks rounds size one.end g in
      record {
        end = more.end;
        returns = rw one.returns more.returns;
        leaks = omega (arith, more.leaks, one.leaks, suc-mul rounds size);
      }

  -- `leakage_case2` on a size that `malloc` grants returns from any memory on, and leaks that many
  -- bytes as often as it is asked to, but at least once.
  pub leakage_case2-Leaks :
      (size reps : ℕ) (m : Blocks)
      → grants size ≡ true
      → Leaks (leakage_case2 grants size reps) m ((if reps == 0 then 1 else reps) * size)
  unfolding leakage_case2
  leakage_case2-Leaks size reps m g =
      let l = leak_loop-Leaks (if reps == 0 then 1 else reps) size m g in
      record { end = l.end; returns = l.returns; leaks = l.leaks }

-- A string of `len` characters in a block, read from its character `i` on.
print-ok :
    (b : ℕ) (m : Blocks) (k : Block) (f : ℕ → ℕ) (len : ℕ)
    → find b m ≡ some k
    → k.alive ≡ true
    → len < k.size
    → ((i : ℕ) → i ≤ len → k.value i ≡ some (f i))
    → f len ≡ 0
    → (limit i : ℕ) → i ≤ len
    → print limit (at b (pos i)) m ≡ ok tt m
unfolding print
print-ok b m k f len here alive room known nul zero i le = refl
print-ok b m k f len here alive room known nul (suc limit) i le =
    let fits : leb (i + 1) k.size ≡ true = ground arith in
    let step : plus (at b (pos i)) 1 ≡ at b (pos (i + 1)) =
      let e : sub_ℕ (i + 1) (0 + 0) ≡ pos (i + 1) = ground arith in ap (at b) e in
    rw (here, alive, fits, known i le, step)
      (elim (Bool-cases (f i == 0)) [
        | inl z ↦ rw z refl
        | inr nz ↦
            let below : i ≢ len = λ e. ground (arith, ap f e) in
            rw nz
              (print-ok b m k f len here alive room known nul limit (i + 1) (omega (arith, below)))
      ])

-- A path that fits into the buffer of `silly_getpath`, and a memory that `malloc` grants.
module _ (grants : ℕ → Bool) (g : grants path_max ≡ true) (path : Text) (fits : length path < 4096)
    (m : Blocks) where
  abbrev path_block : Block
  path_block = filled (new_block heap 4096) (pos 0) (length path + 1) (char_at path)

  char_at-end : (s : Text) → char_at s (length s) ≡ 0
  char_at-end [] = refl
  char_at-end (c ∷ s) = char_at-end s

  path_block-value : (i : ℕ) → i ≤ length path → path_block.value i ≡ some (char_at path i)
  path_block-value i le =
      let low : ltb i 0 ≡ false = ground arith in
      let high : ltb (i - 0) (length path + 1) ≡ true = ground arith in
      let e : i - 0 ≡ i = omega arith in rw (low, high, e) refl

  getpath-ok : silly_getpath grants (some path) m ≡ ok (at (length m) (pos 0)) (path_block ∷ m)
  unfolding silly_getpath
  getpath-ok =
      let room : leb (0 + (length path + 1)) 4096 ≡ true = ground arith in
      rw
        (
          g,
          find-newest (new_block heap 4096) m,
          room,
          replace-newest path_block (new_block heap 4096) m,
        )
        refl

  print-path :
      print (path_max + 1) (at (length m) (pos 0)) (path_block ∷ m) ≡ ok tt (path_block ∷ m)
  print-path =
      print-ok (length m) (path_block ∷ m) path_block (char_at path) (length path)
        (find-newest path_block m) refl fits path_block-value (char_at-end path) (path_max + 1) 0
        (omega arith)

  -- Without its condition, `leakage_case3` leaks the whole buffer.
  pub kept-Leaks : Leaks (leakage_case3 grants (some path) false) m 4096
  unfolding leakage_case3 leaked
  kept-Leaks = record {
    end = path_block ∷ m;
    returns = rw (getpath-ok, print-path) refl;
    leaks = refl;
  }

  pub freed-Leaks : Leaks (leakage_case3 grants (some path) true) m 0
  unfolding leakage_case3 leaked
  freed-Leaks = record {
    end = record path_block { alive = false } ∷ m;
    returns =
        rw
          (
            getpath-ok,
            print-path,
            find-newest path_block m,
            replace-newest (record path_block { alive = false }) path_block m,
          )
          refl;
    leaks = refl;
  }
