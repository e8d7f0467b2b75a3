-- ===== src/MemBugs/Verdicts.antt =====
-- What each test case comes to.
use sp327_butt_k.Base.{
  ℕ, ◌-◌, ◌^◌, ◌≤◌, ◌<◌, ◌≡◌, refl, ap, Bool, true, false, some, List, [], ◌∷◌, ◌==◌, arith, length,
  if◌then◌else◌, ℤ, pos, Bool-cases, inl, inr,
}
use sp327_butt_k.Text.{Text}
use sp327_butt_k.MemBugs.{
  stack, heap, global, read, write, Fault, uninitialised, overflow, underflow, after_end,
  double_free, Status, success, failure, Result, ok, exited, bug, Cmd, ◌>>=◌, ◌>>◌, exit, leaked,
  print, next,
}
use sp327_butt_k.MemBugs.Cases.{
  uninit_var, write_overflow_compilemem, write_overflow_globalmem, read_overflow_compilemem, uar,
  write_overflow_dynmem, write_underflow, read_overflow_dynmem, read_underflow, uaf, doublefree,
  leakage_case1, leakage_case2, leakage_case3, blk_1mb, path_max, lookup, wants_help, test_case,
  process_args, main,
}
use sp327_butt_k.MemBugs.Leaks.{
  Leaks, seq-Leaks, amleaky-Leaks, leakage_case2-Leaks, kept-Leaks, freed-Leaks,
}

pub data Verdict : Type 0 where
  ends : Status → (leak : ℕ) → Verdict
  meets : Fault → Verdict

unfoldable pub verdict : Result (Unit {0}) → Verdict
verdict (ok a m) = ends success (leaked m)
verdict (exited s m) = ends s (leaked m)
verdict (bug e) = meets e

-- How a command ends as the body of `main`.
abbrev outcome : Cmd (Unit {0}) → Verdict
outcome c = verdict ((c >> exit success) [])

-- What the test cases come to.
abbrev pub table : List (ℕ × Verdict)
table =
    (1, meets (uninitialised stack))
    ∷ (2, meets (overflow write stack))
    ∷ (3, meets (overflow write heap))
    ∷ (4, meets (underflow write heap))
    ∷ (5, meets (overflow read stack))
    ∷ (6, meets (overflow write heap))
    ∷ (7, meets (uninitialised heap))
    ∷ (8, meets (after_end write heap))
    ∷ (9, meets (after_end read stack))
    ∷ (10, meets double_free)
    ∷ (11, ends success 1048608)
    ∷ (12, ends success 15782912)
    ∷ (13, ends success 4096)
    ∷ (14, meets (overflow write global))
    ∷ []

abbrev pub entry : (n : ℕ) → List (ℕ × Verdict) → Verdict
entry n [] = ends failure 0
entry n ((k, v) ∷ more) = if n == k then v else entry n more

-- `malloc` succeeds for blocks of up to 1 MB, and fails for those that no object can have.
pub record Grants (grants : ℕ → Bool) : Type 0 where
  pub small : (n : ℕ) → n ≤ 1048576 → grants n ≡ true
  pub huge : (n : ℕ) → 2 ^ 63 ≤ n → grants n ≡ false

case1 : uninit_var [] ≡ bug (uninitialised stack)
unfolding uninit_var
case1 = refl

case2 : write_overflow_compilemem [] ≡ bug (overflow write stack)
unfolding write_overflow_compilemem
case2 = refl

case5 : read_overflow_compilemem [] ≡ bug (overflow read stack)
unfolding read_overflow_compilemem print
case5 = refl

case9 : (do res ← uar; print 33 res) [] ≡ bug (after_end read stack)
unfolding uar print
case9 = refl

case14 : write_overflow_globalmem [] ≡ bug (overflow write global)
unfolding write_overflow_globalmem
case14 = refl

outcome-Leaks : {c : Cmd (Unit {0})} {n : ℕ} → Leaks c [] n → outcome c ≡ ends success n
unfolding verdict leaked
outcome-Leaks l = rw l.returns (ap (ends success) (omega (arith, l.leaks)))

infixr 20 ◌&◌
-- The cases and their entries, one after the other.
data Agrees : List (ℕ × Cmd (Unit {0})) → List (ℕ × Verdict) → Type 0 where
  end : Agrees [] []
  ◌&◌ :
      {k : ℕ} {c : Cmd (Unit {0})} {v : Verdict} {cs : List (ℕ × Cmd (Unit {0}))}
      {vs : List (ℕ × Verdict)}
      → outcome c ≡ v
      → Agrees cs vs
      → Agrees ((k, c) ∷ cs) ((k, v) ∷ vs)

lookup-entry :
    (n : ℕ) {cs : List (ℕ × Cmd (Unit {0}))} {vs : List (ℕ × Verdict)}
    → Agrees cs vs
    → outcome (lookup n cs) ≡ entry n vs
unfolding verdict leaked
lookup-entry n end = refl
lookup-entry n (◌&◌ {k} first rest) = elim (Bool-cases (n == k)) [
  | inl here ↦ rw here first
  | inr miss ↦ rw miss (lookup-entry n rest)
]

after_bug :
    {r : Result (Unit {0})} {e : Fault} → r ≡ bug e → verdict (next r λ _. exit success) ≡ meets e
unfolding verdict
after_bug e = ap (λ r. verdict (next r λ _. exit success)) e

module _ (grants : ℕ → Bool) (g : Grants grants) where
  case3 : write_overflow_dynmem grants [] ≡ bug (overflow write heap)
  unfolding write_overflow_dynmem
  case3 = rw (g.small 8 (omega arith)) refl

  case4 : write_underflow grants [] ≡ bug (underflow write heap)
  unfolding write_underflow
  case4 = rw (g.small 8 (omega arith)) refl

  case6 : read_overflow_dynmem grants [] ≡ bug (overflow write heap)
  unfolding read_overflow_dynmem
  case6 = rw (g.small 5 (omega arith)) refl

  case7 : (read_underflow grants false >> read_underflow grants true) [] ≡ bug (uninitialised heap)
  unfolding read_underflow print
  case7 = rw (g.small 25 (omega arith)) refl

  case8 : uaf grants [] ≡ bug (after_end write heap)
  unfolding uaf print
  case8 = rw (g.small 512 (omega arith)) refl

  case10 : (doublefree grants false >> doublefree grants true) [] ≡ bug double_free
  unfolding doublefree
  case10 = rw (g.small 512 (omega arith), g.huge (2 ^ 64 - 1) (omega arith)) refl

  case11 : outcome (leakage_case1 grants 32 >> leakage_case1 grants blk_1mb) ≡ ends success 1048608
  unfolding leakage_case1
  case11 = outcome-Leaks (
      seq-Leaks (amleaky-Leaks grants 32 [] (g.small 32 (omega arith)))
        (λ t. amleaky-Leaks grants blk_1mb t (g.small blk_1mb (omega arith))))

  case12 :
      outcome (leakage_case2 grants 32 100000 >> leakage_case2 grants blk_1mb 12)
      ≡ ends success 15782912
  case12 = outcome-Leaks (
      seq-Leaks (leakage_case2-Leaks grants 32 100000 [] (g.small 32 (omega arith)))
        (λ t. leakage_case2-Leaks grants blk_1mb 12 t (g.small blk_1mb (omega arith))))

  module _ (path : Text) (fits : length path < 4096) where
    case13 :
        outcome (leakage_case3 grants (some path) false >> leakage_case3 grants (some path) true)
        ≡ ends success 4096
    case13 =
        let granted = g.small path_max (omega arith) in
        outcome-Leaks (
          seq-Leaks (kept-Leaks grants granted path fits [])
            (λ t. freed-Leaks grants granted path fits t))

    table-Agrees : Agrees (test_case grants (some path)) table
    table-Agrees =
        after_bug case1
        & after_bug case2
        & after_bug case3
        & after_bug case4
        & after_bug case5
        & after_bug case6
        & after_bug case7
        & after_bug case8
        & after_bug case9
        & after_bug case10
        & case11
        & case12
        & case13
        & after_bug case14
        & end

    -- For a path that fits into its buffer, and whatever number the argument stands for: the program
    -- ends as the table says, by the first error in memory, or with the leaked bytes. Cases 6 and 7,
    -- which are to read out of bounds, meet a write out of bounds and an uninitialised read first.
    pub main-entry :
        (atoi : Text → ℤ) (program arg : Text) (n : ℕ)
        → atoi arg ≡ pos n
        → wants_help arg ≡ false
        → verdict (main grants (some path) atoi (program ∷ arg ∷ [])) ≡ entry n table
    unfolding main process_args
    main-entry atoi program arg n reads plain = rw (plain, reads) (lookup-entry n table-Agrees)
