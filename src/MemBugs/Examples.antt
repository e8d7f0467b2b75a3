-- ===== src/MemBugs/Examples.antt =====
-- The leaks of test case 12.
use sp327_butt_k.Base.{ℕ, ◌^◌, ◌≡◌, refl, Bool, true, some, none, [], ◌∷◌, arith, leb, ℤ, pos}
use sp327_butt_k.Text.{Text, codes, digits_value}
use sp327_butt_k.MemBugs.{heap, underflow, write, success, bug, null_access}
use sp327_butt_k.MemBugs.Cases.{main, read_underflow, silly_getpath}
use sp327_butt_k.MemBugs.Verdicts.{Grants, ends, verdict, main-entry}

-- A `malloc` that has blocks of up to 16 MB.
abbrev grants : ℕ → Bool
grants n = leb n (2 ^ 24)

grants-Grants : Grants grants
grants-Grants = record { small = λ n le. ground arith; huge = λ n le. ground arith }

-- Decimal digits only.
abbrev atoi : Text → ℤ
atoi s = pos (digits_value 0 s)

main-entry_example :
    verdict (main grants (some (codes "/bin")) atoi (codes "membugs" ∷ codes "12" ∷ []))
    ≡ ends success 15782912
unfolding digits_value
main-entry_example =
    main-entry grants grants-Grants (codes "/bin") (omega arith) atoi (codes "membugs") (codes "12")
      12 refl refl

-- With its condition, `read_underflow` writes in front of the block before it reads there.
underflow_writes : read_underflow grants true [] ≡ bug (underflow write heap)
unfolding read_underflow
underflow_writes = refl

-- Without the variable PATH, `silly_getpath` reads through NULL before its test.
no_path : silly_getpath grants none [] ≡ bug null_access
unfolding silly_getpath
no_path = refl
