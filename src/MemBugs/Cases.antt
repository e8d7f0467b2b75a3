-- ===== src/MemBugs/Cases.antt =====
-- The test cases of membugs.c, one function each, and its `main`. Messages are left out, not the reads
-- of memory that they make.
use sp327_butt_k.Base.{
  ℕ, zero, suc, ◌+◌, ◌-◌, ◌^◌, Bool, true, false, ◌||◌, Option, none, some, List, [], ◌∷◌, ◌==◌,
  if◌then◌else◌, ℤ, pos, negsuc,
}
use sp327_butt_k.Text.{Text, codes, starts_with}
use sp327_butt_k.MemBugs.{
  stack, global, Address, null, success, failure, Result, bug, null_access, Cmd, ◌>>=◌, ◌>>◌, pure,
  exit, declare, malloc, memset, strcpy, strncpy, assign, load, plus, down, print, free, leave,
}

abbrev pub path_max : ℕ
path_max = 4096

abbrev pub blk_1mb : ℕ
blk_1mb = 1048576

-- `FATAL` on NULL.
abbrev pub check : Address → Cmd (Unit {0}) → Cmd (Unit {0})
check null rest = exit failure
check p rest = rest

abbrev pub name : Text
name = codes "Hands-on Linux Sys Prg"

-- A loop that stores 100 at the index `i` and the following ones.
abbrev pub store_loop : (rounds i : ℕ) → Address → Cmd (Unit {0})
store_loop zero i arr = pure tt
store_loop (suc rounds) i arr = do assign arr i 100; store_loop rounds (i + 1) arr

unfoldable pub uninit_var : Cmd (Unit {0})
uninit_var = do x ← declare stack 1; _ ← load x; leave x

unfoldable pub write_overflow_compilemem : Cmd (Unit {0})
write_overflow_compilemem = do arr ← declare stack 5; store_loop 6 0 arr; leave arr

unfoldable pub write_overflow_globalmem : Cmd (Unit {0})
write_overflow_globalmem = do garr ← declare global 5; store_loop 6 0 garr

-- `strcpy` from what `getenv` returns.
abbrev pub copy_env : Address → Option Text → Cmd (Unit {0})
copy_env p none m = bug null_access
copy_env p (some path) m = strcpy p path m

unfoldable pub read_overflow_compilemem : Cmd (Unit {0})
read_overflow_compilemem = do
  arr ← declare stack 5
  tmp ← declare stack 8
  memset arr 97 5
  memset tmp 116 8
  assign tmp 7 0
  print 6 arr
  leave tmp
  leave arr

-- The copy returned to the caller lies in a block that has ended.
unfoldable pub uar : Cmd Address
uar = do local ← declare stack 32; memset local 0 32; strncpy local name 22; leave local; pure local

-- The case of the `switch` for `n`; `usage`, then `exit`, for a number that has none.
abbrev pub lookup : (n : ℕ) → List (ℕ × Cmd (Unit {0})) → Cmd (Unit {0})
lookup n [] = exit failure
lookup n ((k, run) ∷ more) = if n == k then run else lookup n more

abbrev pub wants_help : Text → Bool
wants_help arg = starts_with (codes "-h") arg || starts_with (codes "--help") arg

-- `grants`: the sizes for which `malloc` has a block.
module _ (grants : ℕ → Bool) where
  unfoldable pub write_overflow_dynmem : Cmd (Unit {0})
  write_overflow_dynmem = do
    dest ← malloc grants 8
    check dest (do strcpy dest (codes "abcd56789"); free dest)

  unfoldable pub write_underflow : Cmd (Unit {0})
  write_underflow = do
    p ← malloc grants 8
    check p (do strncpy (down p) (codes "abcd5678") 8; free p)

  unfoldable pub read_overflow_dynmem : Cmd (Unit {0})
  read_overflow_dynmem = do
    arr ← malloc grants 5
    check arr (do
      memset arr 97 5
      assign arr 5 83
      assign arr 6 101
      assign arr 7 99
      assign arr 8 114
      assign arr 9 101
      assign arr 10 84
      print 6 arr
      _ ← load (plus arr 100)
      _ ← load (plus arr 10000)
      free arr)

  -- The condition, and where `dest` points after it.
  abbrev pub underflow_if : (cond : Bool) → Address → Cmd Address
  underflow_if true orig = do assign (down orig) 0 120; pure (down orig)
  underflow_if false orig = pure orig

  unfoldable pub read_underflow : (cond : Bool) → Cmd (Unit {0})
  read_underflow cond = do
    orig ← malloc grants 25
    check orig (do
      strncpy orig (codes "abcd56789") 9
      dest ← underflow_if cond orig
      print 26 dest
      free orig)

  abbrev pub uaf_with : (arr next : Address) → Cmd (Unit {0})
  uaf_with arr null = do free arr; print 513 arr; exit failure
  uaf_with arr next = do free arr; strncpy arr name 22; print 32 arr; free next

  unfoldable pub uaf : Cmd (Unit {0})
  uaf = do
    arr ← malloc grants 512
    check arr (do
      memset arr 97 512
      assign arr 511 0
      print 32 arr
      next ← malloc grants 512
      uaf_with arr next)

  abbrev pub free_again : (p bogus : Address) → Cmd (Unit {0})
  free_again p null = do free p; exit failure
  free_again p bogus = pure tt

  -- `malloc(-1UL)`
  abbrev pub double_if : (cond : Bool) → Address → Cmd (Unit {0})
  double_if true p = do bogus ← malloc grants (2 ^ 64 - 1); free_again p bogus
  double_if false p = pure tt

  unfoldable pub doublefree : (cond : Bool) → Cmd (Unit {0})
  doublefree cond = do
    p ← malloc grants 512
    check p (do strncpy p name 22; free p; double_if cond p)

  unfoldable pub amleaky : (mem : ℕ) → Cmd (Unit {0})
  amleaky mem = do p ← malloc grants mem; check p (memset p 0 mem)

  unfoldable pub leakage_case1 : (size : ℕ) → Cmd (Unit {0})
  leakage_case1 size = amleaky size

  abbrev pub leak_loop : (rounds size : ℕ) → Cmd (Unit {0})
  leak_loop zero size = pure tt
  leak_loop (suc rounds) size = do amleaky size; leak_loop rounds size

  unfoldable pub leakage_case2 : (size reps : ℕ) → Cmd (Unit {0})
  leakage_case2 size reps = leak_loop (if reps == 0 then 1 else reps) size

  -- The test of `silly_getpath` is on its argument, which is never NULL, and not on the new block.
  unfoldable pub silly_getpath : (path : Option Text) → Cmd Address
  silly_getpath path = do p ← malloc grants path_max; copy_env p path; pure p

  abbrev pub free_if : (cond : Bool) → Address → Cmd (Unit {0})
  free_if true p = free p
  free_if false p = pure tt

  unfoldable pub leakage_case3 : (path : Option Text) (cond : Bool) → Cmd (Unit {0})
  leakage_case3 path cond = do
    mypath ← silly_getpath path
    print (path_max + 1) mypath
    free_if cond mypath

  -- The `switch`.
  abbrev pub test_case : (path : Option Text) → List (ℕ × Cmd (Unit {0}))
  test_case path =
      (1, uninit_var)
      ∷ (2, write_overflow_compilemem)
      ∷ (3, write_overflow_dynmem)
      ∷ (4, write_underflow)
      ∷ (5, read_overflow_compilemem)
      ∷ (6, read_overflow_dynmem)
      ∷ (7, read_underflow false >> read_underflow true)
      ∷ (8, uaf)
      ∷ (9, (do res ← uar; print 33 res))
      ∷ (10, doublefree false >> doublefree true)
      ∷ (11, leakage_case1 32 >> leakage_case1 blk_1mb)
      ∷ (12, leakage_case2 32 100000 >> leakage_case2 blk_1mb 12)
      ∷ (13, leakage_case3 path false >> leakage_case3 path true)
      ∷ (14, write_overflow_globalmem)
      ∷ []

  abbrev pub switch : (path : Option Text) → ℤ → Cmd (Unit {0})
  switch path (negsuc n) = exit failure
  switch path (pos n) = lookup n (test_case path)

  unfoldable pub process_args :
      (path : Option Text) (atoi : Text → ℤ) → (argv : List Text) → Cmd (Unit {0})
  process_args path atoi (program ∷ arg ∷ []) =
      if wants_help arg then exit success else switch path (atoi arg)
  process_args path atoi (program ∷ arg ∷ more) = pure tt
  process_args path atoi _ = exit failure

  -- `main`, from an empty memory on.
  unfoldable pub main :
      (path : Option Text) (atoi : Text → ℤ) (argv : List Text) → Result (Unit {0})
  main path atoi argv = (process_args path atoi argv >> exit success) []
