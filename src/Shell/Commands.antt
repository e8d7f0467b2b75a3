-- ===== src/Shell/Commands.antt =====
-- The commands that the shell runs for an input made of lines.
use sp327_butt_k.Base.{
  ℕ, zero, suc, ◌+◌, ◌<◌, ◌≡◌, refl, ap, ◌∙◌, Bool, true, false, some, List, [], ◌∷◌, ◌++◌, ◌==◌,
  All, length, length-append, arith, if◌then◌else◌,
}
use sp327_butt_k.Text.{Text, codes, starts_with}
use sp327_butt_k.SystemInfo.Lines.{join, cut_line-append}
use sp327_butt_k.Shell.{
  Child, ended, success, failure, Outcome, stopped, ran, drop_last, chop, getcmd, is_empty,
  shell_round, do_simpsh, wants_help, main,
}

-- A line that fits the buffer, without its line break.
abbrev pub IsLine : Text → Type 0
IsLine w = (length w < 126) × All (λ c. (c == 10) ≡ false) w

drop_last-append : (w : Text) → drop_last (w ++ 10 ∷ []) ≡ w
unfolding drop_last
drop_last-append [] = refl
drop_last-append (c ∷ []) = refl
drop_last-append (c ∷ d ∷ w) = ap (λ t. c ∷ t) (drop_last-append (d ∷ w))

getcmd-line : (w rest : Text) → IsLine w → getcmd (w ++ 10 ∷ rest) ≡ some (w, rest)
unfolding getcmd
getcmd-line [] rest is =
    ap (λ t. some (chop t)) (cut_line-append 126 [] rest is.0 is.1)
    ∙ ap (λ t. some (t, rest)) (drop_last-append [])
getcmd-line (c ∷ w) rest is =
    ap (λ t. some (chop t)) (cut_line-append 126 (c ∷ w) rest is.0 is.1)
    ∙ ap (λ t. some (t, rest)) (drop_last-append (c ∷ w))

-- What a shell makes of these lines: it runs them in order but for the empty ones, up to the first that
-- starts with `quit`, which ends it with success; the end of the input is a failure.
unfoldable pub interpreted : List Text → Outcome
interpreted [] = stopped failure
interpreted (w ∷ ws) =
    let rest = interpreted ws in
    if starts_with (codes "quit") w
    then stopped success
    else if is_empty w
    then rest
    else ran w rest

abbrev all_end : ℕ → Child
all_end k = ended

do_simpsh-interpreted :
    (fuel k : ℕ) (ws : List Text)
    → length (join ws) < fuel
    → All IsLine ws
    → do_simpsh fuel all_end k (join ws) ≡ interpreted ws
unfolding do_simpsh interpreted
do_simpsh-interpreted zero k ws lt all = absurd (omega arith)
do_simpsh-interpreted (suc fuel) k [] lt all = unfold getcmd in refl
do_simpsh-interpreted (suc fuel) k (w ∷ ws) lt all =
    let fits : length (join ws) < fuel = omega (arith, length-append w (10 ∷ join ws)) in
    ap (shell_round all_end k (λ j rest. do_simpsh fuel all_end j rest))
      (getcmd-line w (join ws) all.0)
    ∙ ap
        (λ o.
          if starts_with (codes "quit") w
          then stopped success
          else if is_empty w
          then o
          else ran w (do_simpsh fuel all_end (k + 1) (join ws)))
        (do_simpsh-interpreted fuel k ws fits all.1)
    ∙ ap
        (λ o.
          if starts_with (codes "quit") w
          then stopped success
          else if is_empty w
          then interpreted ws
          else ran w o)
        (do_simpsh-interpreted fuel (k + 1) ws fits all.1)

-- The shell starts, every child can be made and waited for, and every line of the input has less than
-- 126 characters: the shell ends, with as many rounds as the input has characters and one more, and runs
-- the nonempty lines in order, up to the first that starts with `quit`.
pub main-interpreted :
    (argv : List Text) (ws : List Text)
    → wants_help argv ≡ false
    → All IsLine ws
    → main (suc (length (join ws))) true (λ k. ended) argv (join ws) ≡ interpreted ws
unfolding main
main-interpreted argv ws plain all =
    ap
      (λ (b : Bool).
        if b then stopped success else do_simpsh (suc (length (join ws))) all_end 0 (join ws))
      plain
    ∙ do_simpsh-interpreted (suc (length (join ws))) 0 ws (omega arith) all
