-- ===== src/Shell.antt =====
-- booksrc/ch10/simpsh_v1.c, simpsh_v2.c and simpsh_v3.c: the simple shell, over the text of its input,
-- which has no NUL. The three differ in the call that waits for the child, and in what they print of it.
-- Messages are left out.
pub mod Commands
mod Examples
use sp327_butt_k.Base.{
  ℕ, zero, suc, ◌+◌, Bool, true, false, Option, none, some, List, [], ◌∷◌, leb, if◌then◌else◌,
}
use sp327_butt_k.Text.{Text, codes, starts_with}
use sp327_butt_k.SystemInfo.{cut_line}

-- What `fork`, and then `wait` or `waitpid`, come to.
pub data Child : Type 0 where
  ended : Child
  wait_failed : Child
  fork_failed : Child

pub data Exit : Type 0 where
  success : Exit
  failure : Exit
  out_of_fuel : Exit

-- The commands that children get to `execlp`.
pub record Outcome : Type 0 where
  pub commands : List Text
  pub exit : Exit

abbrev pub stopped : Exit → Outcome
stopped exit = record { commands = []; exit = exit }

abbrev pub ran : Text → Outcome → Outcome
ran cmd o = record { commands = cmd ∷ o.commands; exit = o.exit }

-- `cmdstr[strlen(cmdstr) - 1] = '\0'`
unfoldable pub drop_last : Text → Text
drop_last [] = []
drop_last (c ∷ []) = []
drop_last (c ∷ d ∷ s) = c ∷ drop_last (d ∷ s)

abbrev pub chop : Text × Text → Text × Text
chop (line, rest) = (drop_last line, rest)

-- `fgets` reads at most 126 characters.
unfoldable pub getcmd : Text → Option (Text × Text)
getcmd [] = none
getcmd (c ∷ input) = some (chop (cut_line 126 (c ∷ input)))

-- The `switch` on `fork`.
abbrev pub run_command : Child → Text → Outcome → Outcome
run_command ended cmd rest = ran cmd rest
run_command wait_failed cmd rest = ran cmd (stopped failure)
run_command fork_failed cmd rest = stopped failure

abbrev pub is_empty : Text → Bool
is_empty [] = true
is_empty (c ∷ s) = false

-- One round on a command, or at the end of the input; `k` children so far.
abbrev pub shell_round :
    (children : ℕ → Child) (k : ℕ) → (ℕ → Text → Outcome) → Option (Text × Text) → Outcome
shell_round children k again none = stopped failure
shell_round children k again (some (cmd, rest)) =
    if starts_with (codes "quit") cmd
    then stopped success
    else if is_empty cmd
    then again k rest
    else run_command (children k) cmd (again (k + 1) rest)

unfoldable pub do_simpsh : (fuel : ℕ) (children : ℕ → Child) (k : ℕ) → Text → Outcome
do_simpsh zero children k input = stopped out_of_fuel
do_simpsh (suc fuel) children k input =
    shell_round children k (λ j rest. do_simpsh fuel children j rest) (getcmd input)

-- The first argument asks for help.
abbrev pub wants_help : List Text → Bool
wants_help (program ∷ arg ∷ args) = starts_with (codes "--help") arg
wants_help _ = false

-- `allocated`: `calloc` gives the buffer.
unfoldable pub main :
    (fuel : ℕ) (allocated : Bool) (children : ℕ → Child) → List Text → Text → Outcome
main fuel allocated children argv input =
    if wants_help argv
    then stopped success
    else if allocated
    then do_simpsh fuel children 0 input
    else stopped failure
