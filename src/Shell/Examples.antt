-- ===== src/Shell/Examples.antt =====
-- A session of the shell.
use sp327_butt_k.Base.{◌≡◌, refl, true, List, [], ◌∷◌, arith, suc, length}
use sp327_butt_k.Text.{Text, codes}
use sp327_butt_k.SystemInfo.Lines.{join}
use sp327_butt_k.Shell.{ended, success, main}
use sp327_butt_k.Shell.Commands.{interpreted, main-interpreted}

abbrev session : List Text
session = codes "ls" ∷ [] ∷ codes "ps" ∷ codes "quitter" ∷ codes "ls" ∷ []

main-interpreted_example :
    main (suc (length (join session))) true (λ k. ended) (codes "simpsh" ∷ []) (join session)
    ≡ record { commands = codes "ls" ∷ codes "ps" ∷ []; exit = success }
unfolding interpreted
main-interpreted_example = main-interpreted (codes "simpsh" ∷ []) session refl (ground arith)
