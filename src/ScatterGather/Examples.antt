-- ===== src/ScatterGather/Examples.antt =====
-- Both options, and a set-up that runs out of memory.
use sp327_butt_k.Base.{ℕ, ◌≡◌, refl, true, false, none, [], ◌∷◌, arith, ℤ, pos, negsuc, ◌⊎◌}
use sp327_butt_k.Text.{Text, codes, digits_value}
use sp327_butt_k.Copy.Threads.{File}
use sp327_butt_k.ScatterGather.{
  gbuf_a, gbuf_b, gbuf_c, gbuf_hole, Mallocs, setup_buffers_goto, wr_discontig_the_better_sgio_way,
  gbuf_c, gbuf_b, gbuf_a,
}
use sp327_butt_k.ScatterGather.Programs.{success, main}
use sp327_butt_k.ScatterGather.Holes.{
  layout, whole, all_allocated, all_succeed, setup-frees, same_layout,
}

-- Decimal digits only.
abbrev atoi : Text → ℤ
atoi s = pos (digits_value 0 s)

same_layout_example :
    (content : File) × (main all_allocated true whole atoi (codes "sgio_simple" ∷ codes "1" ∷ [])
      ≡ success content (gbuf_hole ∷ []))
    × ((p : ℕ) → content p ≡ layout p)
unfolding digits_value
same_layout_example = same_layout atoi (codes "sgio_simple") (codes "1") 1 refl (omega arith)

abbrev no_third : Mallocs
no_third = record { a = true; b = true; c = false; hole = true }

setup-frees_example :
    ((all_succeed no_third ≡ true)
      × (setup_buffers_goto no_third ≡ (pos 0, gbuf_hole ∷ gbuf_c ∷ gbuf_b ∷ gbuf_a ∷ [])))
    ⊎ ((all_succeed no_third ≡ false) × ((n : ℕ) × (setup_buffers_goto no_third ≡ (negsuc n, []))))
setup-frees_example = setup-frees no_third

-- A failed `writev` goes unnoticed: the program ends with success and an empty file.
unnoticed :
    main all_allocated true
      (record whole { gathered = none })
      atoi
      (codes "sgio_simple" ∷ codes "1" ∷ [])
    ≡ success (λ _. none) (gbuf_hole ∷ [])
unfolding main setup_buffers_goto wr_discontig_the_better_sgio_way digits_value
unnoticed = refl
