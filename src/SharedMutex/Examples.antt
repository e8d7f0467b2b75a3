-- ===== src/SharedMutex/Examples.antt =====
-- Process numbers of five digits, and of six.
use sp327_butt_k.Base.{◌≡◌, refl, true, false, List, [], ◌∷◌, arith}
use sp327_butt_k.Text.{codes}
use sp327_butt_k.SharedMutex.{
  child, worker, interleave, child_message, thread_message, bytes_from, Line, Os, showed, main,
}
use sp327_butt_k.SharedMutex.Layout.{layout}
use sp327_butt_k.SharedMutex.Display.{shown_bytes, main-layout}

-- The first `shmget` for the buffer fails, and the last `shmctl`.
abbrev os : Os
os = record {
  lock_segment = record { created = true; accessed = false; attached = true };
  buffer_segment = record { created = false; accessed = true; attached = true };
  mutex = record { attr_init = true; attr_setpshared = true; mutex_init = true };
  attr_init = true;
  thread_created = true;
  forked = true;
  child_once = true;
  lock_deleted = true;
  buffer_deleted = false;
}

main-layout_example :
    (lines : List Line) × (main os (codes "31337") (codes "31338") (false ∷ true ∷ false ∷ [])
      ≡ showed lines false)
    × (shown_bytes lines
        ≡ bytes_from
            (layout (child_message (codes "31338")) (thread_message (codes "31337")))
            0
            128)
main-layout_example =
    main-layout os (codes "31337") (codes "31338") (false ∷ true ∷ false ∷ []) refl refl
      (omega arith) (omega arith)

-- With six digits the NUL of the child's message and the thread's signature share a byte.
child_first : interleave [] (child (codes "313380")) (worker (codes "313379")) 25 0 ≡ 116
unfolding interleave child worker
child_first = refl

thread_first :
    interleave (false ∷ false ∷ []) (child (codes "313380")) (worker (codes "313379")) 25 0 ≡ 0
unfolding interleave child worker
thread_first = refl
