-- ===== src/Queue/Spec.antt =====
-- What queue.h promises: a first-in first-out list that can be closed.
use sp327_butt_k.Base.{Bool, true, false, Option, none, some, List, [], ◌∷◌, ◌++◌, if◌then◌else◌}
use sp327_butt_k.Memory.{Ptr, null}

pub record Fifo : Type 0 where
  pub items : List Ptr
  pub closed : Bool

abbrev pub empty : Fifo
empty = record { items = []; closed = false }

-- A closed queue takes nothing more.
unfoldable pub enqueue : Ptr → Fifo → Fifo
enqueue d f = if f.closed then f else record f { items = f.items ++ d ∷ [] }

abbrev pub dequeue_from : List Ptr → Bool → Option (Ptr × Fifo)
dequeue_from [] true = some (null, record { items = []; closed = true })
dequeue_from [] false = none
dequeue_from (d ∷ ds) c = some (d, record { items = ds; closed = c })

-- `none`: the caller waits.
unfoldable pub dequeue : Fifo → Option (Ptr × Fifo)
dequeue f = dequeue_from f.items f.closed

unfoldable pub close : Fifo → Fifo
close f = record f { closed = true }
