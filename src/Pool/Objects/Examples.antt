-- ===== src/Pool/Objects/Examples.antt =====
-- A pool of two workers, created and destroyed without requests, in an empty memory.
use sp327_butt_k.Base.{
  ◌≡◌, refl, true, false, some, none, [], ◌∷◌, arith, ◌==◌, ◌||◌, length, if◌then◌else◌,
}
use sp327_butt_k.Memory.{Ptr, Queue, queue, worker, pool, array, Heap, read, Store}
use sp327_butt_k.Memory.Returns.{Returns}
use sp327_butt_k.Memory.Simple.{simple_os, simple-HasMemory, simple-HasMutexes}
use sp327_butt_k.Worker.Simple.{simple-HasThreads}
use sp327_butt_k.Pool.Objects.{thread_pool_init, thread_pool_destroy}
use sp327_butt_k.Pool.Objects.Members.{Members, owned}
use sp327_butt_k.Pool.Objects.Created.{Built, init-Built}
use sp327_butt_k.Pool.Objects.Released.{Stopped, destroy-frees_pool, closed_read}

init-Built_example :
    Returns
      (λ q t. (b : Ptr) × (ms : Members) × (length ms ≡ 2) × Built t.heap q b 2 ms)
      (thread_pool_init simple_os 2 (record { heap = []; trace = [] }))
init-Built_example =
    init-Built simple-HasMemory simple-HasThreads 2 (record { heap = []; trace = [] })

abbrev object : Queue
object = record { front = 0; rear = 0; mutex = 7; cond = 8; closed = false; size = 0 }

-- The pool at 1, its array at 2, and a worker at 3 with its queue at 4.
abbrev small : Heap
small =
    (1, some (pool 2 1))
    ∷ (2, some (array (3 ∷ [])))
    ∷ (3, some (worker 3 4))
    ∷ (4, some (queue object))
    ∷ []

abbrev small_members : Members
small_members = (3, 4) ∷ []

-- A store in which the queue is closed and all else is as before. No request was given, so that the
-- worker ends without a change.
module _ (t : Store) (reads : (x : Ptr) → read t.heap x ≡ closed_read small small_members x) where
  closed-Stopped : Stopped t.heap 1 2 1 small_members
  unfolding read
  closed-Stopped = record {
    at_pool = ground (arith, reads 1);
    at_array = ground (arith, reads 2);
    drained = (
      record {
        thread_id = 3;
        object = record object { closed = true };
        holds = ground (arith, reads 3);
        is = ground (arith, reads 4);
      },
      refl,
      refl,
      tt,
    );
  }

small-Built : Built small 1 2 1 small_members
unfolding read
small-Built = record {
  at_pool = ground arith;
  at_array = ground arith;
  team = (
    record { thread_id = 3; object = object; nodes = []; holds = ground arith; is = ground arith },
    refl,
    refl,
    tt,
  );
}

destroy-frees_pool_example :
    Returns
      (λ _ u.
        (t : Store) × ((x : Ptr) → read t.heap x ≡ closed_read small small_members x)
        × ((x : Ptr)
            → read u.heap x
              ≡ (if (1 == x) || (2 == x) || owned x small_members then none else read t.heap x)))
      (thread_pool_destroy simple_os 1 (λ t. t) 1 (record { heap = small; trace = [] }))
destroy-frees_pool_example =
    destroy-frees_pool simple-HasThreads 1 2 1 small_members simple-HasMutexes (λ t. t)
      (record { heap = small; trace = [] }) small-Built (λ t built reads. closed-Stopped t reads)
