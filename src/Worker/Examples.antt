-- ===== src/Worker/Examples.antt =====
-- The lifetime of one worker in an empty memory.
use sp327_butt_k.Base.{refl, some, [], ◌∷◌, arith, false}
use sp327_butt_k.Memory.{Queue, queue, worker, raw, Store, Heap, read}
use sp327_butt_k.Queue.Chain.{IsQueue}
use sp327_butt_k.Worker.{mutex_size, cond_size}
use sp327_butt_k.Worker.Lifetime.{Created}

abbrev nothing : Store
nothing = record { heap = []; trace = [] }

abbrev object : Queue
object = record { front = 0; rear = 0; mutex = 2; cond = 3; closed = false; size = 0 }

abbrev one_worker : Heap
one_worker =
    (1, some (worker 1 4))
    ∷ (2, some (raw mutex_size))
    ∷ (3, some (raw cond_size))
    ∷ (4, some (queue object))
    ∷ []

abbrev one_store : Store
one_store = record { heap = one_worker; trace = [] }

object-IsQueue : IsQueue one_worker 4 object []
unfolding read
object-IsQueue = ground arith

one-Created : Created nothing 1 one_store
unfolding read
one-Created = record {
  thread_id = 1;
  q = 4;
  object = object;
  holds = ground arith;
  is = object-IsQueue;
  open_queue = refl;
  mutex = ground arith;
  cond = ground arith;
  unused = (refl, refl, refl, refl);
  same = λ a c e. cc;
}
