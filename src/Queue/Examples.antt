-- ===== src/Queue/Examples.antt =====
-- Runs of queue.c, and the theorems at small queues.
use sp327_butt_k.Base.{
  ◌≡◌, refl, true, false, some, none, [], ◌∷◌, arith, ◌==◌, ◌||◌, if◌then◌else◌, List,
}
use sp327_butt_k.Memory.{
  Ptr, Queue, node, queue, request, Heap, read, update, lock, wait, Store, log, Run, ok, load,
  load_node, load_queue, set_next, free,
}
use sp327_butt_k.Memory.Returns.{Returns}
use sp327_butt_k.Memory.Simple.{simple_os, simple-HasMemory, simple-HasMutexes, top}
use sp327_butt_k.Queue.{
  increment, decrement, malloc, lock_mtx, unlock_mtx, link, advance_rear, append_node,
  enqueue_locked, queue_enqueue, wait_loop, unlink_front, take_front, queue_dequeue, queue_close,
  queue_isclosed, queue_size, queue_destroy,
}
use sp327_butt_k.Queue.Chain.{Nodes, has, IsQueue, last, more}
use sp327_butt_k.Queue.Spec
use sp327_butt_k.Queue.Dequeue.{Woken, ready, again, Dequeued, dequeue-cons}
use sp327_butt_k.Queue.Destroy.{Payloads, has_item, destroy-frees}
use sp327_butt_k.Queue.Refinement.{
  enqueue, dequeue, close, is_closed, size, Answer, done, got, flag, number, call, calls, Shows,
  calls-Refines, spec_call, spec_calls,
}

-- A queue at 50 with the mutex at 51 and the condition variable at 52.
abbrev empty_object : Queue
empty_object = record { front = 0; rear = 0; mutex = 51; cond = 52; closed = false; size = 0 }

abbrev empty_store : Store
empty_store = record { heap = (50, some (queue empty_object)) ∷ []; trace = [] }

-- The same with requests 10 and 20 in the nodes 60 and 61.
abbrev pair_object : Queue
pair_object = record { front = 60; rear = 61; mutex = 51; cond = 52; closed = false; size = 2 }

abbrev pair_heap : Heap
pair_heap =
    (50, some (queue pair_object))
    ∷ (60, some (node 10 61))
    ∷ (61, some (node 20 0))
    ∷ (10, some (request 7 8))
    ∷ (20, some (request 7 9))
    ∷ []

abbrev pair_store : Store
pair_store = record { heap = pair_heap; trace = [] }

abbrev pair : Nodes
pair = (60, 10) ∷ (61, 20) ∷ []

empty-IsQueue : IsQueue empty_store.heap 50 empty_object []
unfolding read
empty-IsQueue = ground arith

pair-IsQueue : IsQueue pair_heap 50 pair_object pair
unfolding read
pair-IsQueue = record {
  here = ground arith;
  ends = more (ground arith) refl (last (ground arith) refl);
  size = refl;
  fits = omega arith;
}

empty-Shows : Shows 50 Spec.empty 0 empty_store
empty-Shows = record {
  object = empty_object;
  nodes = [];
  is = empty-IsQueue;
  stands = refl;
  few = omega arith;
}

-- What the code answers, by running it.
answers : Run (List Answer) → List Answer
answers (ok as' _) = as'
answers _ = []

run_answers :
    answers (
      calls simple_os
        (enqueue 10
          ∷ enqueue 20
          ∷ dequeue
          ∷ size
          ∷ close
          ∷ enqueue 30
          ∷ is_closed
          ∷ dequeue
          ∷ dequeue
          ∷ [])
        50
        empty_store)
    ≡ done ∷ done ∷ got 10 ∷ number 1 ∷ done ∷ done ∷ flag true ∷ got 20 ∷ got 0 ∷ []
unfolding answers calls call queue_enqueue queue_dequeue queue_close queue_isclosed queue_size
    enqueue_locked append_node link advance_rear increment decrement malloc lock_mtx unlock_mtx
    wait_loop unlink_front take_front load_node load_queue load read update set_next free top
run_answers = refl

calls-Refines_example :
    Returns
      (λ b t.
        (b ≡ done ∷ got 10 ∷ done ∷ got 0 ∷ [])
        × Shows 50 (record { items = []; closed = true }) 9 t)
      (calls simple_os (enqueue 10 ∷ dequeue ∷ close ∷ dequeue ∷ []) 50 empty_store)
unfolding spec_calls spec_call Spec.enqueue Spec.dequeue Spec.close
calls-Refines_example =
    calls-Refines simple-HasMemory simple-HasMutexes (enqueue 10 ∷ dequeue ∷ close ∷ dequeue ∷ [])
      empty_store empty-Shows (omega arith) (omega arith)

-- Another thread enqueues request 10 during the second wait; the first wake-up is spurious.
abbrev fill : Store → Store
fill s = record s { heap = pair_heap }

abbrev locked : Store
locked = log empty_store (lock 51)

abbrev waited : Store
waited = log locked (wait 52 51)

filled-Woken : Woken 50 ((λ s. s) ∷ fill ∷ []) locked (fill (log waited (wait 52 51)))
filled-Woken =
    again empty-IsQueue.here refl (again empty-IsQueue.here refl (ready pair-IsQueue.here refl))

dequeue-cons_example :
    Returns
      (λ b u.
        (b ≡ 10) × Dequeued (fill (log waited (wait 52 51))) 50 pair_object 60 ((61, 20) ∷ []) u)
      (queue_dequeue simple_os ((λ s. s) ∷ fill ∷ []) 50 empty_store)
dequeue-cons_example =
    dequeue-cons simple-HasMutexes empty_store empty-IsQueue.here filled-Woken pair-IsQueue

destroy-frees_example :
    Returns
      (λ _ t.
        (a : Ptr)
        → read t.heap a
          ≡ (if (50 == a) || has a pair || has_item a pair then none else read pair_heap a))
      (queue_destroy 3 50 pair_store)
destroy-frees_example = destroy-frees pair_store 3 pair-IsQueue pair-Payloads (omega arith)
  where
    pair-Payloads : Payloads pair_heap pair
    pair-Payloads = (
      (request 7 8, unfold read in ground arith, refl),
      refl,
      ((request 7 9, unfold read in ground arith, refl), refl, tt),
    )
