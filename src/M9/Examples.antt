-- ===== src/M9/Examples.antt =====
-- Runs of the workers of M9, and its pool of threads.
use sp327_butt_k.Base.{◌≡◌, ◌+◌, refl, some, arith, [], ◌∷◌, true}
use sp327_butt_k.Pool.Family.{total}
use sp327_butt_k.M9.{System, fetch, process, init, Reach, started, enqueue, dequeue, run}
use sp327_butt_k.M9.Shutdown.{never_returns, returned, Shutdown}
use sp327_butt_k.Pool.Counting.{count}
use sp327_butt_k.M9.Workers.{taken_count, requests_conserved}
use sp327_butt_k.Memory.Simple.{simple_os, simple-HasMemory}
use sp327_butt_k.M9.Calls.{Call, Answers, create_and_call, spec_calls, calls_fifo}

-- Main enqueues the request at 5, which worker 0 of two takes and runs; then worker 0 waits.
abbrev one_queued : System
one_queued = record { items = 5 ∷ []; workers = init.workers }

abbrev one_done : System
one_done = fetch (process (fetch one_queued 0) 0 5) 0

one_done-Reach : Reach 2 (5 ∷ []) one_done
unfolding fetch process
one_done-Reach =
    dequeue 0 (run 0 5 (dequeue 0 (enqueue 5 started) (omega arith) refl) (omega arith) refl)
      (omega arith) refl

never_returns_example : ¬ Shutdown 2 (5 ∷ []) one_done returned
never_returns_example = never_returns (omega arith) (ground arith, tt)

requests_conserved_example :
    total (taken_count 5) 2 one_done.workers + count 5 one_done.items ≡ count 5 (5 ∷ [])
requests_conserved_example = requests_conserved one_done-Reach (ground arith, tt) 5

-- Two requests in, and out in the same order.
calls_fifo_example :
    Answers
      (create_and_call simple_os
        (record { front = 9; rear = 9; mutex = 9; cond = 9; closed = true; size = 9 })
        (Call.enqueue 5 ∷ Call.enqueue 6 ∷ Call.dequeue ∷ Call.dequeue ∷ [])
        (record { heap = []; trace = [] }))
      (some (5 ∷ 6 ∷ []))
unfolding spec_calls
calls_fifo_example =
    calls_fifo simple-HasMemory
      (record { front = 9; rear = 9; mutex = 9; cond = 9; closed = true; size = 9 })
      (Call.enqueue 5 ∷ Call.enqueue 6 ∷ Call.dequeue ∷ Call.dequeue ∷ [])
      (record { heap = []; trace = [] })
