-- ===== src/Pool/Examples.antt =====
-- A pool of one worker that is given one request, up to the end of `thread_pool_destroy`, and the
-- theorems along that run.
use sp327_butt_k.Base.{◌+◌, ℕ, ◌≤◌, ◌≡◌, refl, [], ◌∷◌, ◌++◌, arith, All}
use sp327_butt_k.Queue.Spec
use sp327_butt_k.Pool.Family.{total}
use sp327_butt_k.Pool.{
  Reach, started, next, Step, add, destroy, close, closed_all, join, joined_all, work, start,
  dequeue, run, destroyed, System, fetch, process, thread_pool_add, close_worker, finished,
}
use sp327_butt_k.Pool.Invariant.{IsRequest, in_hand}
use sp327_butt_k.Pool.Counting.{
  count, processed_count, processed_in_order, destroyed_drained, destroyed_exactly_once,
}
use sp327_butt_k.Pool.Termination.{no_deadlock, shutdown_completes, Run, measure}

-- A reachable state of the pool of one worker with the request 5.
record Stage : Type 0 where
  state : System
  reach : Reach 1 (5 ∷ []) state

abbrev added : Stage
added = record { state = _; reach = next started (add 7 5 [] refl (omega arith)) }

abbrev taken : Stage
unfolding thread_pool_add fetch Spec.enqueue Spec.dequeue
taken = record {
  state = _;
  reach =
      next (next added.reach (work 0 (omega arith) (start refl)))
        (work 0 (omega arith) (dequeue refl));
}

taken_holds : in_hand (taken.state.workers 0).pc ≡ 5 ∷ []
unfolding taken
taken_holds = refl

taken_real : All IsRequest (5 ∷ [])
taken_real = (omega arith, tt)

processed_in_order_example :
    (taken.state.workers 0).assigned
    ≡ (taken.state.workers 0).processed
      ++ (in_hand (taken.state.workers 0).pc ++ (taken.state.workers 0).queue.items)
processed_in_order_example = processed_in_order taken.reach taken_real 0 (omega arith)

abbrev all_done : Stage
unfolding taken process close_worker Spec.close
all_done = record {
  state = _;
  reach =
      next
        (next
          (next
            (next
              (next (next (next taken.reach (work 0 (omega arith) (run 5 refl))) (destroy refl))
                (close 0 refl (omega arith)))
              (work 0 (omega arith) (dequeue refl)))
            (closed_all refl))
          (join 0 refl (omega arith) refl))
        (joined_all refl);
}

destroyed_drained_example :
    ((all_done.state.workers 0).pc ≡ finished)
    × ((all_done.state.workers 0).processed ≡ (all_done.state.workers 0).assigned)
    × ((all_done.state.workers 0).queue.items ≡ [])
unfolding all_done
destroyed_drained_example = destroyed_drained all_done.reach taken_real refl 0 (omega arith)

destroyed_exactly_once_example :
    total (processed_count 5) 1 all_done.state.workers ≡ count 5 (5 ∷ [])
unfolding all_done
destroyed_exactly_once_example = destroyed_exactly_once all_done.reach taken_real refl 5

no_deadlock_example : (t : System) × Step 1 taken.state t
unfolding taken
no_deadlock_example = no_deadlock taken.reach taken_real (omega arith) (λ e. cc)

shutdown_completes_example :
    ((k : ℕ) × (t : System) × Run 1 taken.state k 0 t × (t.main ≡ destroyed) × Reach 1 (5 ∷ []) t)
    × ((k j : ℕ) (t : System) → Run 1 taken.state k j t → k ≤ measure 1 taken.state + j)
shutdown_completes_example = shutdown_completes taken.reach taken_real (omega arith)
