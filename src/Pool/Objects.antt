-- ===== src/Pool/Objects.antt =====
-- thread_pool.c over the memory: the pool object and its array of workers. The array stands as the list
-- of the entries that are filled in; thread_pool_init fills all `num_threads` of them.
pub mod Members
pub mod Created
pub mod Released
mod Examples
use sp327_butt_k.Base.{ℕ, zero, suc, ◌*◌, some, List, [], ◌∷◌, ◌++◌, ◌==◌, if◌then◌else◌}
use sp327_butt_k.Memory.{
  Ptr, null, pool, array, Store, ok, Cmd, pure, ◌>>=◌, ◌>>◌, Os, store, exit, load, as_worker,
  as_pool, as_array, free,
}
use sp327_butt_k.Queue.{malloc, queue_close}
use sp327_butt_k.Worker.{create_worker_thread, join_worker_thread}

-- The size of `struct thread_pool` on a 64-bit machine.
abbrev pub pool_size : ℕ
pool_size = 16

-- `pool->workers[i] = w`, the entries before it being filled in.
unfoldable pub set_next_worker : (a w : Ptr) → Cmd (Unit {0})
set_next_worker a w = do ws ← (load a >>= as_array); store a (some (array (ws ++ w ∷ [])))

-- What other threads do to the memory meanwhile.
abbrev pub meanwhile : (Store → Store) → Cmd (Unit {0})
meanwhile others s = ok tt (others s)

module _ (os : Os) where
  unfoldable pub create_loop : (rounds : ℕ) → Ptr → Cmd (Unit {0})
  create_loop zero a = pure tt
  create_loop (suc rounds) a = do
    w ← create_worker_thread os
    set_next_worker a w
    create_loop rounds a

  unfoldable pub thread_pool_init : (num_threads : ℕ) → Cmd Ptr
  thread_pool_init n = do
    p ← malloc os pool_size
    if p == null then exit else do
      a ← malloc os (8 * n)
      if a == null
          then exit
          else do store a (some (array [])); store p (some (pool a n)); create_loop n a; pure p

  unfoldable pub close_loop : List Ptr → Cmd (Unit {0})
  close_loop [] = pure tt
  close_loop (w ∷ ws) = do (_, q) ← (load w >>= as_worker); queue_close os q; close_loop ws

  -- `fuel` bounds the rounds of each `queue_destroy`.
  unfoldable pub join_loop : (fuel : ℕ) → List Ptr → Cmd (Unit {0})
  join_loop fuel [] = pure tt
  join_loop fuel (w ∷ ws) = do join_worker_thread os fuel w; join_loop fuel ws

  -- `others`: what the workers do from the last `queue_close` to the end of their threads.
  unfoldable pub thread_pool_destroy : (fuel : ℕ) (others : Store → Store) → Ptr → Cmd (Unit {0})
  thread_pool_destroy fuel others p = do
    (a, _) ← (load p >>= as_pool)
    ws ← (load a >>= as_array)
    close_loop ws
    meanwhile others
    join_loop fuel ws
    free a
    free p
