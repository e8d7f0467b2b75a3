-- ===== src/Worker/Lifetime.antt =====
-- What `create_worker_thread` allocates and what `join_worker_thread` gives back.
use sp327_butt_k.Base.{ℕ, ◌≡◌, false, ◌||◌, some, none, [], arith, ◌==◌, if◌then◌else◌}
use sp327_butt_k.Memory.{
  Ptr, null, Queue, Cell, worker, raw, create, join, read, update, Store, write, log, Os, HasMemory,
}
use sp327_butt_k.Memory.Access.{Holds, load-ok, free-ok, read-update}
use sp327_butt_k.Memory.Returns.{Returns, returns, bind, mono}
use sp327_butt_k.Queue.Chain.{IsQueue, frame-IsQueue}
use sp327_butt_k.Queue.Enqueue.{malloc-ok}
use sp327_butt_k.Queue.Accessors.{Fresh, init-Fresh}
use sp327_butt_k.Queue.Destroy.{destroy-frees}
use sp327_butt_k.Worker.{
  check, start_thread, create_worker_thread, join_worker_thread, worker_size, mutex_size, cond_size,
}

-- The calls that set up and join a thread succeed.
pub record HasThreads (os : Os) : Type 0 where
  pub mutex_init_ok : (m : Ptr) (s : Store) → os.mutex_init m s ≡ 0
  pub cond_init_ok : (c : Ptr) (s : Store) → os.cond_init c s ≡ 0
  pub create_ok : (w : Ptr) (s : Store) → os.thread_create w s ≡ 0
  pub join_ok : (t : ℕ) (s : Store) → os.thread_join t s ≡ 0

-- A worker with a queue of its own, over a mutex and a condition variable of its own.
pub record Created (s : Store) (w : Ptr) (t : Store) : Type 0 where
  pub thread_id : ℕ
  pub q : Ptr
  pub object : Queue
  pub holds : Holds t.heap w (worker thread_id q)
  pub is : IsQueue t.heap q object []
  pub open_queue : object.closed ≡ false
  pub mutex : Holds t.heap object.mutex (raw mutex_size)
  pub cond : Holds t.heap object.cond (raw cond_size)
  pub unused :
      (read s.heap w ≡ none)
      × (read s.heap q ≡ none)
      × (read s.heap object.mutex ≡ none)
      × (read s.heap object.cond ≡ none)
  pub same : (a : Ptr) (c : Cell) → read s.heap a ≡ some c → read t.heap a ≡ some c

module _ {os : Os} (threads : HasThreads os) where
  -- `join_worker_thread` on a worker whose queue is drained frees the worker and its queue, and no
  -- other object: the mutex and the condition variable of the queue stay allocated.
  pub join-frees :
      (s : Store) {w q : Ptr} {thread_id : ℕ} {r : Queue}
      → Holds s.heap w (worker thread_id q)
      → IsQueue s.heap q r []
      → Returns
          (λ _ t.
            (a : Ptr) → read t.heap a ≡ (if (q == a) || (w == a) then none else read s.heap a))
          (join_worker_thread os 1 w s)
  unfolding join_worker_thread check
  join-frees s {w} {q} {thread_id} here is =
      rw (load-ok s here, threads.join_ok thread_id s)
        (bind (destroy-frees (log s (join thread_id)) 1 is tt (omega arith)) λ _ t gone.
          let still : Holds t.heap w (worker thread_id q) =
            ground (arith, gone w, here.ne_null, here.holds, is.here.holds) in
          rw (free-ok t still) (returns λ a. ground (arith, gone a, read-update t.heap w a none)))

  module _ (mem : HasMemory os) (s : Store) where
    abbrev w : Ptr
    w = os.malloc worker_size s.heap

    abbrev s1 : Store
    s1 = write s w (some (raw worker_size))

    abbrev m : Ptr
    m = os.malloc mutex_size s1.heap

    abbrev s2 : Store
    s2 = write s1 m (some (raw mutex_size))

    abbrev c : Ptr
    c = os.malloc cond_size s2.heap

    abbrev s3 : Store
    s3 = write s2 c (some (raw cond_size))

    module _ (q : Ptr) (t : Store) (fr : Fresh m c q s3 t) where
      new_w : read s.heap w ≡ none
      new_w = mem.fresh worker_size s.heap

      new_m : read s1.heap m ≡ none
      new_m = mem.fresh mutex_size s1.heap

      new_c : read s2.heap c ≡ none
      new_c = mem.fresh cond_size s2.heap

      abbrev last_store : Store
      last_store =
          let t1 = write t w (some (worker 0 q)) in
          log (write t1 w (some (worker (os.thread_id w t1) q))) (create w)

      started-Created : Created s w last_store
      unfolding read update
      started-Created = record {
        thread_id = os.thread_id w (write t w (some (worker 0 q)));
        q = q;
        object = fr.object;
        holds = record { ne_null = mem.ne_null worker_size s.heap; holds = ground arith };
        is =
            frame-IsQueue fr.is
              λ a i. ground (arith, new_w, new_m, new_c, fr.unused, fr.is.here.holds);
        open_queue = ground (arith, fr.given);
        mutex = rw (fr.given.0) (record {
          ne_null = mem.ne_null mutex_size s1.heap;
          holds = ground (arith, new_w, new_m, new_c, fr.unused, fr.same m);
        });
        cond = rw (fr.given.1) (record {
          ne_null = mem.ne_null cond_size s2.heap;
          holds = ground (arith, new_w, new_m, new_c, fr.unused, fr.same c);
        });
        unused = (
          new_w,
          ground (arith, new_w, new_m, new_c, fr.unused),
          rw (fr.given.0) (ground (arith, new_w, new_m, new_c, fr.unused)),
          rw (fr.given.1) (ground (arith, new_w, new_m, new_c, fr.unused)),
        );
        same = λ a x e. ground (arith, new_w, new_m, new_c, fr.unused, fr.same a);
      }

      start-Created : Returns (Created s) (start_thread os w q t)
      unfolding start_thread check
      start-Created =
          rw (threads.create_ok w (write t w (some (worker 0 q)))) (returns started-Created)

    -- `create_worker_thread` returns a worker with an empty, open queue over a mutex and a condition
    -- variable of its own, all in memory that was unused before, and leaves every other object alone.
    pub create-Created : Returns (Created s) (create_worker_thread os s)
    unfolding create_worker_thread check
    create-Created =
        let ne : (w == null) ≡ false = ground (arith, mem.ne_null worker_size s.heap) in
        let ne' : (m == null || c == null) ≡ false =
          ground (arith, mem.ne_null mutex_size s1.heap, mem.ne_null cond_size s2.heap) in
        rw
          (
            malloc-ok mem worker_size s,
            ne,
            malloc-ok mem mutex_size s1,
            malloc-ok mem cond_size s2,
            ne',
            threads.mutex_init_ok m s3,
            threads.cond_init_ok c s3,
          )
          (bind (init-Fresh mem m c s3) λ q t fr. start-Created q t fr)

-- A worker that is created and then joined with its queue drained: the two blocks that
-- `create_worker_thread` allocated for the mutex and the condition variable are never freed.
pub join_leaks :
    {os : Os} (threads : HasThreads os) {s t : Store} {w : Ptr} (made : Created s w t)
    → Returns
        (λ _ u.
          (read u.heap made.object.mutex ≡ some (raw mutex_size))
          × (read u.heap made.object.cond ≡ some (raw cond_size))
          × (read s.heap made.object.mutex ≡ none)
          × (read s.heap made.object.cond ≡ none))
        (join_worker_thread os 1 w t)
join_leaks threads {t} {w} made = mono (join-frees threads t made.holds made.is) λ _ u gone. (
  ground (arith, gone made.object.mutex, made.mutex.holds, made.is.here.holds, made.holds.holds),
  ground (arith, gone made.object.cond, made.cond.holds, made.is.here.holds, made.holds.holds),
  made.unused.2,
  made.unused.3,
)
