-- ===== src/Queue/Accessors.antt =====
-- `queue_init`, `queue_close`, `queue_isclosed` and `queue_size` of queue.c.
use sp327_butt_k.Base.{◌≡◌, refl, true, false, some, none, [], ◌∷◌, arith, ◌==◌, length}
use sp327_butt_k.Memory.{
  Ptr, null, Queue, queue, read, update, lock, unlock, broadcast, Store, write, log, ok, Os,
  HasMemory, HasMutexes,
}
use sp327_butt_k.Memory.Access.{load_queue-ok}
use sp327_butt_k.Memory.Returns.{Returns, returns}
use sp327_butt_k.Queue.{queue_init, queue_close, queue_isclosed, queue_size, queue_size_bytes}
use sp327_butt_k.Queue.Chain.{Nodes, Ends, IsQueue, frame}
use sp327_butt_k.Queue.Enqueue.{lock-ok, unlock-ok, malloc-ok}

-- A new queue is empty and open, over the given mutex and condition variable.
pub record Fresh (mutex cond_var q : Ptr) (s t : Store) : Type 0 where
  pub object : Queue
  pub is : IsQueue t.heap q object []
  pub given : (object.mutex ≡ mutex) × (object.cond ≡ cond_var) × (object.closed ≡ false)
  pub unused : read s.heap q ≡ none
  pub same : (a : Ptr) → (q == a) ≡ false → read t.heap a ≡ read s.heap a

pub init-Fresh :
    {os : Os} (mem : HasMemory os) (mutex cond_var : Ptr) (s : Store)
    → Returns (λ q. Fresh mutex cond_var q s) (queue_init os mutex cond_var s)
unfolding queue_init read update
init-Fresh {os} mem mutex cond_var s =
    let q = os.malloc queue_size_bytes s.heap in
    let ne : (q == null) ≡ false = ground (arith, mem.ne_null queue_size_bytes s.heap) in
    rw (malloc-ok mem queue_size_bytes s, ne)
      (returns (record {
        object = _;
        is = record {
          here = ground (arith, mem.ne_null queue_size_bytes s.heap);
          ends = (refl, refl);
          size = refl;
          fits = omega arith;
        };
        given = (refl, refl, refl);
        unused = mem.fresh queue_size_bytes s.heap;
        same = ground arith;
      }))

module _ {os : Os} (mtx : HasMutexes os) (s : Store) {q : Ptr} {r : Queue} {xs : Nodes}
    (is : IsQueue s.heap q r xs) where
  -- The memory after `queue_close`: one field changed, and the waiters woken before the unlock.
  abbrev pub closed_store : Store
  closed_store =
      log
        (log (write (log s (lock r.mutex)) q (some (queue (record r { closed = true }))))
          (broadcast r.cond))
        (unlock r.mutex)

  pub close-ok : queue_close os q s ≡ ok tt closed_store
  unfolding queue_close
  close-ok =
      let s1 = write (log s (lock r.mutex)) q (some (queue (record r { closed = true }))) in
      rw (
        load_queue-ok s is.here,
        lock-ok mtx r.mutex s,
        load_queue-ok (log s (lock r.mutex)) is.here,
        unlock-ok mtx r.mutex (log s1 (broadcast r.cond)),
      )

  pub close-IsQueue : IsQueue closed_store.heap q (record r { closed = true }) xs
  unfolding read update
  close-IsQueue = record {
    here = ground (arith, is.here.ne_null);
    ends = keep xs is.ends;
    size = is.size;
    fits = is.fits;
  }
    where
      keep : (ys : Nodes) → Ends s.heap r.front r.rear ys → Ends closed_store.heap r.front r.rear ys
      keep [] e = e
      keep (y ∷ ys) c = frame c λ a d n e i. ground (arith, is.here.holds)

  pub isclosed-ok :
      queue_isclosed os q s ≡ ok r.closed (log (log s (lock r.mutex)) (unlock r.mutex))
  unfolding queue_isclosed
  isclosed-ok = rw (
    load_queue-ok s is.here,
    lock-ok mtx r.mutex s,
    load_queue-ok (log s (lock r.mutex)) is.here,
    unlock-ok mtx r.mutex (log s (lock r.mutex)),
  )

  pub size-ok : queue_size os q s ≡ ok (length xs) (log (log s (lock r.mutex)) (unlock r.mutex))
  unfolding queue_size
  size-ok = rw (
    load_queue-ok s is.here,
    lock-ok mtx r.mutex s,
    load_queue-ok (log s (lock r.mutex)) is.here,
    unlock-ok mtx r.mutex (log s (lock r.mutex)),
    is.size,
  )
