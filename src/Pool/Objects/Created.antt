-- ===== src/Pool/Objects/Created.antt =====
-- `thread_pool_init`: the pool, its array and its workers.
use sp327_butt_k.Base.{
  ℕ, zero, suc, ◌+◌, ◌*◌, ◌≡◌, refl, true, false, some, [], ◌∷◌, ◌++◌, arith, ◌==◌, length,
  length-append,
}
use sp327_butt_k.Memory.{
  Ptr, null, pool, array, raw, Heap, read, update, Store, write, ok, Os, HasMemory,
}
use sp327_butt_k.Memory.Access.{Holds, load-ok}
use sp327_butt_k.Memory.Returns.{Returns, returns, bind, mono}
use sp327_butt_k.Queue.Enqueue.{malloc-ok}
use sp327_butt_k.Worker.Lifetime.{HasThreads, Created, create-Created}
use sp327_butt_k.Pool.Objects.{pool_size, set_next_worker, create_loop, thread_pool_init}
use sp327_butt_k.Pool.Objects.Members.{
  Member, Members, Team, workers, frame-Team, write-Team, not-owned, snoc-Team, workers-append,
}

-- A pool at `p` with its array at `a` and these workers.
pub record Built (h : Heap) (p a : Ptr) (n : ℕ) (ms : Members) : Type 0 where
  pub at_pool : Holds h p (pool a n)
  pub at_array : Holds h a (array (workers ms))
  pub team : Team h ms

module _ {os : Os} (mem : HasMemory os) (threads : HasThreads os) (p a : Ptr) (n : ℕ) where
  -- One more worker, created from `s` on.
  module _ (s : Store) (ms : Members) (b : Built s.heap p a n ms) (w : Ptr) (t : Store)
      (made : Created s w t) where
    abbrev next : Members
    next = ms ++ (w, made.q) ∷ []

    new-Member : Member t.heap w made.q
    new-Member = record {
      thread_id = made.thread_id;
      object = made.object;
      nodes = [];
      holds = made.holds;
      is = made.is;
    }

    next-Team : Team t.heap next
    next-Team =
        snoc-Team ms
          (frame-Team s.heap t.heap (λ x. true) (λ x d m e. refl) (λ x c e i. made.same x c e) ms
            b.team λ x i. refl)
          new-Member
          (not-owned s.heap w ms b.team (λ i q e. cc (made.unused.0)) (λ r e. cc (made.unused.0)))
          (not-owned s.heap made.q ms b.team (λ i q e. cc (made.unused.1))
            (λ r e. cc (made.unused.1)))

    array-Holds : Holds t.heap a (array (workers ms))
    array-Holds = record {
      ne_null = b.at_array.ne_null;
      holds = made.same a (array (workers ms)) b.at_array.holds;
    }

    abbrev filled : Store
    filled = write t a (some (array (workers ms ++ w ∷ [])))

    filled-Built : Built filled.heap p a n next
    unfolding read update
    filled-Built = record {
      at_pool = record {
        ne_null = b.at_pool.ne_null;
        holds = ground (arith, b.at_pool.holds, b.at_array.holds, made.same p (pool a n));
      };
      at_array =
          rw (workers-append ms ((w, made.q) ∷ []))
            (record { ne_null = b.at_array.ne_null; holds = ground arith });
      team =
          write-Team t.heap a (some (array (workers ms ++ w ∷ []))) next
            (λ i q e. cc (array-Holds.holds)) (λ r e. cc (array-Holds.holds))
            (λ d m e. cc (array-Holds.holds)) next-Team;
    }

    set_next-ok : set_next_worker a w t ≡ ok tt filled
    unfolding set_next_worker
    set_next-ok = rw (load-ok t array-Holds)

  create_loop-Built :
      (rounds : ℕ) (s : Store) (ms : Members)
      → Built s.heap p a n ms
      → Returns
          (λ _ t. (ns : Members) × (length ns ≡ length ms + rounds) × Built t.heap p a n ns)
          (create_loop os rounds a s)
  unfolding create_loop
  create_loop-Built zero s ms b = returns (ms, omega arith, b)
  create_loop-Built (suc rounds) s ms b = bind (create-Created threads mem s) λ w t made.
      rw (set_next-ok s ms b w t made) (
        mono
          (create_loop-Built rounds (filled s ms b w t made) (next s ms b w t made)
            (filled-Built s ms b w t made))
          λ _ u (ns, e, built). (ns, omega (arith, e, length-append ms ((w, made.q) ∷ [])), built))

module _ {os : Os} (mem : HasMemory os) (threads : HasThreads os) (n : ℕ) (s : Store) where
  abbrev p : Ptr
  p = os.malloc pool_size s.heap

  abbrev s1 : Store
  s1 = write s p (some (raw pool_size))

  abbrev a : Ptr
  a = os.malloc (8 * n) s1.heap

  abbrev s2 : Store
  s2 = write (write (write s1 a (some (raw (8 * n)))) a (some (array []))) p (some (pool a n))

  ready-Built : Built s2.heap p a n []
  unfolding read update
  ready-Built = record {
    at_pool = record { ne_null = mem.ne_null pool_size s.heap; holds = ground arith };
    at_array = record {
      ne_null = mem.ne_null (8 * n) s1.heap;
      holds = ground (arith, mem.fresh (8 * n) s1.heap);
    };
    team = tt;
  }

  -- `thread_pool_init` returns a pool of the given number of workers, each with a queue of its own.
  pub init-Built :
      Returns
        (λ q t. (b : Ptr) × (ms : Members) × (length ms ≡ n) × Built t.heap q b n ms)
        (thread_pool_init os n s)
  unfolding thread_pool_init
  init-Built =
      let ne : (p == null) ≡ false = ground (arith, mem.ne_null pool_size s.heap) in
      let ne' : (a == null) ≡ false = ground (arith, mem.ne_null (8 * n) s1.heap) in
      rw (malloc-ok mem pool_size s, ne, malloc-ok mem (8 * n) s1, ne')
        (bind (create_loop-Built mem threads p a n n s2 [] ready-Built)
          λ _ t (ms, e, built). returns (a, ms, omega (arith, e), built))
