-- ===== src/Memory/Simple.antt =====
-- A C library for the examples: `malloc` hands out the address behind the highest one ever used, and
-- the calls of the threads library succeed.
use sp327_butt_k.Base.{suc, ◌<◌, ◌≡◌, refl, none, [], ◌∷◌, arith, ltb, if◌then◌else◌}
use sp327_butt_k.Memory.{Ptr, Heap, read, Os, HasMemory, HasMutexes}

unfoldable pub top : Heap → Ptr
top [] = 0
top ((p, _) ∷ h) = if ltb (top h) p then p else top h

abbrev pub simple_os : Os
simple_os = record {
  malloc = λ size h. suc (top h);
  mutex_lock = λ m s. 0;
  mutex_unlock = λ m s. 0;
  mutex_init = λ m s. 0;
  cond_init = λ c s. 0;
  thread_create = λ w s. 0;
  thread_id = λ w s. w;
  thread_join = λ t s. 0;
}

read-above : (h : Heap) (a : Ptr) → top h < a → read h a ≡ none
unfolding top read
read-above [] a above = refl
read-above ((p, c) ∷ h) a above = ground (arith, read-above h a)

pub simple-HasMemory : HasMemory simple_os
simple-HasMemory = record {
  ne_null = λ size h. omega arith;
  fresh = λ size h. read-above h (suc (top h)) (omega arith);
}

pub simple-HasMutexes : HasMutexes simple_os
simple-HasMutexes = record { lock_ok = λ m s. refl; unlock_ok = λ m s. refl }
