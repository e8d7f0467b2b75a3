-- ===== src/Worker/Simple.antt =====
-- The calls on threads in the examples' C library succeed.
use sp327_butt_k.Base.{refl}
use sp327_butt_k.Memory.Simple.{simple_os}
use sp327_butt_k.Worker.Lifetime.{HasThreads}

pub simple-HasThreads : HasThreads simple_os
simple-HasThreads = record {
  mutex_init_ok = λ m s. refl;
  cond_init_ok = λ c s. refl;
  create_ok = λ w s. refl;
  join_ok = λ t s. refl;
}
