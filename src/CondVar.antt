-- ===== src/CondVar.antt =====
-- booksrc/ch15/cv_simple.c: a thread that waits on a condition variable for the work of another. A step
-- is what a thread does up to giving up the mutex; the calls of the threads library succeed.
pub mod Wakeups
mod Examples
use sp327_butt_k.Base.{◌≡◌, Bool, true, false, if◌then◌else◌}

-- Where `workerA` stands.
pub data APc : Type 0 where
  entering : APc  -- before it takes the mutex
  waiting : APc  -- in `pthread_cond_wait`
  woken : APc  -- about to return from it
  passed : APc  -- behind the loop

-- Where `workerB` stands.
pub data BPc : Type 0 where
  working : BPc
  signalled : BPc

pub record State : Type 0 where
  pub a : APc
  pub b : BPc
  pub work_done : Bool

-- `main` creates both threads.
abbrev pub init : State
init = record { a = entering; b = working; work_done = false }

-- `pthread_cond_signal` wakes a thread that waits.
abbrev pub wake : APc → APc
wake waiting = woken
wake pc = pc

-- `workerA` up to its first wait.
unfoldable pub enter : State → State
enter s = record s { a = waiting }

-- The rest of a round of `workerA`.
unfoldable pub recheck : State → State
recheck s = record s { a = if s.work_done then passed else waiting }

-- The critical section of `workerB`.
unfoldable pub work : State → State
work s = record { a = wake s.a; b = signalled; work_done = true }

-- The steps of both threads, without spurious wake-ups.
pub data Step : State → State → Type 0 where
  enters : (s : State) → s.a ≡ entering → Step s (enter s)
  rechecks : (s : State) → s.a ≡ woken → Step s (recheck s)
  works : (s : State) → s.b ≡ working → Step s (work s)

pub data Steps : State → State → Type 0 where
  stay : {s : State} → Steps s s
  more : {s t u : State} → Steps s t → Step t u → Steps s u

-- The states that the program can reach, with wake-ups for no reason.
pub data Reach : State → Type 0 where
  started : Reach init
  steps : {s t : State} → Reach s → Step s t → Reach t
  spurious : {s : State} → Reach s → s.a ≡ waiting → Reach (record s { a = woken })

-- `main` ends once it has joined both.
unfoldable pub Ended : State → Type 0
Ended s = (s.a ≡ passed) × (s.b ≡ signalled)
