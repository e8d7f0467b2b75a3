-- ===== src/Memory.antt =====
-- The memory of the C program: cells at addresses, the calls of the threads library made so far, and
-- commands over both. A command ends with a result, by `exit(EXIT_FAILURE)`, in undefined behaviour,
-- blocked in a condition wait, or without fuel.
pub mod Returns
pub mod Access
pub mod Simple
use sp327_butt_k.Base.{
  ℕ, suc, ◌+◌, ◌≡◌, ◌≢◌, Bool, true, false, Option, none, some, List, [], ◌∷◌, ◌==◌, if◌then◌else◌,
}

abbrev pub Ptr : Type 0
Ptr = ℕ

abbrev pub null : Ptr
null = 0

-- `struct queue` of queue.c.
pub record Queue : Type 0 where
  pub front : Ptr
  pub rear : Ptr
  pub mutex : Ptr
  pub cond : Ptr
  pub closed : Bool
  pub size : ℕ

-- The objects that the program allocates. A `raw` block is one whose content no modelled code reads.
pub data Cell : Type 0 where
  node : (item next : Ptr) → Cell
  queue : Queue → Cell
  request : (work_fn : ℕ) (arg : Ptr) → Cell
  worker : (thread_id : ℕ) (request_queue : Ptr) → Cell
  pool : (workers : Ptr) (num_threads : ℕ) → Cell
  array : List Ptr → Cell
  raw : (size : ℕ) → Cell

-- The latest write to an address stands first; `none` is an address that was given back.
abbrev pub Heap : Type 0
Heap = List (Ptr × Option Cell)

unfoldable pub read : Heap → Ptr → Option Cell
read [] a = none
read ((p, c) ∷ h) a = if p == a then c else read h a

pub data Event : Type 0 where
  lock : (mutex : Ptr) → Event
  unlock : (mutex : Ptr) → Event
  wait : (cond mutex : Ptr) → Event
  signal : (cond : Ptr) → Event
  broadcast : (cond : Ptr) → Event
  create : (worker : Ptr) → Event
  join : (thread_id : ℕ) → Event

-- The trace has the latest event first.
pub record Store : Type 0 where
  pub heap : Heap
  pub trace : List Event

unfoldable pub update : Heap → Ptr → Option Cell → Heap
update h p c = (p, c) ∷ h

abbrev pub write : Store → Ptr → Option Cell → Store
write s p c = record s { heap = update s.heap p c }

abbrev pub log : Store → Event → Store
log s e = record s { trace = e ∷ s.trace }

pub data Run (A : Type 0) : Type 0 where
  ok : A → Store → Run A
  exit_failure : Run A
  fault : Run A
  blocked : Store → Run A
  out_of_fuel : Run A

abbrev pub Cmd : Type 0 → Type 0
Cmd A = Store → Run A

abbrev pub pure : {A : Type 0} → A → Cmd A
pure = ok

module _ {A B : Type 0} where
  abbrev pub and_then : Run A → (A → Cmd B) → Run B
  and_then (ok a s) k = k a s
  and_then exit_failure k = exit_failure
  and_then fault k = fault
  and_then (blocked s) k = blocked s
  and_then out_of_fuel k = out_of_fuel

  infixl 5 ◌>>=◌ ◌>>◌
  abbrev pub ◌>>=◌ : Cmd A → (A → Cmd B) → Cmd B
  m >>= k = λ s. and_then (m s) k

  abbrev pub ◌>>◌ : Cmd A → Cmd B → Cmd B
  m >> n = m >>= λ _. n

-- What the program takes from the C and threads libraries: the address that `malloc` returns, and the
-- codes that the calls on a mutex, a condition variable and a thread return.
pub record Os : Type 0 where
  pub malloc : (size : ℕ) → Heap → Ptr
  pub mutex_lock : Ptr → Store → ℕ
  pub mutex_unlock : Ptr → Store → ℕ
  pub mutex_init : Ptr → Store → ℕ
  pub cond_init : Ptr → Store → ℕ
  pub thread_create : Ptr → Store → ℕ
  pub thread_id : Ptr → Store → ℕ
  pub thread_join : ℕ → Store → ℕ

-- `malloc` never hands out an address in use (its manual page), and here it does not fail.
pub record HasMemory (os : Os) : Type 0 where
  pub ne_null : (size : ℕ) (h : Heap) → os.malloc size h ≢ null
  pub fresh : (size : ℕ) (h : Heap) → read h (os.malloc size h) ≡ none

-- The calls on a valid mutex return 0.
pub record HasMutexes (os : Os) : Type 0 where
  pub lock_ok : (m : Ptr) (s : Store) → os.mutex_lock m s ≡ 0
  pub unlock_ok : (m : Ptr) (s : Store) → os.mutex_unlock m s ≡ 0

abbrev pub emit : Event → Cmd (Unit {0})
emit e s = ok tt (log s e)

abbrev pub store : Ptr → Option Cell → Cmd (Unit {0})
store p c s = ok tt (write s p c)

abbrev pub exit : {A : Type 0} → Cmd A
exit _ = exit_failure

-- `*p`: undefined at `NULL` and at an address that holds no object.
unfoldable pub load : Ptr → Cmd Cell
load p s = if p == null then fault else elim (read s.heap p) [ none ↦ fault | some c ↦ ok c s ]

-- An object read through a pointer of its type.
abbrev pub as_node : Cell → Cmd (Ptr × Ptr)
as_node (node d n) = pure (d, n)
as_node _ = λ _. fault

abbrev pub as_queue : Cell → Cmd Queue
as_queue (queue q) = pure q
as_queue _ = λ _. fault

abbrev pub as_request : Cell → Cmd (ℕ × Ptr)
as_request (request f a) = pure (f, a)
as_request _ = λ _. fault

abbrev pub as_worker : Cell → Cmd (ℕ × Ptr)
as_worker (worker t q) = pure (t, q)
as_worker _ = λ _. fault

abbrev pub as_pool : Cell → Cmd (Ptr × ℕ)
as_pool (pool a n) = pure (a, n)
as_pool _ = λ _. fault

abbrev pub as_array : Cell → Cmd (List Ptr)
as_array (array ps) = pure ps
as_array _ = λ _. fault

unfoldable pub load_node : Ptr → Cmd (Ptr × Ptr)
load_node p = load p >>= as_node

unfoldable pub load_queue : Ptr → Cmd Queue
load_queue p = load p >>= as_queue

-- `p->next = n`
unfoldable pub set_next : (p n : Ptr) → Cmd (Unit {0})
set_next p n = do (d, _) ← load_node p; store p (some (node d n))

-- `free(p)`: nothing at `NULL`, undefined at an address that holds no object.
unfoldable pub free : Ptr → Cmd (Unit {0})
free p = if p == null then pure tt else (load p >> store p none)
