-- ===== src/MemBugs.antt =====
-- The memory in which the test cases of booksrc/ch5/membugs.c run. A block is an array of one of the
-- program's objects; an access outside of it, or to a value that was never stored, stops the program.
pub mod Cases
pub mod Leaks
pub mod Verdicts
mod Examples
use sp327_butt_k.Base.{
  ℕ, zero, suc, ◌+◌, ◌-◌, ◌*◌, Bool, true, false, not, ◌&&◌, Option, none, some, List, [], ◌∷◌,
  ◌==◌, leb, ltb, length, if◌then◌else◌, ℤ, pos, negsuc, ◌+ℤ◌, ◌-ℤ◌,
}
use sp327_butt_k.Text.{Text, char_at}

pub data Region : Type 0 where
  stack : Region
  heap : Region
  global : Region

pub data Access : Type 0 where
  read : Access
  write : Access

pub data Fault : Type 0 where
  uninitialised : Region → Fault
  overflow : Access → Region → Fault
  underflow : Access → Region → Fault
  after_end : Access → Region → Fault  -- use after free, or after return
  double_free : Fault
  bad_free : Fault
  null_access : Fault

pub record Block : Type 0 where
  pub region : Region
  pub size : ℕ  -- in elements
  pub value : ℕ → Option ℕ
  pub alive : Bool

-- The newest block comes first; the number of a block is the number of the blocks after it.
abbrev pub Blocks : Type 0
Blocks = List Block

pub data Address : Type 0 where
  null : Address
  at : (block : ℕ) (offset : ℤ) → Address

pub data Status : Type 0 where
  success : Status
  failure : Status

pub data Result (A : Type 0) : Type 0 where
  ok : A → Blocks → Result A
  exited : Status → Blocks → Result A
  bug : Fault → Result A

abbrev pub Cmd : Type 0 → Type 0
Cmd A = Blocks → Result A

abbrev pub next : {A B : Type 0} → Result A → (A → Cmd B) → Result B
next (ok a m) f = f a m
next (exited s m) f = exited s m
next (bug e) f = bug e

infixl 1 ◌>>=◌ ◌>>◌
abbrev pub ◌>>=◌ : {A B : Type 0} → Cmd A → (A → Cmd B) → Cmd B
(c >>= f) m = next (c m) f

abbrev pub ◌>>◌ : {A B : Type 0} → Cmd A → Cmd B → Cmd B
(c >> d) m = next (c m) λ _. d

abbrev pub pure : {A : Type 0} → A → Cmd A
pure a m = ok a m

abbrev pub exit : {A : Type 0} → Status → Cmd A
exit s m = exited s m

abbrev pub find : ℕ → Blocks → Option Block
find b [] = none
find b (k ∷ m) = if b == length m then some k else find b m

abbrev pub replace : ℕ → Block → Blocks → Blocks
replace b k [] = []
replace b k (old ∷ m) = if b == length m then k ∷ m else old ∷ replace b k m

abbrev pub new_block : Region → ℕ → Block
new_block r n = record { region = r; size = n; value = λ _. none; alive = true }

-- An object of `n` elements that is not initialised.
abbrev pub declare : Region → (n : ℕ) → Cmd Address
declare r n m = ok (at (length m) (pos 0)) (new_block r n ∷ m)

-- `grants`: whether `malloc` has a block of that size.
abbrev pub malloc : (grants : ℕ → Bool) → (size : ℕ) → Cmd Address
malloc grants n = if grants n then declare heap n else pure null

-- What is wrong with an access to `count` elements of a block.
abbrev pub fault_at : Access → Block → (offset : ℤ) → (count : ℕ) → Option Fault
fault_at a k (negsuc n) count =
    if k.alive then some (underflow a k.region) else some (after_end a k.region)
fault_at a k (pos n) count =
    if k.alive
    then (if leb (n + count) k.size then none else some (overflow a k.region))
    else some (after_end a k.region)

-- The block with `count` values from an offset on.
abbrev pub filled : Block → (offset : ℤ) → (count : ℕ) → (ℕ → ℕ) → Block
filled k (negsuc n) count f = k
filled k (pos n) count f = record k {
  value =
      λ i. if ltb i n then k.value i else if ltb (i - n) count then some (f (i - n)) else k.value i;
}

abbrev pub unless_fault : {A : Type 0} → Option Fault → Result A → Result A
unless_fault none r = r
unless_fault (some e) r = bug e

abbrev pub fill_block : ℕ → ℤ → (count : ℕ) → (ℕ → ℕ) → Blocks → Option Block → Result (Unit {0})
fill_block b off count f m none = bug null_access
fill_block b off count f m (some k) =
    unless_fault (fault_at write k off count) (ok tt (replace b (filled k off count f) m))

-- `count` stores, the first of them at the address.
abbrev pub fill : Address → (count : ℕ) → (ℕ → ℕ) → Cmd (Unit {0})
fill null count f m = bug null_access
fill (at b off) count f m = fill_block b off count f m (find b m)

abbrev pub memset : Address → (value n : ℕ) → Cmd (Unit {0})
memset p v n = fill p n λ _. v

abbrev pub strcpy : Address → Text → Cmd (Unit {0})
strcpy p s = fill p (length s + 1) (char_at s)

abbrev pub strncpy : Address → Text → (n : ℕ) → Cmd (Unit {0})
strncpy p s n = fill p n (char_at s)

-- `p[i] = v`
abbrev pub assign : Address → (i v : ℕ) → Cmd (Unit {0})
assign null i v m = bug null_access
assign (at b off) i v m = fill (at b (off +ℤ pos i)) 1 (λ _. v) m

abbrev pub known : Region → Option ℕ → Blocks → Result ℕ
known r none m = bug (uninitialised r)
known r (some v) m = ok v m

abbrev pub load_block : ℤ → Blocks → Option Block → Result ℕ
load_block off m none = bug null_access
load_block (negsuc n) m (some k) = unless_fault (fault_at read k (negsuc n) 1) (bug null_access)
load_block (pos n) m (some k) =
    unless_fault (fault_at read k (pos n) 1) (known k.region (k.value n) m)

-- `*p`
abbrev pub load : Address → Cmd ℕ
load null m = bug null_access
load (at b off) m = load_block off m (find b m)

abbrev pub plus : Address → ℕ → Address
plus null n = null
plus (at b off) n = at b (off +ℤ pos n)

abbrev pub down : Address → Address
down null = null
down (at b off) = at b (off -ℤ pos 1)

abbrev pub stop_at_nul : (c : ℕ) → Cmd (Unit {0}) → Cmd (Unit {0})
stop_at_nul c more = if c == 0 then pure tt else more

-- `printf("%.*s", limit, p)`; a limit larger than the block is as good as none.
unfoldable pub print : (limit : ℕ) → Address → Cmd (Unit {0})
print zero p = pure tt
print (suc limit) p = do c ← load p; stop_at_nul c (print limit (plus p 1))

abbrev pub free_block : ℕ → Blocks → Option Block → Result (Unit {0})
free_block b m none = bug bad_free
free_block b m (some k) =
    if k.alive then ok tt (replace b (record k { alive = false }) m) else bug double_free

abbrev pub free : Address → Cmd (Unit {0})
free null m = ok tt m
free (at b (pos zero)) m = free_block b m (find b m)
free (at b (pos (suc n))) m = bug bad_free
free (at b (negsuc n)) m = bug bad_free

-- The end of a local variable.
abbrev pub leave : Address → Cmd (Unit {0})
leave p = free p

-- The elements of the heap that are still allocated.
abbrev pub heap_size : Region → Bool → ℕ → ℕ
heap_size heap true n = n
heap_size r alive n = 0

unfoldable pub leaked : Blocks → ℕ
leaked [] = 0
leaked (k ∷ m) = heap_size k.region k.alive k.size + leaked m
