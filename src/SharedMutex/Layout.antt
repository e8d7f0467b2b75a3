-- ===== src/SharedMutex/Layout.antt =====
-- What the shared buffer holds at the end, whatever the order of the writes.
use sp327_butt_k.Base.{
  ℕ, ◌+◌, ◌-◌, ◌≤◌, ◌<◌, ◌≡◌, refl, ap, ◌∙◌, Bool, true, false, ◌&&◌, List, [], ◌∷◌, ◌++◌, leb, ltb,
  length, if◌then◌else◌, arith, All, length-append,
}
use sp327_butt_k.Text.{Text, codes, char_at}
use sp327_butt_k.SharedMutex.{
  Buffer, Write, covers, written, memset, snprintf, child_message, thread_message, worker, child,
  write_all, interleave,
}

-- Two writes that do not both cover `p`.
abbrev Apart : ℕ → Write → Write → Type 0
Apart p w c = (covers w p && covers c p) ≡ false

write-swap :
    (p : ℕ) (w c : Write) (old : ℕ)
    → Apart p w c
    → written c p (written w p old) ≡ written w p (written c p old)
write-swap p w c old apart = ground (arith, apart)

write_all-swap :
    (p : ℕ) (w : Write) (cs : List Write) (old : ℕ)
    → All (Apart p w) cs
    → write_all cs p (written w p old) ≡ written w p (write_all cs p old)
write_all-swap p w [] old apart = refl
write_all-swap p w (c ∷ cs) old (first, rest) =
    ap (write_all cs p) (write-swap p w c old first) ∙ write_all-swap p w cs (written c p old) rest

-- Each write of one list is apart from each of the other.
abbrev AllApart : ℕ → List Write → List Write → Type 0
AllApart p cs ws = All (λ w. All (Apart p w) cs) ws

tail-AllApart : (p : ℕ) (c : Write) (cs ws : List Write) → AllApart p (c ∷ cs) ws → AllApart p cs ws
tail-AllApart p c cs [] a = tt
tail-AllApart p c cs (w ∷ ws) (first, rest) = (first.1, tail-AllApart p c cs ws rest)

interleave-write_all :
    (p : ℕ) (turns : List Bool) (cs ws : List Write) (old : ℕ)
    → AllApart p cs ws
    → interleave turns cs ws p old ≡ write_all ws p (write_all cs p old)
unfolding interleave
interleave-write_all p [] cs ws old a = refl
interleave-write_all p (true ∷ turns) [] ws old a = interleave-write_all p turns [] ws old a
interleave-write_all p (true ∷ turns) (c ∷ cs) ws old a =
    interleave-write_all p turns cs ws (written c p old) (tail-AllApart p c cs ws a)
interleave-write_all p (false ∷ turns) cs [] old a = interleave-write_all p turns cs [] old a
interleave-write_all p (false ∷ turns) cs (w ∷ ws) old (first, rest) =
    interleave-write_all p turns cs ws (written w p old) rest
    ∙ ap (write_all ws p) (write_all-swap p w cs old first)

-- The signatures and the two messages at their places, and NULs between them.
unfoldable pub layout : (message1 message2 : Text) → Buffer
layout m1 m2 p =
    if ltb p 5
    then 99
    else if leb 6 p && leb p (6 + length m1)
    then char_at m1 (p - 6)
    else if leb 25 p && ltb p 30
    then 116
    else if leb 31 p && leb p (31 + length m2)
    then char_at m2 (p - 31)
    else 0

-- A signature of five bytes, and a string with its NUL six bytes behind it.
abbrev section : (offset value : ℕ) → Text → List Write
section offset value m =
    memset offset value 5
    ∷ record { offset = offset + 6; count = length m + 1; byte = char_at m }
    ∷ []

section-AllApart :
    (p : ℕ) (m1 m2 : Text) → length m1 ≤ 18 → AllApart p (section 0 99 m1) (section 25 116 m2)
section-AllApart p m1 m2 le =
    ((ground arith, (ground arith, tt)), ((ground arith, (ground arith, tt)), tt))

section-layout :
    (p : ℕ) (m1 m2 : Text)
    → length m1 ≤ 18
    → write_all (section 25 116 m2) p (write_all (section 0 99 m1) p 0) ≡ layout m1 m2 p
unfolding layout
section-layout p m1 m2 le = ground arith

child_message-length : (digits : Text) → length digits ≤ 5 → length (child_message digits) ≤ 18
child_message-length digits le = omega (
  arith,
  le,
  length-append (codes "child ") (digits ++ codes " here!\n"),
  length-append digits (codes " here!\n"),
)

thread_message-length : (digits : Text) → length digits ≤ 5 → length (thread_message digits) ≤ 19
thread_message-length digits le = omega (
  arith,
  le,
  length-append (codes "thread ") (digits ++ codes " here!\n"),
  length-append digits (codes " here!\n"),
)

-- A string that fits is written with its NUL.
snprintf-fits :
    (offset n : ℕ) (s : Text)
    → length s < n
    → snprintf offset n s ≡ record { offset = offset; count = length s + 1; byte = char_at s }
snprintf-fits offset n s lt = let e : ltb (length s) n ≡ true = ground arith in rw e refl

child-section :
    (digits : Text) → length digits ≤ 5 → child digits ≡ section 0 99 (child_message digits)
unfolding child
child-section digits le =
    ap (λ w. memset 0 99 5 ∷ w ∷ [])
      (snprintf-fits 6 32 (child_message digits) (omega (arith, child_message-length digits le)))

worker-section :
    (digits : Text) → length digits ≤ 5 → worker digits ≡ section 25 116 (thread_message digits)
unfolding worker
worker-section digits le =
    ap (λ w. memset 25 116 5 ∷ w ∷ [])
      (snprintf-fits 31 32 (thread_message digits) (omega (arith, thread_message-length digits le)))

pub interleave-layout :
    (turns : List Bool) (child_pid parent_pid : Text)
    → length child_pid ≤ 5
    → length parent_pid ≤ 5
    → (p : ℕ)
    → interleave turns (child child_pid) (worker parent_pid) p 0
      ≡ layout (child_message child_pid) (thread_message parent_pid) p
interleave-layout turns c t short_c short_t p =
    let m1 = child_message c in
    let m2 = thread_message t in
    let le = child_message-length c short_c in
    rw (child-section c short_c, worker-section t short_t)
      (interleave-write_all p turns (section 0 99 m1) (section 25 116 m2) 0
          (section-AllApart p m1 m2 le)
        ∙ section-layout p m1 m2 le)
