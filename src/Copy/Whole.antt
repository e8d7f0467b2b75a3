-- ===== src/Copy/Whole.antt =====
-- simpcp1.c and simpcp2.c where the transfers are whole.
use sp327_butt_k.Base.{
  ℕ, zero, suc, ◌+◌, ◌≤◌, ◌<◌, ◌≡◌, refl, sym, ap, ◌∙◌, true, false, none, some, [], ◌∷◌, ◌++◌,
  append-nil, append_assoc, ◌==◌, arith, ltb, length, length-append, Bool-cases, inl, inr, ◌^◌,
  int_result, to_int-small,
}
use sp327_butt_k.Text.{Text, take, drop}
use sp327_butt_k.Text.Slices.{
  length-take, length-drop, take-drop, drop-short, drop-drop, length-take-drop, least,
}
use sp327_butt_k.Copy.{
  Source, fd_read_end, fd_write_end, read_failed, write_failed, Sink, sys_read, push, write_by,
  sys_write, overlay, filled, fd_read, wrote, after_write, fd_write, copied, copy_loop, simple_loop,
  simple_docopy, Plan, simpcp1_main, simpcp2_main, docopy, exit_success,
}

pub take-overlay : (bytes buf : Text) → take (length bytes) (overlay bytes buf) ≡ bytes
take-overlay bytes buf = go bytes (drop (length bytes) buf)
  where
    go : (xs ys : Text) → take (length xs) (xs ++ ys) ≡ xs
    go [] ys = refl
    go (x ∷ xs) ys = ap (◌∷◌ x) (go xs ys)

pub length-overlay :
    (bytes buf : Text) → length bytes ≤ length buf → length (overlay bytes buf) ≡ length buf
length-overlay bytes buf le =
    omega (arith, length-append bytes (drop (length bytes) buf), length-drop (length bytes) buf)

fd_read_end-small :
    (tr : ℕ) (buf : Text) (s : Source)
    → tr < 2 ^ 31
    → fd_read_end tr buf s ≡ filled (record { total = tr; buf = buf; source = s })
unfolding fd_read_end
fd_read_end-small tr buf s lt =
    ap (λ z. int_result z (λ n. filled (record { total = n; buf = buf; source = s })) read_failed)
      (to_int-small tr lt)

fd_write_end-small : (tw : ℕ) (s : Sink) → tw < 2 ^ 31 → fd_write_end tw s ≡ wrote tw s
unfolding fd_write_end
fd_write_end-small tw s lt =
    ap (λ z. int_result z (λ n. wrote n s) (write_failed s)) (to_int-small tw lt)

-- `fd_read` with no plan: one `read` for a full block, and a second one at the end of the file.
fd_read-whole :
    (fuel n : ℕ) (buf s : Text)
    → suc n < 2 ^ 31
    → fd_read (suc (suc fuel)) (suc n) 0 buf (record { rest = s; plan = [] })
      ≡ filled (record {
        total = length (take (suc n) s);
        buf = overlay (take (suc n) s) buf;
        source = record { rest = drop (suc n) s; plan = [] };
      })
unfolding fd_read sys_read
fd_read-whole fuel n buf [] small =
    fd_read_end-small 0 buf (record { rest = []; plan = [] }) (omega arith)
fd_read-whole fuel n buf (c ∷ s) small =
    let bytes = c ∷ take n s in
    let at_end : length bytes < 2 ^ 31 = ground (arith, length-take (suc n) (c ∷ s)) in
    let ends =
      fd_read_end-small (length bytes) (overlay bytes buf) (record { rest = drop n s; plan = [] })
        at_end in
    let count : 0 + suc (length (take n s)) ≡ suc (length (take n s)) = omega arith in
    elim (Bool-cases (ltb (suc (length (take n s))) (suc n))) [
      | inl more ↦
          rw (count, more)
            (rw (drop-short n s (ground (arith, more))) (
              fd_read_end-small (length bytes) (overlay bytes buf) (record { rest = []; plan = [] })
                at_end))
      | inr end ↦ rw (count, end) ends
    ]

sys_write-whole :
    (bytes : Text) (t : Sink)
    → t.plan ≡ []
    → sys_write bytes t ≡ (some (length bytes), push bytes t)
unfolding sys_write
sys_write-whole bytes t plan = ap (write_by bytes t) plan

fd_write-whole :
    (fuel : ℕ) (bytes buf : Text) (t : Sink)
    → length bytes ≤ length buf
    → take (length bytes) buf ≡ bytes
    → t.plan ≡ []
    → length bytes < 2 ^ 31
    → fd_write (suc fuel) (length bytes) 0 buf t ≡ wrote (length bytes) (push bytes t)
unfolding fd_write
fd_write-whole fuel bytes buf t le whole plan small =
    let inside : ltb (length buf) (length bytes) ≡ false = ground (arith, le) in
    let count : 0 + length bytes ≡ length bytes = omega arith in
    let end : ltb (length bytes) (length bytes) ≡ false = ground arith in
    rw inside (
      ap (after_write (λ total u. fd_write fuel (length bytes) total buf u) (length bytes) 0)
        (ap (λ b. sys_write b t) whole ∙ sys_write-whole bytes t plan)
      ∙ rw (count, end) (fd_write_end-small (length bytes) (push bytes t) small))

push-push : (n : ℕ) (s : Text) (t : Sink) → push (drop n s) (push (take n s) t) ≡ push s t
push-push n s t =
    ap
      (λ w. record t {
        written = w;
        behind = drop (length (drop n s)) (drop (length (take n s)) t.behind);
      })
      (append_assoc t.written (take n s) (drop n s) ∙ ap (λ u. t.written ++ u) (take-drop n s))
    ∙ ap (λ b. record t { written = t.written ++ s; behind = b })
        (drop-drop (length (take n s)) (length (drop n s)) t.behind
          ∙ ap (λ k. drop k t.behind) (length-take-drop n s))

push-nil : (t : Sink) → push [] t ≡ t
push-nil t = ap (λ w. record t { written = w }) (append-nil t.written)

pub copy_loop-whole :
    (blocks n : ℕ) (buf s : Text) (t : Sink)
    → length s < blocks
    → length buf ≡ suc n
    → t.plan ≡ []
    → suc n < 2 ^ 31
    → copy_loop blocks (suc n) buf (record { rest = s; plan = [] }) t ≡ (copied, push s t)
unfolding copy_loop
copy_loop-whole zero n buf s t enough size plan small = absurd (omega arith)
copy_loop-whole (suc blocks) n buf [] t enough size plan small =
    rw (fd_read-whole n n buf [] small) (ap (λ u. (copied, u)) (sym (push-nil t)))
copy_loop-whole (suc blocks) n buf (c ∷ s) t enough size plan small =
    let bytes = take (suc n) (c ∷ s) in
    let short : length bytes ≤ length buf = ground (arith, length-take (suc n) (c ∷ s), size) in
    rw
      (
        fd_read-whole n n buf (c ∷ s) small,
        fd_write-whole (length bytes) bytes (overlay bytes buf) t
            (omega (arith, short, length-overlay bytes buf short)) (take-overlay bytes buf) plan
            (ground (arith, length-take (suc n) (c ∷ s), small)),
      )
      (let some_left : (length bytes == 0) ≡ false = ground arith in
        rw some_left (
          copy_loop-whole blocks n (overlay bytes buf) (drop (suc n) (c ∷ s)) (push bytes t)
            (omega (arith, length-drop n s)) (length-overlay bytes buf short ∙ size) plan small
          ∙ ap (λ u. (copied, u)) (push-push (suc n) (c ∷ s) t)))

abbrev pub contents : Sink → Text
contents t = t.written ++ t.behind

-- The destination after `open`.
abbrev pub opened : Text → Sink
opened old = record { written = []; behind = old; plan = [] }

-- For a positive block size below 2^31, which fits the `int` that `fd_read` and `fd_write` return:
-- if every call succeeds and moves all it can, simpcp2 ends with success, and the destination has
-- the source's text, followed by what it had behind that before: it is not truncated.
pub simpcp2_copies :
    (blocks argc n : ℕ) (buf source old : Text)
    → 3 ≤ argc
    → length buf ≡ suc n
    → suc n < 2 ^ 31
    → length source < blocks
    → simpcp2_main blocks argc
        (record {
          source_opened = true;
          mode_known = true;
          dest_opened = true;
          block_size = some (suc n);
          buffer = some buf;
        })
        (record { rest = source; plan = [] })
        (opened old)
      ≡ (exit_success, push source (opened old))
unfolding simpcp2_main docopy
simpcp2_copies blocks argc n buf source old args size small enough =
    let accepted : ltb argc 3 ≡ false = ground arith in
    rw (accepted, copy_loop-whole blocks n buf source (opened old) enough size refl small)

-- No call of the plan fails.
abbrev pub NoFailure : Plan → Type 0
NoFailure [] = Unit {0}
NoFailure (none ∷ plan) = ⊥
NoFailure (some k ∷ plan) = NoFailure plan

-- Such a `read` moves on, unless the file is at its end.
Progress : ℕ → Text → Plan → Type 0
Progress n s plan =
    (m : ℕ) × (next : Plan) × (sys_read (suc n) (record { rest = s; plan = plan })
      ≡ (some (take (suc m) s), record { rest = drop (suc m) s; plan = next }))
    × NoFailure next

sys_read-Progress : (n : ℕ) (s : Text) (plan : Plan) → NoFailure plan → Progress n s plan
unfolding sys_read Progress
sys_read-Progress n s [] ok = (n, [], refl, tt)
sys_read-Progress n s (none ∷ plan) ok = absurd ok
sys_read-Progress n s (some k ∷ plan) ok =
    let size : least (suc n) (suc k) ≡ suc (least n k) = ground arith in
    (least n k, plan, rw size, ok)

simple_loop-copies :
    (blocks n : ℕ) (s : Text) (plan : Plan) (t : Sink)
    → length s < blocks
    → NoFailure plan
    → t.plan ≡ []
    → simple_loop blocks (suc n) (record { rest = s; plan = plan }) t ≡ (copied, push s t)
unfolding simple_loop Progress
simple_loop-copies zero n s plan t enough ok whole = absurd (omega arith)
simple_loop-copies (suc blocks) n [] plan t enough ok whole =
    let (m, next, step, later) = sys_read-Progress n [] plan ok in
    rw step (ap (λ u. (copied, u)) (sym (push-nil t)))
simple_loop-copies (suc blocks) n (c ∷ s) plan t enough ok whole =
    let (m, next, step, later) = sys_read-Progress n (c ∷ s) plan ok in
    rw (step, sys_write-whole (take (suc m) (c ∷ s)) t whole)
      (simple_loop-copies blocks n (drop m s) next (push (take (suc m) (c ∷ s)) t)
          (omega (arith, length-drop m s)) later whole
        ∙ ap (λ u. (copied, u)) (push-push (suc m) (c ∷ s) t))

-- simpcp1 copies the file even if each `read` is short, as long as no call fails and each `write` is
-- whole.
pub simpcp1_copies :
    (blocks argc n : ℕ) (buf source old : Text) (plan : Plan)
    → 3 ≤ argc
    → length source < blocks
    → NoFailure plan
    → simpcp1_main blocks argc
        (record {
          source_opened = true;
          mode_known = true;
          dest_opened = true;
          block_size = some (suc n);
          buffer = some buf;
        })
        (record { rest = source; plan = plan })
        (opened old)
      ≡ (exit_success, push source (opened old))
unfolding simpcp1_main simple_docopy
simpcp1_copies blocks argc n buf source old plan args enough ok =
    let accepted : ltb argc 3 ≡ false = ground arith in
    rw (accepted, simple_loop-copies blocks n source plan (opened old) enough ok refl)
