-- ===== src/SharedMutex/Display.antt =====
-- What `main` shows of the shared buffer.
use sp327_butt_k.Base.{ℕ, ◌≤◌, ◌≡◌, refl, ap, Bool, true, ◌&&◌, List, [], ◌∷◌, ◌++◌, length}
use sp327_butt_k.Text.{Text}
use sp327_butt_k.SharedMutex.{
  Buffer, child_message, thread_message, Line, bytes_from, print_line, show_loop, showbuf, Os,
  all_set_up, showed, main,
}
use sp327_butt_k.SharedMutex.Layout.{layout, interleave-layout}

unfoldable pub shown_bytes : List Line → List ℕ
shown_bytes [] = []
shown_bytes (l ∷ lines) = l.bytes ++ shown_bytes lines

showbuf-bytes : (buf : Buffer) → shown_bytes (showbuf buf) ≡ bytes_from buf 0 128
unfolding shown_bytes showbuf show_loop print_line
showbuf-bytes buf = refl

-- No call fails before the end, and both process numbers have at most five digits: in whatever order
-- the thread and the child write, `main` shows the 128 bytes of one buffer, with both signatures and
-- both messages whole and at their places.
pub main-layout :
    (os : Os) (parent_pid child_pid : Text) (turns : List Bool)
    → all_set_up os ≡ true
    → os.child_once ≡ true
    → length parent_pid ≤ 5
    → length child_pid ≤ 5
    → (lines : List Line) × (main os parent_pid child_pid turns
        ≡ showed lines (os.lock_deleted && os.buffer_deleted))
      × (shown_bytes lines
          ≡ bytes_from (layout (child_message child_pid) (thread_message parent_pid)) 0 128)
unfolding main
main-layout os parent_pid child_pid turns ready once short_p short_c =
    let buf : Buffer = layout (child_message child_pid) (thread_message parent_pid) in
    let same = interleave-layout turns child_pid parent_pid short_c short_p in
    (
      showbuf buf,
      rw (ready, once)
          (ap (λ b. showed (showbuf b) (os.lock_deleted && os.buffer_deleted)) (λ i p. same p i)),
      showbuf-bytes buf,
    )
