-- ===== src/Pager/Wal/Log.antt =====
-- The writer and the reader of the log together: recovery after a crash, and reopening.
use mathlib.Core.List.{append_assoc, append-nil}
use sqlite_rs.Prelude.{
  ℕ, ◌+◌, ◌^◌, ◌<◌, ◌≡◌, refl, sym, ◌∙◌, arith, List, [], ◌∷◌, ◌++◌, length, length-append,
}
use sqlite_rs.Pager.Wal.Frames.{Frame}
use sqlite_rs.Pager.Wal.Writer.{WalWriter, append_frame}
use sqlite_rs.Pager.Wal.RoundTrip.{bytes_of, sum_after, frames_bytes, frames_sum}

-- Frames appended in order.
unfoldable pub append_all : {S : Type 0} → (List ℕ → ℕ) → WalWriter S → List Frame → WalWriter S
append_all from_ne w [] = w
append_all from_ne w (f ∷ fs) =
    append_all from_ne (append_frame from_ne w (f.page_number) (f.content) (f.db_size)) fs

module _ (from_ne : List ℕ → ℕ) {S : Type 0} where
  pub append_all-header :
      (fs : List Frame) (w : WalWriter S) → (append_all from_ne w fs).header ≡ w.header
  unfolding append_all append_frame
  append_all-header [] w = refl
  append_all-header (f ∷ fs) w =
      append_all-header fs (append_frame from_ne w (f.page_number) (f.content) (f.db_size))

  pub append_all-running :
      (fs : List Frame) (w : WalWriter S)
      → (append_all from_ne w fs).running ≡ frames_sum from_ne (w.header) fs (w.running)
  unfolding append_all append_frame frames_sum
  append_all-running [] w = refl
  append_all-running (f ∷ fs) w =
      append_all-running fs (append_frame from_ne w (f.page_number) (f.content) (f.db_size))

  pub append_all-pending :
      (fs : List Frame) (w : WalWriter S)
      → (append_all from_ne w fs).pending
        ≡ w.pending ++ frames_bytes from_ne (w.header) fs (w.running)
  unfolding append_all append_frame frames_bytes
  append_all-pending [] w = sym (append-nil (w.pending))
  append_all-pending (f ∷ fs) w =
      append_all-pending fs (append_frame from_ne w (f.page_number) (f.content) (f.db_size))
      ∙ append_assoc (w.pending) (bytes_of from_ne (w.header) f (w.running))
          (frames_bytes from_ne (w.header) fs (sum_after from_ne (w.header) f (w.running)))

  pub append_all-offset :
      (fs : List Frame) (w : WalWriter S)
      → w.offset + length (frames_bytes from_ne (w.header) fs (w.running)) < 2 ^ 60
      → (append_all from_ne w fs).offset
        ≡ w.offset + length (frames_bytes from_ne (w.header) fs (w.running))
  unfolding append_all append_frame frames_bytes
  append_all-offset [] w small = omega arith
  append_all-offset (f ∷ fs) w small =
      let rest = frames_bytes from_ne (w.header) fs (sum_after from_ne (w.header) f (w.running)) in
      let both = length-append (bytes_of from_ne (w.header) f (w.running)) rest in
      append_all-offset fs (append_frame from_ne w (f.page_number) (f.content) (f.db_size))
        (omega (arith, small, both))
      ∙ omega (arith, small, both)
