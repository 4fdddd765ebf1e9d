-- ===== src/Vfs/Durable.antt =====
-- A write-ahead log on a file in memory: what is written and synced is what the reader recovers.
use mathlib.Core.List.{append-nil}
use sqlite_rs.Prelude.{
  ℕ, zero, suc, ◌+◌, ◌-◌, ◌*◌, ◌^◌, ◌≤◌, ◌<◌, ltb, ◌≡◌, refl, sym, ap, ◌∙◌, arith, Bool-cases, inl,
  inr, List, [], ◌∷◌, ◌++◌, length, length-append, take, drop, replicate, length-replicate, none,
  some,
}
use sqlite_rs.Prelude.Bytes.{All, saturating_add, take-append}
use sqlite_rs.Prelude.Outcome.{ok, ◌>>=◌}
use sqlite_rs.Pager.Wal.Header.{WalHeader, wal_header_len, serialize}
use sqlite_rs.Pager.Wal.Frames.{Frame, no_pages, committed_pages}
use sqlite_rs.Pager.Wal.Writer as W
use sqlite_rs.Pager.Wal.Writer.{
  WalWriter, writer_at, create, append_frame, first_offset, write_pending,
}
use sqlite_rs.Pager.Wal.Commits.{publish}
use sqlite_rs.Pager.Wal.Sealed.{IsSealed, length-serialize}
use sqlite_rs.Pager.Wal.RoundTrip.{IsFrame, frames_bytes, length-frames_bytes}
use sqlite_rs.Pager.Wal.Log.{append_all, append_all-pending}
use sqlite_rs.Pager.Wal.Recovery.{log_of, log_of-frames_bytes, committed_pages-log_of}
use sqlite_rs.Vfs.Memory.{MemoryVfsFile, resize, read_at, write_at, size, sync}

take_past : (n : ℕ) (xs : List ℕ) → length xs ≤ n → take n xs ≡ xs
take_past zero [] h = refl
take_past zero (x ∷ xs) h = absurd (omega arith)
take_past (suc n) [] h = refl
take_past (suc n) (x ∷ xs) h = ap (λ t. x ∷ t) (take_past n xs (omega arith))

drop_past : (n : ℕ) (xs : List ℕ) → length xs ≤ n → drop n xs ≡ []
drop_past zero [] h = refl
drop_past zero (x ∷ xs) h = absurd (omega arith)
drop_past (suc n) [] h = refl
drop_past (suc n) (x ∷ xs) h = drop_past n xs (omega arith)

length-resize : (xs : List ℕ) (n : ℕ) → length xs ≤ n → length (resize xs n) ≡ n
unfolding resize
length-resize xs n h = omega (
  arith,
  length-append (take n xs) (replicate (n - length xs) 0),
  length-replicate {A = ℕ} (n - length xs) 0,
  ap length (take_past n xs h),
)

take-resize : (xs : List ℕ) (n : ℕ) → length xs ≤ n → take (length xs) (resize xs n) ≡ xs
unfolding resize
take-resize xs n h =
    ap (λ t. take (length xs) (t ++ replicate (n - length xs) 0)) (take_past n xs h)
    ∙ take-append xs (replicate (n - length xs) 0)

-- A write at the end of the file makes it longer by the buffer.
pub write_at_end :
    {V : Type 0} (file : MemoryVfsFile) (buf : List ℕ)
    → length (file.contents) + length buf < 2 ^ 60
    → write_at {V = V} file buf (length (file.contents))
      ≡ ok (record file { contents = file.contents ++ buf })
unfolding write_at
write_at_end {V} file buf small =
    let d = file.contents in
    let n = length d in
    let end = saturating_add n (length buf) in
    elim (Bool-cases (ltb n end)) [
      | inl e ↦
          rw
            (
              e,
              take-resize d end (omega arith),
              drop_past end (resize d end) (omega (arith, length-resize d end (omega arith))),
              append-nil buf,
            )
            refl
      | inr e ↦
          rw (e, take_past n d (omega arith), drop_past end d (omega arith), append-nil buf) refl
    ]

module _ (from_ne : List ℕ → ℕ) where
  append_all-file :
      (fs : List Frame) (w : WalWriter MemoryVfsFile) → (append_all from_ne w fs).file ≡ w.file
  unfolding append_all append_frame
  append_all-file [] w = refl
  append_all-file (f ∷ fs) w =
      append_all-file fs (append_frame from_ne w (f.page_number) (f.content) (f.db_size))

  append_all-pending_offset :
      (fs : List Frame) (w : WalWriter MemoryVfsFile) (k : ℕ)
      → w.pending_offset ≡ some k
      → (append_all from_ne w fs).pending_offset ≡ some k
  unfolding append_all append_frame first_offset
  append_all-pending_offset [] w k h = h
  append_all-pending_offset (f ∷ fs) w k h =
      append_all-pending_offset fs (append_frame from_ne w (f.page_number) (f.content) (f.db_size))
        k (rw h refl)

  sync_writes :
      {V : Type 0} (w : WalWriter MemoryVfsFile)
      → w.pending_offset ≡ some (length (w.file.contents))
      → length (w.file.contents) + length (w.pending) < 2 ^ 60
      → (w' : WalWriter MemoryVfsFile) × (W.sync from_ne {V = V} write_at sync size read_at w
          ≡ ok w')
        × (w'.file.contents ≡ w.file.contents ++ w.pending)
  unfolding W.sync write_pending sync
  sync_writes {V} w at small =
      let file : MemoryVfsFile = record {
        contents = w.file.contents ++ w.pending;
        sync_calls = w.file.sync_calls + 1;
      } in
      (
        record w { file = file; pending = []; pending_offset = none },
        rw (at, write_at_end {V = V} (w.file) (w.pending) small) refl,
        refl,
      )

  -- A log created on an empty file in memory, with a sealed header, to which whole frames of fewer than
  -- 2^59 bytes in all are appended, one at least, and which is synced: every call succeeds, and the file
  -- has the pages of the last commit among the frames.
  pub create-sync :
      {V : Type 0} (h : WalHeader) (s : IsSealed from_ne h) (f : Frame) (fs : List Frame)
      (file : MemoryVfsFile)
      → file.contents ≡ []
      → All (IsFrame h) (f ∷ fs)
      → length (f ∷ fs) * (24 + h.page_size) < 2 ^ 59
      → (w : WalWriter MemoryVfsFile) × ((create from_ne {V = V} write_at sync size read_at file h
            >>= (λ w.
                W.sync from_ne {V = V} write_at sync size read_at (append_all from_ne w (f ∷ fs))))
          ≡ ok w)
        × (committed_pages from_ne h (w.file.contents) ≡ publish no_pages no_pages 0 (f ∷ fs))
  unfolding create append_all append_frame first_offset
  create-sync {V} h s f fs file empty good small =
      let head : MemoryVfsFile = record file { contents = serialize h } in
      let w0 = writer_at head h wal_header_len (h.header_checksum) in
      let w1 = append_all from_ne w0 (f ∷ fs) in
      let bytes = frames_bytes from_ne h (f ∷ fs) (h.header_checksum) in
      let pending : w1.pending ≡ bytes = append_all-pending from_ne (f ∷ fs) w0 in
      let same_file : w1.file ≡ head = append_all-file (f ∷ fs) w0 in
      let placed : w1.pending_offset ≡ some 32 =
        append_all-pending_offset fs
          (append_frame from_ne w0 (f.page_number) (f.content) (f.db_size)) 32 refl in
      let first : write_at {V = V} file (serialize h) 0 ≡ ok head =
        ap (λ k. write_at {V = V} file (serialize h) k) (sym (ap length empty))
        ∙ write_at_end {V = V} file (serialize h)
            (omega (arith, ap length empty, length-serialize h))
        ∙ ap (λ t. ok (record file { contents = t ++ serialize h })) empty in
      let created : create from_ne {V = V} write_at sync size read_at file h ≡ ok w0 =
        rw (first) refl in
      let at : w1.pending_offset ≡ some (length (w1.file.contents)) =
        placed ∙ ap some (sym (ap (λ t. length (t.contents)) same_file ∙ length-serialize h)) in
      let short : length (w1.file.contents) + length (w1.pending) < 2 ^ 60 = omega (
        arith,
        ap (λ t. length (t.contents)) same_file,
        length-serialize h,
        ap length pending,
        length-frames_bytes from_ne h (f ∷ fs) (h.header_checksum) good,
        small,
      ) in
      let (w, done, contents) = sync_writes {V = V} w1 at short in
      let whole : w1.file.contents ++ w1.pending ≡ log_of from_ne h (f ∷ fs) =
        ap (λ t. t.contents ++ w1.pending) same_file
        ∙ ap (λ t. serialize h ++ t) pending
        ∙ sym (log_of-frames_bytes from_ne h (f ∷ fs)) in
      (
        w,
        rw created done,
        ap (committed_pages from_ne h) (contents ∙ whole)
            ∙ ap (committed_pages from_ne h) (sym (append-nil (log_of from_ne h (f ∷ fs))))
            ∙ committed_pages-log_of from_ne h s (f ∷ fs) good small [] (omega arith),
      )
