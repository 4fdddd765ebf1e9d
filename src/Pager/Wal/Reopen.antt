-- ===== src/Pager/Wal/Reopen.antt =====
-- Reopening a log: the writer goes on where it stopped, with or without a resume hint.
use mathlib.Core.List.{append-nil}
use sqlite_rs.Prelude.{
  ℕ, ◌+◌, ◌*◌, ◌^◌, ◌==◌, ==_iff, ◌<◌, ◌≡◌, refl, sym, ap, ◌∙◌, arith, Bool, true, false,
  if◌then◌else◌, List, [], ◌++◌, length, none, some,
}
use sqlite_rs.Prelude.Outcome.{Result, ok}
use sqlite_rs.Prelude.Bytes.{All}
use sqlite_rs.Pager.Wal.Header.{WalHeader, wal_header_len, serialize, parse}
use sqlite_rs.Pager.Wal.Frames.{Frame}
use sqlite_rs.Pager.Wal.Writer.{
  WalWriter, writer_at, resume_hint, open_existing, rescan, resume, hint_holds, read_matches,
  parsed_as, same_header,
}
use sqlite_rs.Pager.Wal.Reads.{same_checksum_self}
use sqlite_rs.Pager.Wal.Sealed.{IsSealed, length-serialize, parse-serialize}
use sqlite_rs.Pager.Wal.RoundTrip.{IsFrame, frames_bytes, length-frames_bytes}
use sqlite_rs.Pager.Wal.Log.{append_all, append_all-running, append_all-offset, append_all-header}
use sqlite_rs.Pager.Wal.Recovery.{log_of, log_parts, last_valid_frame_state-log_of}

==_self : (n : ℕ) → (n == n) ≡ true
==_self n = (==_iff n n).1 refl

same_header_self : (h : WalHeader) → same_header h h ≡ true
unfolding same_header
same_header_self h =
    rw
      (
        same_flag (h.native_checksum),
        ==_self (h.page_size),
        ==_self (h.salt1),
        ==_self (h.salt2),
        ==_self (h.format_version),
        ==_self (h.checkpoint_seq),
        same_checksum_self (h.header_checksum),
      )
      refl
  where
    same_flag : (b : Bool) → (if b then b else (if b then false else true)) ≡ true
    same_flag true = refl
    same_flag false = refl

module _ (from_ne : List ℕ → ℕ) {V S : Type 0} (write_at : S → List ℕ → ℕ → Result V S)
    (sync_file : S → Result V S) (size_of : S → Result V ℕ)
    (read_at : S → ℕ → ℕ → Result V (List ℕ)) (h : WalHeader) (s : IsSealed from_ne h)
    (fs : List Frame) (good : All (IsFrame h) fs) (small : length fs * (24 + h.page_size) < 2 ^ 59)
    (file : S) where
  -- The writer that created the log and appended the frames to it.
  abbrev pub writer : WalWriter S
  writer = append_all from_ne (writer_at file h wal_header_len (h.header_checksum)) fs

  -- Reopening a log without a hint gives a writer at the offset and with the checksum at which the one
  -- that wrote the log stopped, where fewer bytes of a torn frame follow than a frame has. The header is
  -- sealed, and the frames fit their pages and have fewer than 2^59 bytes in all.
  pub open_existing-log_of :
      (n : ℕ) (tail : List ℕ)
      → length tail < 24 + h.page_size
      → size_of file ≡ ok n
      → read_at file n 0 ≡ ok (log_of from_ne h fs ++ tail)
      → open_existing from_ne write_at sync_file size_of read_at file (h.page_size) none
        ≡ ok (writer_at file h (writer.offset) (writer.running))
  unfolding open_existing hint_holds resume rescan
  open_existing-log_of n tail short sized read =
      let start = writer_at file h wal_header_len (h.header_checksum) in
      let header : parse from_ne {V = V} (log_of from_ne h fs ++ tail) ≡ ok h =
        ap (λ t. parse from_ne t) (log_parts from_ne h s fs good small tail)
        ∙ parse-serialize {V = V} from_ne h (frames_bytes from_ne h fs (h.header_checksum) ++ tail)
            s in
      let found = last_valid_frame_state-log_of from_ne h s fs good small tail short in
      let bytes = length-frames_bytes from_ne h fs (h.header_checksum) good in
      let at = append_all-offset from_ne fs start (omega (arith, bytes, small)) in
      rw
        (sized, read, header, ==_self (h.page_size), found, at, append_all-running from_ne fs start)
        refl

  -- With the hint, the log's frames are not read.
  resumes :
      size_of file ≡ ok (writer.offset)
      → read_at file 32 0 ≡ ok (serialize h)
      → open_existing from_ne write_at sync_file size_of read_at file
          (h.page_size)
          (some (resume_hint writer))
        ≡ ok (writer_at file h (writer.offset) (writer.running))
  unfolding open_existing hint_holds resume resume_hint read_matches parsed_as
  resumes sized read_header =
      let start = writer_at file h wal_header_len (h.header_checksum) in
      let parsed : parse from_ne {V = V} (serialize h) ≡ ok h =
        ap (λ t. parse from_ne t) (sym (append-nil (serialize h)))
        ∙ parse-serialize {V = V} from_ne h [] s in
      rw
        (
          sized,
          append_all-header from_ne fs start,
          ==_self (writer.offset),
          read_header,
          length-serialize h,
          parsed,
          same_header_self h,
        )
        refl

  -- Where the file's size, header and content are as the writer left them, its resume hint makes no
  -- difference to reopening. The header and the frames are as above.
  pub open_existing-resume_hint :
      size_of file ≡ ok (writer.offset)
      → read_at file (writer.offset) 0 ≡ ok (log_of from_ne h fs)
      → read_at file 32 0 ≡ ok (serialize h)
      → open_existing from_ne write_at sync_file size_of read_at file
          (h.page_size)
          (some (resume_hint writer))
        ≡ open_existing from_ne write_at sync_file size_of read_at file (h.page_size) none
  open_existing-resume_hint sized read read_header =
      resumes sized read_header
      ∙ sym (
          open_existing-log_of (writer.offset) [] (omega arith) sized
            (read ∙ ap ok (sym (append-nil (log_of from_ne h fs)))))
