-- ===== src/Pager/Wal/Writer.antt =====
-- The last part of pager/wal.rs: WalWriter, which appends frames.
use sqlite_rs.Prelude.{
  ℕ, ◌-◌, ◌/◌, ◌%◌, ◌^◌, ◌==◌, max, Bool, true, false, ◌&&◌, if◌then◌else◌, List, [], ◌∷◌, ◌++◌,
  length, Option, none, some,
}
use sqlite_rs.Prelude.Outcome.{Result, ok, err, guard, map_err, ◌>>=◌, ◌>>◌}
use sqlite_rs.Prelude.Bytes.{saturating_add}
use sqlite_rs.Prelude.Words.{words}
use sqlite_rs.Pager.Wal.Header.{
  WalError, invalid_page_size, vfs, WalHeader, wal_header_len, checksum, serialize, parse,
  same_checksum,
}
use sqlite_rs.Pager.Wal.Frames.{frame_size, last_valid_frame_state}

pub record WalWriter (S : Type 0) : Type 0 where
  pub file : S
  pub header : WalHeader
  pub running : ℕ × ℕ
  pub offset : ℕ
  pub pending_offset : Option ℕ
  pub pending : List ℕ
  pub scratch : List ℕ

pub record WalResumeHint : Type 0 where
  pub hint_header : WalHeader
  pub hint_offset : ℕ
  pub hint_running : ℕ × ℕ
  pub expected_size : ℕ

-- `if self.pending_offset.is_none() { .. = Some(self.offset) }`
unfoldable pub first_offset : Option ℕ → ℕ → Option ℕ
first_offset none offset = some offset
first_offset (some at) offset = some at

-- The first eight bytes of a frame's header.
unfoldable pub frame_prefix : ℕ → ℕ → List ℕ
frame_prefix page_num commit_db_size = words (page_num ∷ commit_db_size ∷ [])

-- The frame's header: the array of 24 bytes that the source fills word by word.
unfoldable pub frame_header : WalHeader → ℕ → ℕ → ℕ × ℕ → List ℕ
frame_header h page_num commit_db_size (c1, c2) =
    words (page_num ∷ commit_db_size ∷ h.salt1 ∷ h.salt2 ∷ c1 ∷ c2 ∷ [])

-- The `derive(PartialEq)` of a header, on its fields.
unfoldable pub same_header : WalHeader → WalHeader → Bool
same_header a b =
    (if a.native_checksum then b.native_checksum else (if b.native_checksum then false else true))
    && (a.page_size == b.page_size)
    && (a.salt1 == b.salt1)
    && (a.salt2 == b.salt2)
    && (a.format_version == b.format_version)
    && (a.checkpoint_seq == b.checkpoint_seq)
    && same_checksum (a.header_checksum) (b.header_checksum)

unfoldable pub resume_hint : {S : Type 0} → WalWriter S → WalResumeHint
resume_hint w = record {
  hint_header = w.header;
  hint_offset = w.offset;
  hint_running = w.running;
  expected_size = w.offset;
}

unfoldable pub frame_count : {S : Type 0} → WalWriter S → ℕ
frame_count w = (w.offset - wal_header_len) / max (frame_size (w.header)) 1 % 2 ^ 32

abbrev pub writer_at : {S : Type 0} → S → WalHeader → ℕ → ℕ × ℕ → WalWriter S
writer_at f h at sum = record {
  file = f;
  header = h;
  running = sum;
  offset = at;
  pending_offset = none;
  pending = [];
  scratch = [];
}

module _ (from_ne : List ℕ → ℕ) where
  unfoldable pub after_append : WalHeader → ℕ → List ℕ → ℕ → ℕ × ℕ → ℕ × ℕ
  after_append h page_num page_data commit_db_size running =
      checksum from_ne (h.native_checksum) page_data
        (checksum from_ne (h.native_checksum) (frame_prefix page_num commit_db_size) running)

  -- The scratch buffer: the frame's header, then the page.
  unfoldable pub frame_bytes : WalHeader → ℕ → List ℕ → ℕ → ℕ × ℕ → List ℕ
  frame_bytes h page_num page_data commit_db_size running =
      frame_header h page_num commit_db_size
        (after_append h page_num page_data commit_db_size running)
      ++ page_data

  unfoldable pub append_frame : {S : Type 0} → WalWriter S → ℕ → List ℕ → ℕ → WalWriter S
  append_frame w page_num page_data commit_db_size =
      let bytes = frame_bytes (w.header) page_num page_data commit_db_size (w.running) in
      record w {
        scratch = bytes;
        pending_offset = first_offset (w.pending_offset) (w.offset);
        pending = w.pending ++ bytes;
        running = after_append (w.header) page_num page_data commit_db_size (w.running);
        offset = saturating_add (w.offset) (length bytes);
      }

  -- The files of the operating-system layer: their state `S`, errors `V`, and operations. `read_at`
  -- gives the bytes read.
  module _ {V S : Type 0} (write_at : S → List ℕ → ℕ → Result V S) (sync_file : S → Result V S)
      (size_of : S → Result V ℕ) (read_at : S → ℕ → ℕ → Result V (List ℕ)) where
    -- `create` on the opened file.
    unfoldable pub create : S → WalHeader → Result (WalError V) (WalWriter S)
    create file h = do
      file' ← map_err vfs (write_at file (serialize h) 0)
      ok (writer_at file' h wal_header_len (h.header_checksum))

    -- `if let Some(pending_offset) = self.pending_offset.take()`
    unfoldable pub write_pending : WalWriter S → Option ℕ → Result (WalError V) (WalWriter S)
    write_pending w none = ok w
    write_pending w (some at) = do
      file' ← map_err vfs (write_at (w.file) (w.pending) at)
      ok (record w { file = file'; pending = []; pending_offset = none })

    unfoldable pub sync : WalWriter S → Result (WalError V) (WalWriter S)
    sync w = do
      w' ← write_pending w (w.pending_offset)
      file' ← map_err vfs (sync_file (w'.file))
      ok (record w' { file = file' })

    -- `Ok(header)` where `read_at` gave 32 bytes that parse; a failed read counts as none.
    unfoldable pub parsed_as : WalHeader → Result (WalError V) WalHeader → Bool
    parsed_as expected (ok h) = same_header h expected
    parsed_as expected (err e) = false

    unfoldable pub read_matches : WalHeader → Result V (List ℕ) → Bool
    read_matches expected (ok bytes) =
        (length bytes == wal_header_len) && parsed_as expected (parse from_ne bytes)
    read_matches expected (err e) = false

    unfoldable pub hint_holds : Option WalResumeHint → S → ℕ → Option WalResumeHint
    hint_holds none file size = none
    hint_holds (some hint) file size =
        if (hint.expected_size == size)
          && read_matches (hint.hint_header) (read_at file wal_header_len 0)
        then some hint
        else none

    -- The full read and scan.
    unfoldable pub rescan : S → ℕ → ℕ → Result (WalError V) (WalWriter S)
    rescan file size page_size = do
      bytes ← map_err vfs (read_at file size 0)
      h ← parse from_ne bytes
      guard (h.page_size == page_size) (invalid_page_size (h.page_size))
      let found = last_valid_frame_state from_ne h bytes
      ok (writer_at file h (found.0) (found.1))

    unfoldable pub resume : S → ℕ → ℕ → Option WalResumeHint → Result (WalError V) (WalWriter S)
    resume file size page_size none = rescan file size page_size
    resume file size page_size (some hint) =
        ok (writer_at file (hint.hint_header) (hint.hint_offset) (hint.hint_running))

    -- `open_existing` on the opened file.
    unfoldable pub open_existing : S → ℕ → Option WalResumeHint → Result (WalError V) (WalWriter S)
    open_existing file page_size resume_hint = do
      size ← map_err vfs (size_of file)
      resume file size page_size (hint_holds resume_hint file size)
