-- ===== src/Pager/Wal/Frames.antt =====
-- The second part of pager/wal.rs: the committed pages of a log, and where its valid frames end.
use sqlite_rs.Prelude.{
  ℕ, zero, suc, ◌==◌, leb, ◌&&◌, if◌then◌else◌, List, [], ◌∷◌, length, Option, none, some,
}
use sqlite_rs.Prelude.Outcome.{or_break}
use sqlite_rs.Prelude.Bytes.{saturating_add, slice}
use sqlite_rs.Pager.Wal.Header.{
  WalHeader, wal_header_len, frame_header_len, read_u32_opt, same_checksum, checksum,
}

-- `HashMap<u32, Vec<u8>>`
abbrev pub PageMap : Type 0
PageMap = ℕ → Option (List ℕ)

-- `insert` with `some`, `remove` with `none`.
abbrev pub set_page : PageMap → ℕ → Option (List ℕ) → PageMap
set_page pages number content n = if n == number then content else pages n

abbrev pub no_pages : PageMap
no_pages n = none

pub record Frame : Type 0 where
  pub page_number : ℕ
  pub content : List ℕ
  -- 0 where the frame does not commit
  pub db_size : ℕ

-- The locals of the loop of `committed_pages`; the newest entry of the undo log comes first.
pub record Scan : Type 0 where
  pub pages : PageMap
  pub undo : List (ℕ × Option (List ℕ))
  pub committed_db_size : ℕ

unfoldable pub frame_size : WalHeader → ℕ
frame_size h = saturating_add frame_header_len (h.page_size)

-- `pages.insert`, `undo.push`, and the test of the commit.
unfoldable pub apply_frame : Frame → Scan → Scan
apply_frame f s =
    let pages = set_page (s.pages) (f.page_number) (some (f.content)) in
    if f.db_size == 0
    then record {
      pages = pages;
      undo = (f.page_number, s.pages (f.page_number)) ∷ s.undo;
      committed_db_size = s.committed_db_size;
    }
    else record { pages = pages; undo = []; committed_db_size = f.db_size }

-- The loop over `undo.into_iter().rev()`.
unfoldable pub unwind : PageMap → List (ℕ × Option (List ℕ)) → PageMap
unwind pages [] = pages
unwind pages ((number, pre_image) ∷ undo) = unwind (set_page pages number pre_image) undo

abbrev pub start : Scan
start = record { pages = no_pages; undo = []; committed_db_size = 0 }

module _ (from_ne : List ℕ → ℕ) where
  unfoldable pub after_frame : WalHeader → List ℕ → List ℕ → ℕ × ℕ → ℕ × ℕ
  after_frame h fh_bytes content running =
      checksum from_ne (h.native_checksum) content
        (checksum from_ne (h.native_checksum) fh_bytes running)

  -- The checks that the two loops make of the frame at an offset: `none` for each of their breaks, or
  -- the frame's header, its page, and the running checksum after it.
  unfoldable pub check_frame : WalHeader → List ℕ → ℕ → ℕ × ℕ → Option (List ℕ × (List ℕ × (ℕ × ℕ)))
  check_frame h bytes offset running =
      or_break (slice bytes offset (saturating_add offset frame_header_len)) (λ fh.
        or_break (read_u32_opt fh 8) (λ s1. or_break (read_u32_opt fh 12) (λ s2.
          or_break (read_u32_opt fh 16) (λ c1. or_break (read_u32_opt fh 20) (λ c2.
            if (s1 == h.salt1) && (s2 == h.salt2)
            then or_break
                (slice bytes (saturating_add offset frame_header_len)
                  (saturating_add offset (frame_size h)))
                (λ content. or_break (slice fh 0 8) (λ fh_bytes.
                  if same_checksum (after_frame h fh_bytes content running) (c1, c2)
                  then some (fh, (content, after_frame h fh_bytes content running))
                  else none))
            else none)))))

  -- The frame at an offset, for `committed_pages`.
  unfoldable pub read_frame : WalHeader → List ℕ → ℕ → ℕ × ℕ → Option (Frame × (ℕ × ℕ))
  read_frame h bytes offset running =
      or_break (check_frame h bytes offset running) (λ (fh, (content, after)).
        or_break (read_u32_opt fh 0) (λ number. or_break (read_u32_opt fh 4) (λ db_size.
          some (record { page_number = number; content = content; db_size = db_size }, after))))

  -- The loop of `committed_pages`, on fuel: a round moves the offset on by a frame or ends.
  unfoldable pub scan_loop : ℕ → WalHeader → List ℕ → ℕ → ℕ × ℕ → Scan → Scan
  scan_loop zero h bytes offset running s = s
  scan_loop (suc fuel) h bytes offset running s =
      if leb (saturating_add offset (frame_size h)) (length bytes)
      then elim (read_frame h bytes offset running) [
        | none ↦ s
        | some (f, after) ↦
            scan_loop fuel h bytes (saturating_add offset (frame_size h)) after (apply_frame f s)
      ]
      else s

  -- Every round takes a frame's bytes, so the length of the log is fuel enough.
  unfoldable pub committed_pages : WalHeader → List ℕ → PageMap × ℕ
  committed_pages h bytes =
      let s = scan_loop (length bytes) h bytes wal_header_len (h.header_checksum) start in
      (unwind (s.pages) (s.undo), s.committed_db_size)

  -- The loop of `last_valid_frame_state`, on the same fuel.
  unfoldable pub valid_loop : ℕ → WalHeader → List ℕ → ℕ → ℕ × ℕ → ℕ × (ℕ × ℕ)
  valid_loop zero h bytes offset running = (offset, running)
  valid_loop (suc fuel) h bytes offset running =
      if leb (saturating_add offset (frame_size h)) (length bytes)
      then elim (check_frame h bytes offset running) [
        | none ↦ (offset, running)
        | some (fh, (content, after)) ↦
            valid_loop fuel h bytes (saturating_add offset (frame_size h)) after
      ]
      else (offset, running)

  unfoldable pub last_valid_frame_state : WalHeader → List ℕ → ℕ × (ℕ × ℕ)
  last_valid_frame_state h bytes =
      valid_loop (length bytes) h bytes wal_header_len (h.header_checksum)
