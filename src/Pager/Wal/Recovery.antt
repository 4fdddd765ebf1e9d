-- ===== src/Pager/Wal/Recovery.antt =====
-- A crash while the log is written: what the reader recovers.
use mathlib.Core.List.{append_assoc, append-nil}
use sqlite_rs.Prelude.{
  ℕ, ◌+◌, ◌*◌, ◌^◌, ◌==◌, ==_iff, ◌≤◌, ◌<◌, ◌≡◌, refl, sym, ap, ◌∙◌, arith, Bool-cases, inl, inr,
  List, [], ◌∷◌, ◌++◌, length, length-append,
}
use sqlite_rs.Prelude.Bytes.{All, All-append}
use sqlite_rs.Pager.Wal.Header.{WalHeader, wal_header_len, serialize}
use sqlite_rs.Pager.Wal.Frames.{
  PageMap, no_pages, Frame, committed_pages, valid_loop, last_valid_frame_state,
}
use sqlite_rs.Pager.Wal.Writer.{writer_at}
use sqlite_rs.Pager.Wal.Commits.{publish, valid_frames, frames_of, committed_pages-publish}
use sqlite_rs.Pager.Wal.Sealed.{IsSealed, sum-BothU32, length-serialize}
use sqlite_rs.Pager.Wal.RoundTrip.{
  IsFrame, frames_bytes, frames_sum, length-frames_bytes, valid_frames-frames_bytes,
  valid_loop-frames_bytes,
}
use sqlite_rs.Pager.Wal.Log.{append_all, append_all-pending}

-- The bytes of a log: what `create` writes, and what `sync` writes after the frames are appended.
unfoldable pub log_of : (List ℕ → ℕ) → WalHeader → List Frame → List ℕ
log_of from_ne h fs =
    serialize h
    ++ (append_all from_ne (writer_at (tt {0}) h wal_header_len (h.header_checksum)) fs).pending

pub log_of-frames_bytes :
    (from_ne : List ℕ → ℕ) (h : WalHeader) (fs : List Frame)
    → log_of from_ne h fs ≡ serialize h ++ frames_bytes from_ne h fs (h.header_checksum)
unfolding log_of
log_of-frames_bytes from_ne h fs =
    ap (λ t. serialize h ++ t)
      (append_all-pending from_ne fs (writer_at (tt {0}) h wal_header_len (h.header_checksum)))

publish-append :
    (us fs : List Frame) (live done : PageMap) (size : ℕ)
    → All (λ f. f.db_size ≡ 0) us
    → publish live done size (fs ++ us) ≡ publish live done size fs
unfolding publish
publish-append [] [] live done size none_commits = refl
publish-append (u ∷ us) [] live done size none_commits =
    rw ((==_iff (u.db_size) 0).1 (none_commits.0))
      (publish-append us [] _ done size (none_commits.1))
publish-append us (f ∷ fs) live done size none_commits = elim (Bool-cases (f.db_size == 0)) [
  | inl e ↦ rw e (publish-append us fs _ done size none_commits)
  | inr e ↦ rw e (publish-append us fs _ _ (f.db_size) none_commits)
]

module _ (from_ne : List ℕ → ℕ) (h : WalHeader) (s : IsSealed from_ne h) (fs : List Frame)
    (good : All (IsFrame h) fs) (small : length fs * (24 + h.page_size) < 2 ^ 59) where
  pub log_parts :
      (tail : List ℕ)
      → log_of from_ne h fs ++ tail
        ≡ serialize h ++ (frames_bytes from_ne h fs (h.header_checksum) ++ tail)
  log_parts tail =
      ap (λ t. t ++ tail) (log_of-frames_bytes from_ne h fs)
      ∙ append_assoc (serialize h) (frames_bytes from_ne h fs (h.header_checksum)) tail

  bytes_small : 32 + length (frames_bytes from_ne h fs (h.header_checksum)) + h.page_size < 2 ^ 60
  bytes_small =
      omega (arith, length-frames_bytes from_ne h fs (h.header_checksum) good, small, s.size_small)

  frames_fit : (n p : ℕ) → n ≤ n * (24 + p)
  frames_fit n p = grind arith

  log_longer : (tail : List ℕ) → length fs ≤ length (log_of from_ne h fs ++ tail)
  log_longer tail = omega (
    arith,
    ap length (log_parts tail),
    length-append (serialize h) (frames_bytes from_ne h fs (h.header_checksum) ++ tail),
    length-append (frames_bytes from_ne h fs (h.header_checksum)) tail,
    length-frames_bytes from_ne h fs (h.header_checksum) good,
    frames_fit (length fs) (h.page_size),
  )

  pub frames_of-log_of :
      (tail : List ℕ)
      → length tail < 24 + h.page_size
      → frames_of from_ne h (log_of from_ne h fs ++ tail) ≡ fs
  frames_of-log_of tail short =
      let fuel = length (log_of from_ne h fs ++ tail) in
      ap (λ t. valid_frames from_ne fuel h t 32 (h.header_checksum)) (log_parts tail)
      ∙ valid_frames-frames_bytes from_ne h (s.salt1_small) (s.salt2_small) fs fuel (serialize h)
          tail 32 (h.header_checksum) good (sum-BothU32 from_ne h s) (log_longer tail)
          (sym (length-serialize h)) bytes_small short

  pub last_valid_frame_state-log_of :
      (tail : List ℕ)
      → length tail < 24 + h.page_size
      → last_valid_frame_state from_ne h (log_of from_ne h fs ++ tail) ≡ (
        32 + length (frames_bytes from_ne h fs (h.header_checksum)),
        frames_sum from_ne h fs (h.header_checksum),
      )
  unfolding last_valid_frame_state
  last_valid_frame_state-log_of tail short =
      let fuel = length (log_of from_ne h fs ++ tail) in
      ap (λ t. valid_loop from_ne fuel h t 32 (h.header_checksum)) (log_parts tail)
      ∙ valid_loop-frames_bytes from_ne h (s.salt1_small) (s.salt2_small) fs fuel (serialize h) tail
          32 (h.header_checksum) good (sum-BothU32 from_ne h s) (log_longer tail)
          (sym (length-serialize h)) bytes_small short

  -- A log with a sealed header, whole frames of fewer than 2^59 bytes in all, and fewer bytes of a torn
  -- frame behind them: the reader has the pages and the size of the last commit among the whole frames.
  pub committed_pages-log_of :
      (tail : List ℕ)
      → length tail < 24 + h.page_size
      → committed_pages from_ne h (log_of from_ne h fs ++ tail) ≡ publish no_pages no_pages 0 fs
  committed_pages-log_of tail short =
      committed_pages-publish from_ne h (log_of from_ne h fs ++ tail)
      ∙ ap (publish no_pages no_pages 0) (frames_of-log_of tail short)

-- A transaction whose commit frame was not written leaves no trace: the log with its frames, the last
-- of them torn or not, gives what the log without them gives. The header is sealed, the frames fit
-- their pages and have fewer than 2^59 bytes in all.
pub uncommitted_dropped :
    (from_ne : List ℕ → ℕ) (h : WalHeader) (s : IsSealed from_ne h) (fs us : List Frame)
    (tail : List ℕ)
    → All (IsFrame h) fs
    → All (IsFrame h) us
    → All (λ f. f.db_size ≡ 0) us
    → length (fs ++ us) * (24 + h.page_size) < 2 ^ 59
    → length tail < 24 + h.page_size
    → committed_pages from_ne h (log_of from_ne h (fs ++ us) ++ tail)
      ≡ committed_pages from_ne h (log_of from_ne h fs)
uncommitted_dropped from_ne h s fs us tail p q none_commits small short =
    let fewer : length fs * (24 + h.page_size) < 2 ^ 59 = grind (arith, length-append fs us) in
    committed_pages-log_of from_ne h s (fs ++ us) (All-append (IsFrame h) fs us p q) small tail
      short
    ∙ publish-append us fs no_pages no_pages 0 none_commits
    ∙ sym (committed_pages-log_of from_ne h s fs p fewer [] (omega arith))
    ∙ ap (committed_pages from_ne h) (append-nil (log_of from_ne h fs))
