-- ===== src/Pager/Wal/Commits.antt =====
-- The undo log of committed_pages gives the pages of the last commit: it refines the scan that keeps
-- a copy of the whole page map at each commit.
use mathlib.Core.Path.{fun_ext}
use sqlite_rs.Prelude.{
  ℕ, zero, suc, ◌==◌, ==_iff, leb, ◌≡◌, refl, sym, ap, ◌∙◌, Bool-cases, inl, inr, if◌then◌else◌,
  List, [], ◌∷◌, length, Option, none, some, Option-cases,
}
use sqlite_rs.Prelude.Bytes.{saturating_add}
use sqlite_rs.Pager.Wal.Header.{WalHeader, wal_header_len}
use sqlite_rs.Pager.Wal.Frames.{
  PageMap, set_page, no_pages, Frame, Scan, start, frame_size, apply_frame, unwind, read_frame,
  scan_loop, committed_pages,
}

-- The live pages, and the pages and the size that the last commit published.
unfoldable pub publish : PageMap → PageMap → ℕ → List Frame → PageMap × ℕ
publish live published size [] = (published, size)
publish live published size (f ∷ fs) =
    let live' = set_page live (f.page_number) (some (f.content)) in
    if f.db_size == 0 then publish live' published size fs else publish live' live' (f.db_size) fs

-- The frames from an offset on, up to the first that is torn, foreign or corrupt.
unfoldable pub valid_frames : (List ℕ → ℕ) → ℕ → WalHeader → List ℕ → ℕ → ℕ × ℕ → List Frame
valid_frames from_ne zero h bytes offset running = []
valid_frames from_ne (suc fuel) h bytes offset running =
    if leb (saturating_add offset (frame_size h)) (length bytes)
    then elim (read_frame from_ne h bytes offset running) [
      | none ↦ []
      | some (f, after) ↦
          f ∷ valid_frames from_ne fuel h bytes (saturating_add offset (frame_size h)) after
    ]
    else []

abbrev pub frames_of : (List ℕ → ℕ) → WalHeader → List ℕ → List Frame
frames_of from_ne h bytes =
    valid_frames from_ne (length bytes) h bytes wal_header_len (h.header_checksum)

-- Setting a page and setting its old content again changes nothing.
set_page-set_page :
    (m : PageMap) (n : ℕ) (v : Option (List ℕ)) → set_page (set_page m n v) n (m n) ≡ m
set_page-set_page m n v = fun_ext (λ k. elim (Bool-cases (k == n)) [
  | inl e ↦ rw e (ap m (sym ((==_iff k n).0 e)))
  | inr e ↦ rw e refl
])

abbrev Committed : Scan → PageMap × ℕ
Committed s = (unwind (s.pages) (s.undo), s.committed_db_size)

-- One frame, on both sides.
apply_frame-publish :
    (f : Frame) (s : Scan) (rest : List Frame)
    → publish
        ((apply_frame f s).pages)
        (unwind ((apply_frame f s).pages) ((apply_frame f s).undo))
        ((apply_frame f s).committed_db_size)
        rest
      ≡ publish (s.pages) (unwind (s.pages) (s.undo)) (s.committed_db_size) (f ∷ rest)
unfolding unwind apply_frame publish
apply_frame-publish f s rest = elim (Bool-cases (f.db_size == 0)) [
  | inl e ↦ rw e (
      ap
        (λ m.
          publish (set_page (s.pages) (f.page_number) (some (f.content))) (unwind m (s.undo))
            (s.committed_db_size) rest)
        (set_page-set_page (s.pages) (f.page_number) (some (f.content))))
  | inr e ↦ rw e refl
]

scan_loop-publish :
    (from_ne : List ℕ → ℕ) (fuel : ℕ) (h : WalHeader) (bytes : List ℕ) (offset : ℕ)
    (running : ℕ × ℕ) (s : Scan)
    → Committed (scan_loop from_ne fuel h bytes offset running s)
      ≡ publish
          (s.pages)
          (unwind (s.pages) (s.undo))
          (s.committed_db_size)
          (valid_frames from_ne fuel h bytes offset running)
unfolding scan_loop valid_frames publish
scan_loop-publish from_ne zero h bytes offset running s = refl
scan_loop-publish from_ne (suc fuel) h bytes offset running s =
    elim (Bool-cases (leb (saturating_add offset (frame_size h)) (length bytes))) [
      | inr e ↦ rw e refl
      | inl e ↦ elim (Option-cases (read_frame from_ne h bytes offset running)) [
        | inl g ↦ rw (e, g) refl
        | inr ((f, after), g) ↦
            let next = saturating_add offset (frame_size h) in
            rw (e, g)
              (scan_loop-publish from_ne fuel h bytes next after (apply_frame f s)
                ∙ apply_frame-publish f s (valid_frames from_ne fuel h bytes next after))
      ]
    ]

-- The pages and the size that committed_pages gives are those that the last commit published, as the
-- scan has them that copies its page map at each commit.
pub committed_pages-publish :
    (from_ne : List ℕ → ℕ) (h : WalHeader) (bytes : List ℕ)
    → committed_pages from_ne h bytes ≡ publish no_pages no_pages 0 (frames_of from_ne h bytes)
unfolding committed_pages unwind
committed_pages-publish from_ne h bytes =
    scan_loop-publish from_ne (length bytes) h bytes wal_header_len (h.header_checksum) start
