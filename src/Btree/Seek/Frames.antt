-- ===== src/Btree/Seek/Frames.antt =====
-- src/btree.rs: `seek` reads of a page what `push_page` puts into a frame.
use sqlite_rs.Prelude.{ℕ, ◌≡◌, refl, arith, ◌==◌, true, false, inl, inr, List}
use sqlite_rs.Prelude.Bytes.{saturating_add}
use sqlite_rs.Prelude.Outcome.{ok, ◌>>=◌, Result-cases}
use sqlite_rs.Prelude.Int.{ℤ}
use sqlite_rs.Btree.Page.{
  leaf_table, interior_table, page1_header_start, read_page_type, read_num_cells, read_u32,
  require_interior_header, read_cell_pointer, cell_ptr_offset,
}
use sqlite_rs.Btree.Cursor.{
  Frame, leaf_frame, interior_frame, frame_of, interior_test, leaf_cell, read_interior_child,
}
use sqlite_rs.Btree.Seek.{
  leaf_cell_at, interior_key_at, probe_leaf, probe_interior, probe_page, probe_of, search_leaf,
  search_child, below,
}

-- Where a frame's cells are read.
abbrev pub ReadsAt : Frame → ℕ → List ℕ → ℕ → Type 0
ReadsAt f p page base = (f.page ≡ page) × (f.page_num ≡ p) × (f.cell_ptr_base ≡ base)

module _ {V : Type 0} where
  pub frame_of-leaf :
      (p : ℕ) (page : List ℕ) (f : Frame)
      → frame_of {V = V} p false page ≡ ok f
      → f.is_interior ≡ false
      → leaf_frame {V = V} p false page ≡ ok f
  unfolding frame_of interior_frame leaf_frame interior_test
  frame_of-leaf p page f e kind = ground arith

  pub frame_of-interior :
      (p : ℕ) (page : List ℕ) (f : Frame)
      → frame_of {V = V} p false page ≡ ok f
      → f.is_interior ≡ true
      → interior_frame {V = V} p false page ≡ ok f
  unfolding frame_of interior_frame leaf_frame interior_test
  frame_of-interior p page f e kind = ground arith

  pub leaf_frame-fields :
      (p : ℕ) (page : List ℕ) (f : Frame)
      → leaf_frame {V = V} p false page ≡ ok f
      → (read_num_cells {V = V} page (page1_header_start p) p ≡ ok (f.num_cells))
        × ReadsAt f p page (saturating_add (page1_header_start p) 8)
  unfolding leaf_frame
  leaf_frame-fields p page f e = ground arith

  pub interior_frame-fields :
      (p : ℕ) (page : List ℕ) (f : Frame)
      → interior_frame {V = V} p false page ≡ ok f
      → (read_num_cells {V = V} page (page1_header_start p) p ≡ ok (f.num_cells))
        × (require_interior_header {V = V} page (page1_header_start p) p ≡ ok tt)
        × (read_u32 {V = V} page (saturating_add (page1_header_start p) 8) p ≡ ok (f.rightmost))
        × ReadsAt f p page (saturating_add (page1_header_start p) 12)
  unfolding interior_frame
  interior_frame-fields p page f e = ground arith

  -- The page type that a frame stands for.
  pub frame_of-page_type :
      (p : ℕ) (page : List ℕ) (f : Frame)
      → frame_of {V = V} p false page ≡ ok f
      → (kind : ℕ) × (read_page_type {V = V} page (page1_header_start p) p ≡ ok kind)
        × (interior_test {V = V} kind p ≡ ok (f.is_interior))
  unfolding frame_of interior_frame leaf_frame
  frame_of-page_type p page f e =
      elim (Result-cases (read_page_type {V = V} page (page1_header_start p) p)) [
        | inl (kind, got) ↦ (kind, got, ground (arith, got))
        | inr (x, got) ↦ absurd (ground (arith, got))
      ]

  -- What `seek` reads of a page with a leaf's frame.
  pub probe_page-leaf :
      (target : ℤ) (p : ℕ) (page : List ℕ) (f : Frame)
      → frame_of {V = V} p false page ≡ ok f
      → f.is_interior ≡ false
      → probe_page {V = V} target p page ≡ (
          search_leaf (leaf_cell f) target (f.num_cells) 0 (f.num_cells)
          >>= (λ hit. ok (probe_of hit)))
  unfolding probe_page interior_test probe_leaf leaf_cell_at leaf_cell
  probe_page-leaf target p page f e kind =
      let (counted, (same_page, same_num, same_base)) =
        leaf_frame-fields p page f (frame_of-leaf p page f e kind) in
      let (type, typed, tested) = frame_of-page_type p page f e in
      let is_leaf : (type == leaf_table) ≡ true = ground arith in
      rw (typed, counted, is_leaf, same_page, same_num, same_base) refl

  pub probe_page-interior :
      (target : ℤ) (p : ℕ) (page : List ℕ) (f : Frame)
      → frame_of {V = V} p false page ≡ ok f
      → f.is_interior ≡ true
      → probe_page {V = V} target p page ≡ (
          search_child
            (interior_key_at page p (f.cell_ptr_base))
            (λ cell_start. read_u32 page cell_start p)
            target
            (f.num_cells)
            0
            (f.num_cells)
            (f.rightmost)
          >>= (λ next_page. ok (below next_page)))
  unfolding probe_page interior_test probe_interior
  probe_page-interior target p page f e kind =
      let (counted, enough, last, (same_page, same_num, same_base)) =
        interior_frame-fields p page f (frame_of-interior p page f e kind) in
      let (type, typed, tested) = frame_of-page_type p page f e in
      let not_leaf : (type == leaf_table) ≡ false = ground arith in
      let is_interior : (type == interior_table) ≡ true = ground arith in
      rw (typed, counted, not_leaf, is_interior, enough, last, same_base) refl

  -- The child that a frame's cell points to, by the cell's start.
  pub read_interior_child-at :
      (p : ℕ) (page : List ℕ) (f : Frame) (i start child : ℕ) (key : ℤ)
      → frame_of {V = V} p false page ≡ ok f
      → f.is_interior ≡ true
      → interior_key_at {V = V} page p (f.cell_ptr_base) i ≡ ok (key, start)
      → read_u32 {V = V} page start p ≡ ok child
      → read_interior_child {V = V} f i ≡ ok child
  unfolding read_interior_child interior_key_at
  read_interior_child-at p page f i start child key e kind keyed there =
      let (counted, enough, last, (same_page, same_num, same_base)) =
        interior_frame-fields p page f (frame_of-interior p page f e kind) in
      elim (Result-cases
        (read_cell_pointer {V = V} page (cell_ptr_offset (f.cell_ptr_base) i) p i)) [
          | inl (at, got) ↦
              let same : at ≡ start = ground (arith, got) in
              rw (same_page, same_num, got, same, there) refl
          | inr (x, got) ↦ absurd (ground (arith, got))
        ]
