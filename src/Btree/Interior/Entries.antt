-- ===== src/Btree/Interior/Entries.antt =====
-- src/btree.rs: the entries of an interior page are the keys and the children that `seek` reads.
use sqlite_rs.Prelude.{
  ℕ, zero, suc, ◌+◌, ◌<◌, ◌≡◌, refl, ap, ◌∙◌, arith, true, false, inl, inr, Option-cases, List,
}
use sqlite_rs.Prelude.Bytes.{saturating_add, slice_from}
use sqlite_rs.Prelude.Outcome.{Result, ok, ok-injective, Result-cases}
use sqlite_rs.Prelude.Int.{ℤ}
use sqlite_rs.Record.Value.{as_signed}
use sqlite_rs.Record.Varint.{decode_varint}
use sqlite_rs.Btree.Error.{BtreeError}
use sqlite_rs.Btree.Page.{
  page1_header_start, cell_ptr_offset, read_num_cells, read_u32, read_cell_pointer, fetch,
}
use sqlite_rs.Btree.Cursor.{Frame, frame_of}
use sqlite_rs.Btree.Seek.{interior_key_at}
use sqlite_rs.Btree.Seek.Frames.{
  frame_of-leaf, frame_of-interior, leaf_frame-fields, interior_frame-fields, frame_of-page_type,
}
use sqlite_rs.Btree.Seek.Tree.{tabulate}
use sqlite_rs.Btree.Interior.{interior_entry_at, entries_from, collect_interior_entries, read_kind}

module _ {V : Type 0} where
  interior_entry_at-key :
      (page : List ℕ) (p base i child start : ℕ) (key : ℤ)
      → interior_key_at {V = V} page p base i ≡ ok (key, start)
      → read_u32 {V = V} page start p ≡ ok child
      → interior_entry_at {V = V} page p base i ≡ ok (child, key)
  unfolding interior_entry_at interior_key_at
  interior_entry_at-key page p base i child start key keyed there =
      elim (Result-cases (read_cell_pointer {V = V} page (cell_ptr_offset base i) p i)) [
        | inl (at, got) ↦ elim (Option-cases (slice_from page (saturating_add at 4))) [
          | inl missing ↦ absurd (ground (arith, got, missing))
          | inr (bytes, cut) ↦ elim (Result-cases (decode_varint bytes)) [
            | inl (read, decoded) ↦
                let same : (as_signed 63 (read.0), at) ≡ (key, start) =
                  ok-injective _ _ (interior_key_at {V = V} page p base i)
                    (rw (interior_key_at, got, cut, decoded) refl) keyed in
                let there' : read_u32 {V = V} page at p ≡ ok child =
                  ap (λ t. read_u32 {V = V} page (t.1) p) same ∙ there in
                rw (got, there', cut, decoded) (ap (λ (t : ℤ × ℕ). ok (child, t.0)) same)
            | inr (x, failed) ↦ absurd (ground (arith, got, cut, failed))
          ]
        ]
        | inr (x, got) ↦ absurd (ground (arith, got))
      ]

  entries_from-tabulate :
      (entry : ℕ → Result (BtreeError V) (ℕ × ℤ)) (g : ℕ → ℕ × ℤ) (n left i : ℕ)
      → ((j : ℕ) → j < n → entry j ≡ ok (g j))
      → i + left ≡ n
      → entries_from entry i left ≡ ok (tabulate g i left)
  unfolding entries_from tabulate
  entries_from-tabulate entry g n zero i reads ends = refl
  entries_from-tabulate entry g n (suc left) i reads ends =
      rw (reads i (omega arith), entries_from-tabulate entry g n left (i + 1) reads (omega arith))
        refl

  pub collect_interior_entries_lem :
      (p : ℕ) (page : List ℕ) (f : Frame) (key : ℕ → ℤ) (start page_at : ℕ → ℕ)
      → frame_of {V = V} p false page ≡ ok f
      → f.is_interior ≡ true
      → ((i : ℕ)
          → i < f.num_cells
          → interior_key_at {V = V} page p (f.cell_ptr_base) i ≡ ok (key i, start i))
      → ((i : ℕ) → i < f.num_cells → read_u32 {V = V} page (start i) p ≡ ok (page_at i))
      → collect_interior_entries {V = V} page (page1_header_start p) p
        ≡ ok (tabulate (λ i. (page_at i, key i)) 0 (f.num_cells), f.rightmost)
  unfolding collect_interior_entries
  collect_interior_entries_lem p page f key start page_at framed kind keys children =
      let (counted, enough, last, (same_page, same_num, same_base)) =
        interior_frame-fields p page f (frame_of-interior p page f framed kind) in
      let entry = λ (i : ℕ) (h : i < f.num_cells).
        interior_entry_at-key page p (f.cell_ptr_base) i (page_at i) (start i) (key i) (keys i h)
          (children i h) in
      let all =
        entries_from-tabulate (interior_entry_at {V = V} page p (f.cell_ptr_base))
          (λ i. (page_at i, key i)) (f.num_cells) (f.num_cells) 0 entry (omega arith) in
      rw (counted, ← same_base, all, last) refl

module _ {V : Type 0} (source : ℕ → Result V (List ℕ)) where
  pub read_kind_lem :
      (p : ℕ) (page : List ℕ) (f : Frame)
      → fetch source p ≡ ok page
      → frame_of {V = V} p false page ≡ ok f
      → read_kind source p ≡ ok (f.is_interior, page)
  unfolding read_kind
  read_kind_lem p page f was_read framed =
      let (type, typed, tested) = frame_of-page_type p page f framed in
      rw (was_read, typed, tested) refl

  pub leaf_count :
      (p : ℕ) (page : List ℕ) (f : Frame)
      → frame_of {V = V} p false page ≡ ok f
      → f.is_interior ≡ false
      → read_num_cells {V = V} page (page1_header_start p) p ≡ ok (f.num_cells)
  leaf_count p page f framed kind =
      (leaf_frame-fields p page f (frame_of-leaf p page f framed kind)).0
