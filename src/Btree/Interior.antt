-- ===== src/Btree/Interior.antt =====
-- src/btree.rs: the entries of an interior page, and the two walks over interior pages that the write
-- path and `count` use.
pub mod Entries
pub mod Count
pub mod Descent
use Prim.Native.Nat.{compare, Ordering}
use sqlite_rs.Prelude.{
  ℕ, zero, suc, ◌+◌, ◌-◌, ◌^◌, ◌==◌, ltb, min, not, if◌then◌else◌, Bool, true, false, List, [], ◌∷◌,
  ◌++◌,
}
use sqlite_rs.Prelude.Bytes.{saturating_add, slice_from}
use sqlite_rs.Prelude.Outcome.{Result, ok, err, ok_or, guard, map_err, ◌>>=◌, ◌>>◌}
use sqlite_rs.Prelude.Int.{ℤ}
use sqlite_rs.Record.Value.{as_signed}
use sqlite_rs.Record.Varint.{decode_varint}
use sqlite_rs.Btree.Error.{BtreeError, payload_too_short, invalid_cell_varint, traversal_too_long}
use sqlite_rs.Btree.Page.{
  max_pages_visited, page1_header_start, cell_ptr_offset, read_page_type, read_num_cells, read_u32,
  read_cell_pointer, fetch,
}
use sqlite_rs.Btree.Cursor.{interior_test}
use sqlite_rs.Btree.Seek.{cmp}

-- The first child whose key is no less than the rowid.
unfoldable pub pick_child : List (ℕ × ℤ) → ℤ → ℕ → ℕ
pick_child [] rowid rightmost = rightmost
pick_child ((child, key) ∷ entries) rowid rightmost =
    let later = pick_child entries rowid rightmost in
    elim (cmp rowid key) [ Ordering.gt ↦ later | _ ↦ child ]

module _ {V : Type 0} where
  unfoldable pub interior_entry_at : List ℕ → ℕ → ℕ → ℕ → Result (BtreeError V) (ℕ × ℤ)
  interior_entry_at buf page_num ptr_base i = do
    cell_start ← read_cell_pointer buf (cell_ptr_offset ptr_base i) page_num i
    child ← read_u32 buf cell_start page_num
    rest ← ok_or (slice_from buf (saturating_add cell_start 4)) (payload_too_short page_num)
    key ← map_err (invalid_cell_varint page_num) (decode_varint rest)
    ok (child, as_signed 63 (key.0))

  -- `for i in 0..num_cells`, with the rounds left.
  unfoldable pub entries_from :
      (ℕ → Result (BtreeError V) (ℕ × ℤ)) → ℕ → ℕ → Result (BtreeError V) (List (ℕ × ℤ))
  entries_from entry i zero = ok []
  entries_from entry i (suc left) = do
    here ← entry i
    rest ← entries_from entry (i + 1) left
    ok (here ∷ rest)

  unfoldable pub collect_interior_entries :
      List ℕ → ℕ → ℕ → Result (BtreeError V) (List (ℕ × ℤ) × ℕ)
  collect_interior_entries buf header_start page_num = do
    num_cells ← read_num_cells buf header_start page_num
    out ← entries_from (interior_entry_at buf page_num (saturating_add header_start 12)) 0 num_cells
    rightmost ← read_u32 buf (saturating_add header_start 8) page_num
    ok (out, rightmost)

  -- `for (child, _) in &entries`; the state is the pages visited and the rows counted.
  unfoldable pub count_children :
      (ℕ → ℕ × ℕ → Result (BtreeError V) (ℕ × ℕ))
      → List (ℕ × ℤ)
      → ℕ × ℕ
      → Result (BtreeError V) (ℕ × ℕ)
  count_children count [] state = ok state
  count_children count (entry ∷ entries) state =
      count (entry.0) state >>= count_children count entries

module _ {V : Type 0} (source : ℕ → Result V (List ℕ)) where
  -- A page's type is tested before the walks match on it: whether the page is an interior one.
  unfoldable pub read_kind : ℕ → Result (BtreeError V) (Bool × List ℕ)
  read_kind page_num = do
    page ← fetch source page_num
    page_type ← read_page_type page (page1_header_start page_num) page_num
    is_interior ← interior_test page_type page_num
    ok (is_interior, page)

  -- Each call visits a page, so that the pages left to visit bound the depth.
  unfoldable pub count_table_rows_inner : ℕ → ℕ → ℕ × ℕ → Result (BtreeError V) (ℕ × ℕ)
  count_table_rows_inner zero page_num state = err (traversal_too_long max_pages_visited)
  count_table_rows_inner (suc depth) page_num (visited, total) =
      guard (not (ltb max_pages_visited (saturating_add visited 1)))
        (traversal_too_long max_pages_visited)
      >> (read_kind page_num >>= (λ read.
          if read.0
          then (collect_interior_entries (read.1) (page1_header_start page_num) page_num
              >>= (λ found.
                  count_children (count_table_rows_inner depth) (found.0)
                    (saturating_add visited 1, total)
                  >>= count_table_rows_inner depth (found.1)))
          else (read_num_cells (read.1) (page1_header_start page_num) page_num >>= (λ num_cells.
              ok (saturating_add visited 1, min (total + num_cells) (2 ^ 63 - 1))))))

  -- The total is an i64 that is never negative.
  unfoldable pub count_table_rows : ℕ → Result (BtreeError V) ℕ
  count_table_rows root_page =
      count_table_rows_inner (max_pages_visited + 1) root_page (0, 0) >>= (λ state. ok (state.1))

  -- `loop`, with the page visits that are left, and the ancestors found so far.
  unfoldable pub find_leaf_page : ℤ → ℕ → ℕ → List ℕ → Result (BtreeError V) (List ℕ × ℕ)
  find_leaf_page rowid zero page_num ancestors = err (traversal_too_long max_pages_visited)
  find_leaf_page rowid (suc visits) page_num ancestors = read_kind page_num >>= (λ read.
      if read.0
      then (collect_interior_entries (read.1) (page1_header_start page_num) page_num >>= (λ found.
          find_leaf_page rowid visits (pick_child (found.0) rowid (found.1))
            (ancestors ++ (page_num ∷ []))))
      else ok (ancestors, page_num))
