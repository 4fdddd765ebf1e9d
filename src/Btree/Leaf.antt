-- ===== src/Btree/Leaf.antt =====
-- src/btree.rs: the cells of a leaf page, collected, and the two scans that the inserts and deletes
-- make without copying a cell.
pub mod Scans
use sqlite_rs.Prelude.{
  ℕ, zero, suc, ◌+◌, ◌-◌, ◌==◌, ltb, leb, not, ◌&&◌, if◌then◌else◌, Bool, true, false, List, [],
  ◌∷◌, length, Option, none, some,
}
use sqlite_rs.Prelude.Bytes.{saturating_add, slice}
use sqlite_rs.Prelude.Outcome.{Result, ok, err, ok_or, guard, ◌>>=◌, ◌>>◌}
use sqlite_rs.Prelude.Int.{ℤ, pos_part, neg_part}
use sqlite_rs.Btree.Error.{BtreeError, payload_too_short, duplicate_rowid}
use sqlite_rs.Btree.Page.{
  cell_ptr_offset, read_num_cells, read_u32, read_cell_pointer, decode_cell_head,
}
use sqlite_rs.Btree.Payload.{local_payload_size}

-- `==` and `>` on i64.
abbrev pub eq_ℤ : ℤ → ℤ → Bool
eq_ℤ a b = pos_part a + neg_part b == pos_part b + neg_part a

abbrev pub gt_ℤ : ℤ → ℤ → Bool
gt_ℤ a b = ltb (pos_part b + neg_part a) (pos_part a + neg_part b)

-- The end of a cell: what it keeps of the payload, and the number of an overflow page.
unfoldable pub end_of_cell : ℕ → ℕ → ℕ → ℕ
end_of_cell usable_size payload_len tail_start =
    saturating_add (saturating_add tail_start (local_payload_size usable_size payload_len false))
      (if ltb (local_payload_size usable_size payload_len false) payload_len then 4 else 0)

module _ {V : Type 0} (buf : List ℕ) (page_num usable_size : ℕ) where
  -- The rowid of cell `i`, where the cell starts, and the length and the start of its payload.
  unfoldable pub cell_at : ℕ → ℕ → Result (BtreeError V) (ℤ × ℕ × ℕ × ℕ)
  cell_at ptr_base i = do
    cell_start ← read_cell_pointer buf (cell_ptr_offset ptr_base i) page_num i
    head ← decode_cell_head buf cell_start page_num
    ok (head.0, cell_start, head.1, head.2)

  -- `for i in 0..num_cells`, with the rounds left.
  unfoldable pub collect_from : ℕ → ℕ → ℕ → Result (BtreeError V) (List (ℤ × List ℕ))
  collect_from ptr_base i zero = ok []
  collect_from ptr_base i (suc left) = do
    cell ← cell_at ptr_base i
    cell_bytes ←
        ok_or (slice buf (cell.1) (end_of_cell usable_size (cell.2) (cell.3)))
          (payload_too_short page_num)
    rest ← collect_from ptr_base (i + 1) left
    ok ((cell.0, cell_bytes) ∷ rest)

  unfoldable pub collect_leaf_cells : ℕ → Result (BtreeError V) (List (ℤ × List ℕ))
  collect_leaf_cells header_start = do
    num_cells ← read_num_cells buf header_start page_num
    collect_from (saturating_add header_start 8) 0 num_cells

  -- The loop of `scan_leaf_cells` with the position and the bytes so far.
  unfoldable pub scan_from : ℕ → ℕ → ℤ → ℕ → ℕ → ℕ → ℕ → Result (BtreeError V) (ℕ × ℕ × ℕ)
  scan_from ptr_base num_cells rowid insert_pos total_bytes i zero =
      ok (insert_pos, num_cells, total_bytes)
  scan_from ptr_base num_cells rowid insert_pos total_bytes i (suc left) = do
    cell ← cell_at ptr_base i
    fresh ← guard (not (eq_ℤ (cell.0) rowid)) (duplicate_rowid rowid)
    inside ←
        guard (not (ltb (length buf) (end_of_cell usable_size (cell.2) (cell.3))))
          (payload_too_short page_num)
    scan_from ptr_base num_cells rowid
        (if gt_ℤ (cell.0) rowid && (insert_pos == num_cells) then i else insert_pos)
        (saturating_add total_bytes (end_of_cell usable_size (cell.2) (cell.3) - cell.1)) (i + 1)
        left

  unfoldable pub scan_leaf_cells : ℕ → ℤ → Result (BtreeError V) (ℕ × ℕ × ℕ)
  scan_leaf_cells header_start rowid = do
    num_cells ← read_num_cells buf header_start page_num
    scan_from (saturating_add header_start 8) num_cells rowid num_cells 0 0 num_cells

  -- The first overflow page of a cell that has been found, or 0.
  unfoldable pub overflow_of : ℕ → ℕ → Result (BtreeError V) ℕ
  overflow_of payload_len tail_start =
      let local_size = local_payload_size usable_size payload_len false in
      if ltb local_size payload_len
      then read_u32 buf (saturating_add tail_start local_size) page_num
      else ok 0

  unfoldable pub find_from : ℕ → ℕ → ℤ → ℕ → ℕ → Result (BtreeError V) (Option (ℕ × ℕ × ℕ))
  find_from ptr_base num_cells rowid i zero = ok none
  find_from ptr_base num_cells rowid i (suc left) =
      let rest = find_from ptr_base num_cells rowid (i + 1) left in
      cell_at ptr_base i >>= (λ cell.
        if not (eq_ℤ (cell.0) rowid)
        then rest
        else (overflow_of (cell.2) (cell.3)
            >>= (λ overflow_page. ok (some (i, num_cells, overflow_page)))))

  unfoldable pub find_leaf_cell : ℕ → ℤ → Result (BtreeError V) (Option (ℕ × ℕ × ℕ))
  find_leaf_cell header_start rowid = do
    num_cells ← read_num_cells buf header_start page_num
    find_from (saturating_add header_start 8) num_cells rowid 0 num_cells
