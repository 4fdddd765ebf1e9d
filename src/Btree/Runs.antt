-- ===== src/Btree/Runs.antt =====
-- src/btree.rs: runs on a tree of three pages, an interior root over two leaves.
use sqlite_rs.Prelude.{
  ℕ, zero, suc, ◌+◌, ◌<◌, ◌≤◌, ◌≡◌, refl, ap, arith, ◌==◌, if◌then◌else◌, true, false, inl, inr,
  ◌⊎◌, ◌||◌, List, [], ◌∷◌, ◌++◌, length, Option, none, some,
}
use sqlite_rs.Prelude.Bytes.{slice, slice_from, from_be, from_be_loop}
use sqlite_rs.Prelude.Outcome.{Result, ok, err}
use sqlite_rs.Prelude.Int.{ℤ, pos, pos_part, neg_part, ◌≤ℤ◌}
use sqlite_rs.Record.Varint.{decode_varint, decode_loop}
use sqlite_rs.Btree.Error.{BtreeError}
use sqlite_rs.Btree.Page.{
  page1_header_start, cell_ptr_offset, read_page_type, read_num_cells, require_interior_header,
  read_u32, read_cell_pointer, decode_cell_head, fetch,
}
use sqlite_rs.Btree.Cursor.{
  Frame, new, first, next, last, prev, leaf_frame, interior_frame, frame_of, interior_test,
  read_interior_child, leaf_cell,
}
use sqlite_rs.Btree.Cursor.Walk.{
  in_order, rows_below, interior_rows, leaf_rows, subtrees, rows_from,
}
use sqlite_rs.Btree.Cursor.Scan.{calls_after, answers, scan-returns, scan-in_order}
use sqlite_rs.Btree.Cursor.Back.{rev}
use sqlite_rs.Btree.Cursor.BackScan.{scan_back-in_order}
use sqlite_rs.Btree.Seek.{seek, seek_loop, interior_key_at}
use sqlite_rs.Btree.Seek.Search.{◌<ℤ◌}
use sqlite_rs.Btree.Seek.Tree.{SearchTree, leaf, node, IsRow, tabulate, concat_from, sum_from}
use sqlite_rs.Btree.Seek.Found.{seek_lem}
use sqlite_rs.Btree.Interior.{count_table_rows, find_leaf_page}
use sqlite_rs.Btree.Interior.Count.{count_table_rows_lem}
use sqlite_rs.Btree.Interior.Descent.{WayDown, find_leaf_page-seek_loop}
use sqlite_rs.Btree.Payload.{
  max_local, min_local, local_payload_size, owned, may_read, read_overflow, overflow_loop,
  follow_chain, reassemble_rest, reassemble_payload, bytes_of,
}
use sqlite_rs.Btree.Leaf.{cell_at, collect_from, collect_leaf_cells, end_of_cell, scan_leaf_cells}
use sqlite_rs.Btree.Leaf.Scans.{scan_answer, before, bytes_in, scan_leaf_cells_lem}
use sqlite_rs.Btree.Free.{Blocks, add_freeblock}
use sqlite_rs.Btree.Free.Blocks.{IsChain, covers}
use sqlite_rs.Btree.Free.Positions.{in_range, add_freeblock_lem}
use sqlite_rs.Btree.Payload.Whole.{reassemble_payload-length}

abbrev root_page_bytes : List ℕ
root_page_bytes = 5 ∷ 0 ∷ 0 ∷ 0 ∷ 1 ∷ 0 ∷ 14 ∷ 0 ∷ 0 ∷ 0 ∷ 0 ∷ 4 ∷ 0 ∷ 14 ∷ 0 ∷ 0 ∷ 0 ∷ 3 ∷ 5 ∷ []

-- Rows 2 and 5.
abbrev low_leaf : List ℕ
low_leaf = 13 ∷ 0 ∷ 0 ∷ 0 ∷ 2 ∷ 0 ∷ 12 ∷ 0 ∷ 0 ∷ 12 ∷ 0 ∷ 15 ∷ 1 ∷ 2 ∷ 7 ∷ 1 ∷ 5 ∷ 8 ∷ []

-- Row 9.
abbrev high_leaf : List ℕ
high_leaf = 13 ∷ 0 ∷ 0 ∷ 0 ∷ 1 ∷ 0 ∷ 10 ∷ 0 ∷ 0 ∷ 10 ∷ 1 ∷ 9 ∷ 6 ∷ []

abbrev three_pages : ℕ → Result ℕ (List ℕ)
three_pages p =
    if p == 2
    then ok root_page_bytes
    else if p == 3
    then ok low_leaf
    else if p == 4
    then ok high_leaf
    else err p

abbrev rowids : List ℤ
rowids = pos 2 ∷ pos 5 ∷ pos 9 ∷ []

walk_of_three : in_order three_pages 2 2 ≡ ok (3, rowids)
unfolding in_order rows_below interior_rows leaf_rows subtrees rows_from fetch frame_of leaf_frame
    interior_frame interior_test read_interior_child leaf_cell page1_header_start cell_ptr_offset
    read_page_type read_num_cells require_interior_header read_u32 read_cell_pointer slice
    slice_from from_be from_be_loop decode_cell_head decode_varint decode_loop
walk_of_three = refl

scan-in_order_example :
    calls_after (first three_pages) (next three_pages) 3 (new 512 2) ≡ some (answers rowids 4)
unfolding new
scan-in_order_example =
    scan-in_order three_pages 2 (new 512 2) 3 rowids walk_of_three (omega arith) 3

scan_back-in_order_example :
    calls_after (last three_pages) (prev three_pages) 3 (new 512 2) ≡ some (answers (rev rowids) 4)
unfolding new
scan_back-in_order_example =
    scan_back-in_order three_pages 2 (new 512 2) 3 rowids walk_of_three (omega arith) 3

scan-returns_example :
    (rs : List (Result (BtreeError ℕ) (Option ℤ))) × (calls_after
        (first three_pages)
        (next three_pages)
        2
        (new 512 2)
      ≡ some rs)
    × (length rs ≡ 3)
scan-returns_example = scan-returns three_pages (new 512 2) 2

abbrev root_frame : Frame
root_frame = record {
  page_num = 2;
  is_interior = true;
  num_cells = 1;
  cell_ptr_base = 12;
  next_cell = 0;
  rightmost = 4;
  rightmost_done = false;
  page = root_page_bytes;
}

abbrev leaf_frame_of : ℕ → ℕ → List ℕ → Frame
leaf_frame_of p cells page = record {
  page_num = p;
  is_interior = false;
  num_cells = cells;
  cell_ptr_base = 8;
  next_cell = 0;
  rightmost = 0;
  rightmost_done = true;
  page = page;
}

abbrev low_heads : ℕ → ℤ × ℕ × ℕ
low_heads i = if i == 0 then (pos 2, 1, 14) else (pos 5, 1, 17)

low_reads : (i : ℕ) → i < 2 → leaf_cell {V = ℕ} (leaf_frame_of 3 2 low_leaf) i ≡ ok (low_heads i)
unfolding leaf_cell page1_header_start cell_ptr_offset read_page_type read_num_cells
    require_interior_header read_u32 read_cell_pointer slice slice_from from_be from_be_loop
    decode_cell_head decode_varint decode_loop
low_reads zero h = refl
low_reads (suc zero) h = refl
low_reads (suc (suc i)) h = absurd (omega arith)

low_order : (i j : ℕ) → i < j → j < 2 → (low_heads i).0 <ℤ (low_heads j).0
low_order i j h k = ground arith

low_tree : SearchTree three_pages 1 3 1 (tabulate (λ i. (low_heads i).0) 0 2)
unfolding fetch frame_of leaf_frame interior_frame interior_test page1_header_start cell_ptr_offset
    read_page_type read_num_cells require_interior_header read_u32 read_cell_pointer slice
    slice_from from_be from_be_loop
low_tree = leaf low_leaf (leaf_frame_of 3 2 low_leaf) low_heads refl refl refl low_reads low_order

high_reads : (i : ℕ) → i < 1 → leaf_cell {V = ℕ} (leaf_frame_of 4 1 high_leaf) i ≡ ok (pos 9, 1, 12)
unfolding leaf_cell page1_header_start cell_ptr_offset read_page_type read_num_cells
    require_interior_header read_u32 read_cell_pointer slice slice_from from_be from_be_loop
    decode_cell_head decode_varint decode_loop
high_reads zero h = refl
high_reads (suc i) h = absurd (omega arith)

high_tree : SearchTree three_pages 1 4 1 (tabulate (λ i. pos 9) 0 1)
unfolding fetch frame_of leaf_frame interior_frame interior_test page1_header_start cell_ptr_offset
    read_page_type read_num_cells require_interior_header read_u32 read_cell_pointer slice
    slice_from from_be from_be_loop
high_tree =
    leaf high_leaf (leaf_frame_of 4 1 high_leaf) (λ i. (pos 9, 1, 12)) refl refl refl high_reads
      (λ i j h k. absurd (omega arith))

abbrev rows_of : ℕ → List ℤ
rows_of i = if i == 0 then tabulate (λ j. (low_heads j).0) 0 2 else tabulate (λ j. pos 9) 0 1

abbrev page_of : ℕ → ℕ
page_of i = if i == 0 then 3 else 4

root_keys : (i : ℕ) → i < 1 → interior_key_at {V = ℕ} root_page_bytes 2 12 i ≡ ok (pos 5, 14)
unfolding interior_key_at page1_header_start cell_ptr_offset read_page_type read_num_cells
    require_interior_header read_u32 read_cell_pointer slice slice_from from_be from_be_loop
    decode_varint decode_loop
root_keys zero h = refl
root_keys (suc i) h = absurd (omega arith)

root_children : (i : ℕ) → i < 1 → read_u32 {V = ℕ} root_page_bytes 14 2 ≡ ok (page_of i)
unfolding page1_header_start cell_ptr_offset read_page_type read_num_cells require_interior_header
    read_u32 read_cell_pointer slice slice_from from_be from_be_loop
root_children zero h = refl
root_children (suc i) h = absurd (omega arith)

root_trees : (i : ℕ) → i ≤ 1 → SearchTree three_pages 1 (page_of i) 1 (rows_of i)
root_trees zero h = low_tree
root_trees (suc zero) h = high_tree
root_trees (suc (suc i)) h = absurd (omega arith)

below_key : (i : ℕ) → i < 1 → (t : ℤ) → IsRow t (rows_of i) → t ≤ℤ pos 5
unfolding tabulate
below_key zero h t (inl e) = omega (arith, ap pos_part e, ap neg_part e)
below_key zero h t (inr (inl e)) = omega (arith, ap pos_part e, ap neg_part e)
below_key zero h t (inr (inr k)) = elim k [ ]
below_key (suc i) h t k = absurd (omega arith)

above_key : (i : ℕ) → i < 1 → (t : ℤ) → IsRow t (rows_of (i + 1)) → pos 5 <ℤ t
unfolding tabulate
above_key zero h t (inl e) = omega (arith, ap pos_part e, ap neg_part e)
above_key zero h t (inr k) = elim k [ ]
above_key (suc i) h t k = absurd (omega arith)

-- The whole tree, with the key 5 between the leaves.
abbrev tree_rows : List ℤ
tree_rows = concat_from rows_of 0 1 ++ rows_of 1

tree_of_three : SearchTree three_pages 2 2 (sum_from (λ i. 1) 0 1 + 1 + 1) tree_rows
unfolding fetch frame_of leaf_frame interior_frame interior_test page1_header_start cell_ptr_offset
    read_page_type read_num_cells require_interior_header read_u32 read_cell_pointer slice
    slice_from from_be from_be_loop
tree_of_three =
    node root_page_bytes root_frame (λ i. pos 5) (λ i. 14) page_of (λ i. 1) rows_of refl refl refl
      root_keys root_children refl (λ i j h k. omega arith) root_trees below_key above_key

seek_lem_example :
    (((seek three_pages (new 512 2) (pos 5)).1 ≡ ok (some (pos 5))) × IsRow (pos 5) tree_rows)
    ⊎ (((seek three_pages (new 512 2) (pos 5)).1 ≡ ok none) × ¬ IsRow (pos 5) tree_rows)
unfolding new
seek_lem_example =
    seek_lem three_pages (new 512 2) 2 (sum_from (λ i. 1) 0 1 + 1 + 1) tree_rows tree_of_three
      (omega arith) (pos 5)

count_table_rows_lem_example : count_table_rows three_pages 2 ≡ ok (length tree_rows)
unfolding sum_from concat_from tabulate
count_table_rows_lem_example =
    count_table_rows_lem three_pages 2 2 (sum_from (λ i. 1) 0 1 + 1 + 1) tree_rows tree_of_three
      (omega arith) (omega arith) (omega arith)

find_leaf_page-seek_loop_example :
    (ancestors : List ℕ) × (last left : ℕ) × (find_leaf_page three_pages (pos 9) 10 2 []
      ≡ ok ([] ++ ancestors, last))
    × WayDown three_pages (pos 9) 2 ancestors last
    × (seek_loop three_pages (pos 9) 10 2 ≡ seek_loop three_pages (pos 9) left last)
    × (length ancestors + left ≡ 10)
find_leaf_page-seek_loop_example =
    find_leaf_page-seek_loop three_pages tree_of_three (pos 9) 10 [] (omega arith)

-- A payload of twelve bytes, of which the cell on page 2 keeps none but the number of page 3.
abbrev overflow_pages : ℕ → Result ℕ (List ℕ)
overflow_pages p =
    if p == 3
    then ok (0 ∷ 0 ∷ 0 ∷ 4 ∷ 1 ∷ 2 ∷ 3 ∷ 4 ∷ 5 ∷ 6 ∷ [])
    else ok (0 ∷ 0 ∷ 0 ∷ 0 ∷ 7 ∷ 8 ∷ 9 ∷ 10 ∷ 11 ∷ 12 ∷ [])

abbrev twelve_bytes : List ℕ
twelve_bytes = 1 ∷ 2 ∷ 3 ∷ 4 ∷ 5 ∷ 6 ∷ 7 ∷ 8 ∷ 9 ∷ 10 ∷ 11 ∷ 12 ∷ []

twelve :
    reassemble_payload overflow_pages 10 2 (0 ∷ 0 ∷ 0 ∷ 3 ∷ []) 0 12 false ≡ ok (owned twelve_bytes)
unfolding reassemble_payload reassemble_rest follow_chain overflow_loop read_overflow may_read
    local_payload_size min_local max_local fetch read_u32 slice slice_from from_be from_be_loop
twelve = refl

reassemble_payload-length_example : length (bytes_of (owned twelve_bytes)) ≡ 12
reassemble_payload-length_example =
    reassemble_payload-length overflow_pages 10 2 (0 ∷ 0 ∷ 0 ∷ 3 ∷ []) 0 12 false
      (owned twelve_bytes) (omega arith) twelve

abbrev low_cells : List (ℤ × List ℕ)
low_cells = (pos 2, 1 ∷ 2 ∷ 7 ∷ []) ∷ (pos 5, 1 ∷ 5 ∷ 8 ∷ []) ∷ []

collected : collect_leaf_cells {V = ℕ} low_leaf 3 512 0 ≡ ok low_cells
unfolding collect_leaf_cells collect_from cell_at end_of_cell local_payload_size max_local min_local
    cell_ptr_offset read_num_cells read_cell_pointer slice slice_from from_be from_be_loop
    decode_cell_head decode_varint decode_loop
collected = refl

scan_leaf_cells_lem_example :
    scan_leaf_cells {V = ℕ} low_leaf 3 512 0 (pos 4)
    ≡ scan_answer
        (pos 4)
        low_cells
        (before (pos 4) low_cells)
        (length low_cells)
        (bytes_in low_cells)
scan_leaf_cells_lem_example =
    scan_leaf_cells_lem low_leaf 3 512 0 (pos 4) low_cells (omega arith) collected

-- A range that touches the block before it and the block behind it.
abbrev two_blocks : Blocks
two_blocks = (400, 20) ∷ (450, 10) ∷ []

add_freeblock_lem_example :
    IsChain 0 (add_freeblock two_blocks 420 30)
    × ((p : ℕ)
        → covers (add_freeblock two_blocks 420 30) p ≡ (in_range 420 30 p || covers two_blocks p))
add_freeblock_lem_example =
    add_freeblock_lem two_blocks 420 30
      (omega arith, omega arith, omega arith, (omega arith, omega arith, omega arith, tt))
      (inl (omega arith), (inr (omega arith), tt)) (omega arith) (omega arith) (omega arith)
