-- ===== src/Btree/Insert.antt =====
-- src/btree/table/insert.rs: the cell of a row, and its insert into a leaf page, with the page's split
-- where it has no room. The two pages of a split are given, and come back rewritten; the writes of the
-- overflow chain are a parameter.
pub mod Framed
pub mod Cell
pub mod Page
pub mod Split
pub mod Parent
pub mod Answer
mod Runs
use sqlite_rs.Prelude.{
  ℕ, zero, suc, ◌+◌, ◌/◌, ◌%◌, ◌^◌, ◌==◌, leb, min, if◌then◌else◌, false, List, [], ◌∷◌, ◌++◌,
  length, take, drop, Option, none, some,
}
use sqlite_rs.Prelude.Bytes.{saturating_add, saturating_mul, to_be}
use sqlite_rs.Prelude.Outcome.{Result, ok, err, ok_or, ◌>>=◌}
use sqlite_rs.Prelude.Int.{ℤ}
use sqlite_rs.Record.Value.{as_unsigned}
use sqlite_rs.Record.Varint.{encode_varint}
use sqlite_rs.Btree.Error.{BtreeError, internal, missing_child_route}
use sqlite_rs.Btree.Payload.{local_payload_size}
use sqlite_rs.Btree.Leaf.{collect_leaf_cells, scan_leaf_cells}
use sqlite_rs.Btree.Free.Splice.{splice_insert_cell}
use sqlite_rs.Btree.Rebuild.{cell_bytes, write_leaf_page}

-- What the page is to hold: the header's start and length, the pointers, the cells, the new cell.
abbrev pub needed_bytes : ℕ → ℕ → ℕ → ℕ → ℕ
needed_bytes header_start num_cells existing_bytes size =
    saturating_add
      (saturating_add
        (saturating_add (saturating_add header_start 8)
          (saturating_mul (saturating_add num_cells 1) 2))
        existing_bytes)
      size

-- `Vec::insert`, inside the vector.
abbrev pub with_cell : List (ℤ × List ℕ) → ℕ → ℤ × List ℕ → List (ℤ × List ℕ)
with_cell cells pos cell = take pos cells ++ (cell ∷ drop pos cells)

-- `left.last()`, its rowid.
unfoldable pub last_rowid : List (ℤ × List ℕ) → Option ℤ
last_rowid [] = none
last_rowid (cell ∷ []) = some (cell.0)
last_rowid (cell ∷ (next ∷ cells)) = last_rowid (next ∷ cells)

module _ {V : Type 0} (write_overflow_chain : List ℕ → Result (BtreeError V) ℕ) where
  unfoldable pub encode_leaf_cell : ℕ → ℤ → List ℕ → Result (BtreeError V) (List ℕ)
  encode_leaf_cell usable_size rowid payload =
      let local_size =
        min (local_payload_size usable_size (length payload) false) (length payload) in
      let cell =
        encode_varint (length payload)
        ++ (encode_varint (as_unsigned 64 rowid) ++ take local_size payload) in
      if length (drop local_size payload) == 0
      then ok cell
      else (write_overflow_chain (drop local_size payload)
          >>= (λ overflow_first. ok (cell ++ to_be 4 (overflow_first % 2 ^ 32))))

module _ {V : Type 0} (usable_size leaf_page header_start : ℕ) where
  -- The page, rebuilt, where the splice does not find the room in one piece.
  unfoldable pub rebuild_leaf : List ℕ → ℕ → ℤ × List ℕ → Result (BtreeError V) (List ℕ)
  rebuild_leaf buf insert_pos cell = do
    cells ← collect_leaf_cells buf leaf_page usable_size header_start
    write_leaf_page buf header_start leaf_page (cell_bytes (with_cell cells insert_pos cell))

  -- `insert_into_leaf` to its first `return Ok(())`; none where the page is to be split.
  unfoldable pub insert_in_page : List ℕ → ℕ → ℤ → List ℕ → Result (BtreeError V) (Option (List ℕ))
  insert_in_page buf page_len rowid cell = do
    scan ← scan_leaf_cells buf leaf_page usable_size header_start rowid
    (if leb (needed_bytes header_start (scan.1) (scan.2) (length cell)) page_len
        then (splice_insert_cell buf header_start leaf_page (scan.0) cell >>= (λ spliced.
            if spliced.0
            then ok (some (spliced.1))
            else (rebuild_leaf (spliced.1) (scan.0) (rowid, cell) >>= (λ page. ok (some page)))))
        else ok none)

  -- The split: the leaf page, the new page behind it, and the divider between them.
  unfoldable pub split_leaf :
      List ℕ → List ℕ → ℕ → ℕ → ℤ × List ℕ → Result (BtreeError V) (List ℕ × List ℕ × ℤ)
  split_leaf buf right_buf right_page insert_pos cell = do
    collected ← collect_leaf_cells buf leaf_page usable_size header_start
    (let cells = with_cell collected insert_pos cell in
        let left_n = (length cells + 1) / 2 in
        (do
          divider ← ok_or (last_rowid (take left_n cells)) (internal [])
          left ← write_leaf_page buf header_start leaf_page (cell_bytes (take left_n cells))
          right ← write_leaf_page right_buf 0 right_page (cell_bytes (drop left_n cells))
          ok (left, right, divider)))

-- `entries.iter().position(|(child, _)| *child == old_page)`
unfoldable pub position_of : List (ℕ × ℤ) → ℕ → Option ℕ
position_of [] old_page = none
position_of ((child, key) ∷ entries) old_page =
    let rest = position_of entries old_page in
    if child == old_page then some 0 else elim rest [ none ↦ none | some idx ↦ some (suc idx) ]

-- `entries.get_mut(i)` and the write of its child.
unfoldable pub set_child : List (ℕ × ℤ) → ℕ → ℕ → Option (List (ℕ × ℤ))
set_child [] i child = none
set_child ((c, key) ∷ entries) zero child = some ((child, key) ∷ entries)
set_child (entry ∷ entries) (suc i) child = elim (set_child entries i child) [
  | none ↦ none
  | some changed ↦ some (entry ∷ changed)
]

-- The entries of the parent after a child was split, in `insert_into_parent`.
module _ {V : Type 0} (parent_page : ℕ) where
  unfoldable pub place_split :
      List (ℕ × ℤ) → ℕ → ℕ → ℕ → ℤ → Result (BtreeError V) (List (ℕ × ℤ) × ℕ)
  place_split entries rightmost old_page new_page divider = elim (position_of entries old_page) [
    | some idx ↦
        ok_or
          (set_child (take idx entries ++ ((old_page, divider) ∷ drop idx entries))
            (saturating_add idx 1) new_page)
          (internal [])
        >>= (λ placed. ok (placed, rightmost))
    | none ↦
        if rightmost == old_page
        then ok (entries ++ ((old_page, divider) ∷ []), new_page)
        else err (missing_child_route parent_page old_page)
  ]
