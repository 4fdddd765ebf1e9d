-- ===== src/Btree/Insert/Runs.antt =====
-- src/btree.rs and src/btree/table/insert.rs: runs on a leaf page of 32 bytes and on an interior page
-- with one entry.
use sqlite_rs.Prelude.{
  ℕ, ◌≡◌, ◌<◌, ◌⊎◌, refl, arith, false, inl, List, [], ◌∷◌, ◌++◌, replicate, length, drop,
}
use sqlite_rs.Prelude.Bytes.{to_be}
use sqlite_rs.Prelude.Outcome.{Result, ok, err, ◌>>=◌, Gives}
use sqlite_rs.Btree.Error.{BtreeError}
use sqlite_rs.Prelude.Int.{ℤ, pos}
use sqlite_rs.Record.Varint.{
  decode_varint, decode_loop, encode_varint, write_varint_into, count_groups, push_groups, group_at,
  push_top,
}
use sqlite_rs.Btree.Payload.{local_payload_size, max_local, min_local}
use sqlite_rs.Btree.Leaf.{end_of_cell, collect_leaf_cells, find_leaf_cell}
use sqlite_rs.Btree.Leaf.Scans.{has_rowid, before, bytes_in}
use sqlite_rs.Btree.Interior.{pick_child, collect_interior_entries}
use sqlite_rs.Btree.Free.Splice.{splice_insert_cell}
use sqlite_rs.Btree.Free.Inserted.{Spliced, splice_insert_cell-IsLeaf}
use sqlite_rs.Btree.Rebuild.{build_interior_cell, cell_bytes, write_leaf_page, write_interior_page}
use sqlite_rs.Btree.Rebuild.Leaf.{IsCell, IsLeaf}
use sqlite_rs.Btree.Rebuild.RoundTrip.{write_leaf_page-collect_leaf_cells}
use sqlite_rs.Btree.Rebuild.Interior.{built, write_interior_page-collect_interior_entries}
use sqlite_rs.Btree.Insert.{with_cell, encode_leaf_cell, insert_in_page, split_leaf, place_split}
use sqlite_rs.Btree.Rebuild.Find.{Finds, find_leaf_cell-Finds}
use sqlite_rs.Btree.Insert.Framed.{Encodes}
use sqlite_rs.Btree.Insert.Cell.{encode_leaf_cell-IsCell}
use sqlite_rs.Btree.Insert.Answer.{Answer, insert_in_page-Answer}
use sqlite_rs.Btree.Insert.Split.{Halves, split_leaf-Halves}
use sqlite_rs.Btree.Insert.Parent.{led, Leads, place_split-led}

abbrev cell_5 : ℤ × List ℕ
cell_5 = (pos 5, 1 ∷ 5 ∷ b'a' ∷ [])

abbrev cell_7 : ℤ × List ℕ
cell_7 = (pos 7, 1 ∷ 7 ∷ b'b' ∷ [])

abbrev blank : List ℕ
blank = replicate 32 0

-- A header, one pointer, a gap, and the cell of row 5.
abbrev one_row : List ℕ
one_row = 0x0d ∷ 0 ∷ 0 ∷ 0 ∷ 1 ∷ 0 ∷ 29 ∷ 0 ∷ 0 ∷ 29 ∷ (replicate 19 0 ++ cell_5.1)

one_row-IsLeaf : IsLeaf one_row 0 29 (cell_5 ∷ [])
unfolding to_be
one_row-IsLeaf = (
  omega arith,
  (refl, (refl, tt)),
  (refl, (refl, tt)),
  omega arith,
  omega arith,
  (29, (refl, (refl, tt)), (refl, (refl, (refl, tt))), omega arith, omega arith, tt),
)

cell_5-IsCell : IsCell 512 cell_5
unfolding decode_varint decode_loop end_of_cell local_payload_size max_local min_local
cell_5-IsCell = (1, 1, 5, 1, refl, refl, refl, refl)

cell_7-IsCell : IsCell 512 cell_7
unfolding decode_varint decode_loop end_of_cell local_payload_size max_local min_local
cell_7-IsCell = (1, 1, 7, 1, refl, refl, refl, refl)

fresh_7 : has_rowid (pos 7) (cell_5 ∷ []) ≡ false
unfolding has_rowid
fresh_7 = refl

behind_5 : before (pos 7) (cell_5 ∷ []) ≡ 1
unfolding before
behind_5 = refl

-- Writes of overflow chains that all start at page 9.
abbrev page_9 : List ℕ → Result (BtreeError ℕ) ℕ
page_9 bytes = ok 9

-- A row of 500 bytes, of which the cell keeps 39, and page 9 the rest.
abbrev long_row : List ℕ
long_row = replicate 500 b'a'

abbrev long_cell : List ℕ
long_cell = 0x83 ∷ 0x74 ∷ 7 ∷ (replicate 39 b'a' ++ (0 ∷ 0 ∷ 0 ∷ 9 ∷ []))

encodes_long : encode_leaf_cell page_9 512 (pos 7) long_row ≡ ok long_cell
unfolding encode_leaf_cell local_payload_size max_local min_local encode_varint write_varint_into
    count_groups push_groups group_at push_top to_be
encodes_long = refl

encode_leaf_cell-IsCell_example :
    Gives
      (encode_leaf_cell page_9 512 (pos 7) long_row)
      (λ cell. IsCell 512 (pos 7, cell) × Encodes page_9 512 (pos 7) long_row cell)
    ⊎ ((e : BtreeError ℕ) × (encode_leaf_cell page_9 512 (pos 7) long_row ≡ err e)
        × (local_payload_size 512 (length long_row) false < length long_row)
        × (page_9 (drop (local_payload_size 512 (length long_row) false) long_row) ≡ err e))
encode_leaf_cell-IsCell_example =
    encode_leaf_cell-IsCell page_9 512 (pos 7) long_row (omega arith) (omega arith) (omega arith)

write_leaf_page-collect_leaf_cells_example :
    (write_leaf_page {V = ℕ} blank 0 2 (cell_bytes (cell_5 ∷ cell_7 ∷ []))
      >>= (λ page. collect_leaf_cells page 2 512 0))
    ≡ ok (cell_5 ∷ cell_7 ∷ [])
unfolding bytes_in
write_leaf_page-collect_leaf_cells_example =
    write_leaf_page-collect_leaf_cells {V = ℕ} 2 blank 0 512 (cell_5 ∷ cell_7 ∷ []) (omega arith)
      (omega arith) (cell_5-IsCell, (cell_7-IsCell, tt))

abbrev one_entry : List (ℕ × ℤ)
one_entry = (3, pos 10) ∷ []

write_interior_page-collect_interior_entries_example :
    (write_interior_page {V = ℕ} blank 0 2 (cell_bytes (built one_entry)) 4
      >>= (λ page. collect_interior_entries page 0 2))
    ≡ ok (one_entry, 4)
unfolding bytes_in build_interior_cell encode_varint write_varint_into count_groups push_groups
    group_at push_top to_be
write_interior_page-collect_interior_entries_example =
    write_interior_page-collect_interior_entries {V = ℕ} 2 blank 0 4 one_entry (omega arith)
      (omega arith) (omega arith) (omega arith, omega arith, tt)

splice_insert_cell-IsLeaf_example :
    Gives
      (splice_insert_cell {V = ℕ} one_row 0 2 1 (cell_7.1))
      (Spliced one_row 0 29 (cell_5 ∷ []) cell_7 [])
splice_insert_cell-IsLeaf_example =
    splice_insert_cell-IsLeaf {V = ℕ} 2 one_row 0 29 (cell_5 ∷ []) cell_7 [] one_row-IsLeaf
      (omega arith) (omega arith)

insert_in_page-Answer_example :
    Answer ℕ 512 2 0 one_row
      (cell_5 ∷ [])
      cell_7
      (insert_in_page {V = ℕ} 512 2 0 one_row 32 (pos 7) (cell_7.1))
insert_in_page-Answer_example =
    insert_in_page-Answer ℕ 512 2 0 one_row 29 (cell_5 ∷ []) (pos 7) (cell_7.1) one_row-IsLeaf
      (cell_5-IsCell, tt) tt cell_7-IsCell

split_leaf-Halves_example :
    Gives
      (split_leaf {V = ℕ} 512 2 0 one_row blank 3 (before (pos 7) (cell_5 ∷ [])) cell_7)
      (Halves ℕ 512 2 0 3 (with_cell (cell_5 ∷ []) (before (pos 7) (cell_5 ∷ [])) cell_7))
unfolding bytes_in before
split_leaf-Halves_example =
    split_leaf-Halves {V = ℕ} 512 2 0 one_row blank 3 29 (cell_5 ∷ []) (pos 7) (cell_7.1)
      one_row-IsLeaf (cell_5-IsCell, tt) tt cell_7-IsCell fresh_7 (omega arith) (omega arith)
      (omega arith)

entry-Leads : Leads 3 (pos 5) one_entry 4
entry-Leads = inl (refl, omega arith, λ e. cc)

place_split-led_example : Gives (place_split {V = ℕ} 2 one_entry 4 3 9 (pos 5)) (λ placed.
    pick_child (placed.0) (pos 7) (placed.1)
    ≡ led 3 9 (pos 5) (pos 7) (pick_child one_entry (pos 7) 4))
place_split-led_example =
    place_split-led {V = ℕ} 2 one_entry 4 3 9 (pos 5) (pos 7) entry-Leads (omega arith)

find_leaf_cell-Finds_example :
    Gives (find_leaf_cell {V = ℕ} one_row 2 512 0 (pos 5)) (Finds 512 0 1 (cell_5 ∷ []) (pos 5))
find_leaf_cell-Finds_example =
    find_leaf_cell-Finds {V = ℕ} one_row 2 512 0 29 (cell_5 ∷ []) (pos 5) one_row-IsLeaf
      (cell_5-IsCell, tt)
