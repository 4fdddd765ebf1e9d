-- ===== src/Btree/Insert/Answer.antt =====
-- src/btree/table/insert.rs: what an insert into a leaf page comes to.
use sqlite_rs.Prelude.{
  ℕ, suc, ◌+◌, ◌*◌, ◌≤◌, ◌≡◌, refl, ap, ◌∙◌, arith, leb, leb→le, if◌then◌else◌, Bool, Bool-cases,
  false, inl, inr, List, length, Option, none,
}
use sqlite_rs.Prelude.Outcome.{Result, ok, err, Gives}
use sqlite_rs.Prelude.Int.{ℤ}
use sqlite_rs.Btree.Error.{BtreeError, duplicate_rowid}
use sqlite_rs.Btree.Leaf.Scans.{has_rowid, before, bytes_in, scan_answer, scan_leaf_cells_lem}
use sqlite_rs.Btree.Rebuild.Leaf.{IsCell, AllCells, IsLeaf, collect_leaf_cells-IsLeaf}
use sqlite_rs.Btree.Insert.{needed_bytes, insert_in_page}
use sqlite_rs.Btree.Insert.Page.{Ascending, Inserted, insert_in_page-Inserted}

-- The bytes that a leaf page needs for its cells and a new one.
abbrev pub room_for : ℕ → List (ℤ × List ℕ) → List ℕ → ℕ
room_for header_start cells cell =
    header_start + 8 + 2 * suc (length cells) + (bytes_in cells + length cell)

-- The code's test of them fails where they are too many.
needed_bytes-over :
    (header_start n total size len : ℕ)
    → len ≤ 65536
    → leb (header_start + 8 + 2 * suc n + (total + size)) len ≡ false
    → leb (needed_bytes header_start n total size) len ≡ false
needed_bytes-over header_start n total size len small over = ground arith

module _ (V : Type 0) (usable_size leaf_page header_start : ℕ) where
  -- What an insert comes to: the error for a rowid that is there, a page with the cell where there
  -- is room for it, and else none.
  abbrev pub Answer :
      List ℕ → List (ℤ × List ℕ) → ℤ × List ℕ → Result (BtreeError V) (Option (List ℕ)) → Type 0
  Answer page cells cell answer =
      if has_rowid (cell.0) cells
      then (answer ≡ err (duplicate_rowid (cell.0)))
      else if leb (room_for header_start cells (cell.1)) (length page)
      then Gives answer (Inserted V usable_size leaf_page header_start cells cell)
      else (answer ≡ ok none)

  -- On a leaf page with ascending rowids an insert of a row fails with DuplicateRowid where its rowid
  -- is there. Else, where there is room for the pointers and the cells with the new one, the page
  -- holds them in the order of their rowids and they are collected from it. Else the page is left
  -- to the split.
  pub insert_in_page-Answer :
      (page : List ℕ) (low : ℕ) (cells : List (ℤ × List ℕ)) (rowid : ℤ) (cell : List ℕ)
      → IsLeaf page header_start low cells
      → AllCells usable_size cells
      → Ascending cells
      → IsCell usable_size (rowid, cell)
      → Answer page cells
          (rowid, cell)
          (insert_in_page {V = V} usable_size leaf_page header_start page (length page) rowid cell)
  unfolding scan_answer insert_in_page
  insert_in_page-Answer page low cells rowid cell leaf all ascending good =
      let room = room_for header_start cells cell in
      let scanned =
        scan_leaf_cells_lem {V = V} page leaf_page usable_size header_start rowid cells
          (omega arith)
          (collect_leaf_cells-IsLeaf {V = V} page leaf_page usable_size header_start low cells leaf
            all) in
      let answer : Bool → Result (BtreeError V) (ℕ × ℕ × ℕ) = λ b.
        if b
        then err (duplicate_rowid rowid)
        else ok (before rowid cells, length cells, bytes_in cells) in
      elim (Bool-cases (has_rowid rowid cells)) [
        | inl there ↦
            let twice = scanned ∙ ap answer there in rw there (rw (insert_in_page, twice) refl)
        | inr fresh ↦
            let once = scanned ∙ ap answer fresh in
            elim (Bool-cases (leb room (length page))) [
              | inl fits ↦
                  rw (fresh, fits)
                    (insert_in_page-Inserted {V = V} usable_size leaf_page header_start page low
                      cells rowid cell leaf all ascending good fresh
                      (leb→le room (length page) fits))
              | inr over ↦
                  let full =
                    needed_bytes-over header_start (length cells) (bytes_in cells) (length cell)
                      (length page) (leaf.0) over in
                  rw (fresh, over) (rw (insert_in_page, once, full) refl)
            ]
      ]
