-- ===== src/Btree/Insert/Page.antt =====
-- src/btree/table/insert.rs: a row that is put into a leaf page stands there in its place.
use sqlite_rs.Prelude.{
  ℕ, zero, suc, ◌+◌, ◌-◌, ◌*◌, ◌≤◌, ◌<◌, ◌≡◌, refl, sym, ap, subst, ◌∙◌, arith, leb, le→leb,
  if◌then◌else◌, Bool, Bool-cases, true, false, inl, inr, List, [], ◌∷◌, length, take, drop, Option,
  none, some, take-append-drop, length-take,
}
use sqlite_rs.Prelude.Outcome.{ok, err, ◌>>=◌, Gives, Gives-bind}
use sqlite_rs.Prelude.Int.{ℤ, pos_part, neg_part}
use sqlite_rs.Btree.Error.{duplicate_rowid}
use sqlite_rs.Btree.Leaf.{gt_ℤ, collect_leaf_cells}
use sqlite_rs.Btree.Leaf.Scans.{has_rowid, before, bytes_in, scan_answer, scan_leaf_cells_lem}
use sqlite_rs.Btree.Free.Splice.{splice_insert_cell}
use sqlite_rs.Btree.Free.Inserted.{Spliced, splice_insert_cell-IsLeaf}
use sqlite_rs.Btree.Rebuild.{cell_bytes, write_leaf_page}
use sqlite_rs.Btree.Rebuild.Leaf.{
  IsCell, AllCells, AllCells-Solid, IsLeaf, collect_leaf_cells-IsLeaf,
}
use sqlite_rs.Btree.Rebuild.RoundTrip.{write_leaf_page-IsLeaf}
use sqlite_rs.Btree.Insert.{needed_bytes, with_cell, rebuild_leaf, insert_in_page}

before-le : (rowid : ℤ) (cells : List (ℤ × List ℕ)) → before rowid cells ≤ length cells
unfolding before
before-le rowid [] = omega arith
before-le rowid (cell ∷ cells) = ground (arith, before-le rowid cells)

bytes_in-with_cell :
    (cells : List (ℤ × List ℕ)) (pos : ℕ) (cell : ℤ × List ℕ)
    → bytes_in (with_cell cells pos cell) ≡ bytes_in cells + length (cell.1)
unfolding bytes_in
bytes_in-with_cell cells zero cell = omega arith
bytes_in-with_cell [] (suc pos) cell = omega arith
bytes_in-with_cell (c ∷ cells) (suc pos) cell = omega (arith, bytes_in-with_cell cells pos cell)

pub length-with_cell :
    (cells : List (ℤ × List ℕ)) (pos : ℕ) (cell : ℤ × List ℕ)
    → length (with_cell cells pos cell) ≡ suc (length cells)
length-with_cell cells zero cell = refl
length-with_cell [] (suc pos) cell = refl
length-with_cell (c ∷ cells) (suc pos) cell = ap suc (length-with_cell cells pos cell)

pub AllCells-with_cell :
    (usable_size : ℕ) (cells : List (ℤ × List ℕ)) (pos : ℕ) (cell : ℤ × List ℕ)
    → AllCells usable_size cells
    → IsCell usable_size cell
    → AllCells usable_size (with_cell cells pos cell)
AllCells-with_cell usable_size cells zero cell all good = (good, all)
AllCells-with_cell usable_size [] (suc pos) cell all good = (good, tt)
AllCells-with_cell usable_size (c ∷ cells) (suc pos) cell (here, all) good =
    (here, AllCells-with_cell usable_size cells pos cell all good)

-- The rowids ascend, above a bound where there is one.
abbrev pub Above : ℤ → List (ℤ × List ℕ) → Type 0
Above rowid [] = Unit {0}
Above rowid (cell ∷ cells) =
    (pos_part rowid + neg_part (cell.0) < pos_part (cell.0) + neg_part rowid) × Above (cell.0) cells

abbrev pub Ascending : List (ℤ × List ℕ) → Type 0
Ascending [] = Unit {0}
Ascending (cell ∷ cells) = Above (cell.0) cells

Above-with_cell :
    (low : ℤ) (cells : List (ℤ × List ℕ)) (rowid : ℤ) (bytes : List ℕ)
    → pos_part low + neg_part rowid < pos_part rowid + neg_part low
    → has_rowid rowid cells ≡ false
    → Above low cells
    → Above low (with_cell cells (before rowid cells) (rowid, bytes))
unfolding has_rowid before
Above-with_cell low [] rowid bytes p fresh above = (p, tt)
Above-with_cell low (cell ∷ cells) rowid bytes p fresh above =
    elim (Bool-cases (gt_ℤ (cell.0) rowid)) [
      | inl greater ↦ rw greater (p, (ground arith, above.1))
      | inr less ↦ rw less (
        above.0,
        Above-with_cell (cell.0) cells rowid bytes (ground arith) (ground arith) (above.1),
      )
    ]

pub Ascending-with_cell :
    (cells : List (ℤ × List ℕ)) (rowid : ℤ) (bytes : List ℕ)
    → has_rowid rowid cells ≡ false
    → Ascending cells
    → Ascending (with_cell cells (before rowid cells) (rowid, bytes))
unfolding has_rowid before
Ascending-with_cell [] rowid bytes fresh above = tt
Ascending-with_cell (cell ∷ cells) rowid bytes fresh above =
    elim (Bool-cases (gt_ℤ (cell.0) rowid)) [
      | inl greater ↦ rw greater (ground arith, above)
      | inr less ↦
          rw less (Above-with_cell (cell.0) cells rowid bytes (ground arith) (ground arith) above)
    ]

-- What an insert leaves: a page that has the cell among the others, in its place.
abbrev pub Inserted :
    (V : Type 0) (usable_size leaf_page header_start : ℕ)
    → List (ℤ × List ℕ)
    → ℤ × List ℕ
    → Option (List ℕ)
    → Type 0
Inserted V usable_size leaf_page header_start cells cell none = ⊥
Inserted V usable_size leaf_page header_start cells cell (some page') =
    let after = with_cell cells (before (cell.0) cells) cell in
    (low : ℕ) × IsLeaf page' header_start low after
    × (collect_leaf_cells {V = V} page' leaf_page usable_size header_start ≡ ok after)
    × Ascending after

module _ {V : Type 0} (usable_size leaf_page header_start : ℕ) where
  rebuild_leaf-IsLeaf :
      (page : List ℕ) (low pos : ℕ) (cells : List (ℤ × List ℕ)) (cell : ℤ × List ℕ)
      → IsLeaf page header_start low cells
      → AllCells usable_size cells
      → IsCell usable_size cell
      → header_start + 8 + 2 * suc (length cells) + (bytes_in cells + length (cell.1)) ≤ length page
      → Gives
          (rebuild_leaf {V = V} usable_size leaf_page header_start page pos cell)
          (λ page'. (low' : ℕ) × IsLeaf page' header_start low' (with_cell cells pos cell))
  unfolding rebuild_leaf
  rebuild_leaf-IsLeaf page low pos cells cell leaf all good room =
      let after = with_cell cells pos cell in
      Gives-bind _ _ (λ found. found ≡ cells) _
        (
          cells,
          collect_leaf_cells-IsLeaf page leaf_page usable_size header_start low cells leaf all,
          refl,
        )
        (λ found same.
          let (page', put, (front, kind, leaf')) =
            write_leaf_page-IsLeaf {V = V} leaf_page page header_start after (leaf.0)
              (omega (arith, length-with_cell cells pos cell, bytes_in-with_cell cells pos cell))
              (AllCells-Solid usable_size after
                (AllCells-with_cell usable_size cells pos cell all good)) in
          (
            page',
            ap
                  (λ cells.
                    write_leaf_page page header_start leaf_page
                      (cell_bytes (with_cell cells pos cell)))
                  same
                ∙ put,
            (length page - bytes_in after, leaf'),
          ))

  module _ (page : List ℕ) (low : ℕ) (cells : List (ℤ × List ℕ)) (rowid : ℤ) (cell : List ℕ)
      (leaf : IsLeaf page header_start low cells) (all : AllCells usable_size cells)
      (ascending : Ascending cells) (good : IsCell usable_size (rowid, cell))
      (fresh : has_rowid rowid cells ≡ false)
      (room : header_start + 8 + 2 * suc (length cells) + (bytes_in cells + length cell)
        ≤ length page) where
    holds_row :
        (page' : List ℕ) (low' : ℕ)
        → IsLeaf page' header_start low' (with_cell cells (before rowid cells) (rowid, cell))
        → Inserted V usable_size leaf_page header_start cells (rowid, cell) (some page')
    holds_row page' low' leaf' =
        let after = with_cell cells (before rowid cells) (rowid, cell) in
        (
          low',
          leaf',
          collect_leaf_cells-IsLeaf {V = V} page' leaf_page usable_size header_start low' after
              leaf'
              (AllCells-with_cell usable_size cells (before rowid cells) (rowid, cell) all good),
          Ascending-with_cell cells rowid cell fresh ascending,
        )

    after_splice :
        (done : Bool) (page' : List ℕ)
        → Spliced page header_start low
            (take (before rowid cells) cells)
            (rowid, cell)
            (drop (before rowid cells) cells)
            (done, page')
        → Gives
            (if done
              then ok (some page')
              else (rebuild_leaf {V = V} usable_size leaf_page header_start page'
                    (before rowid cells)
                    (rowid, cell)
                  >>= (λ page. ok (some page))))
            (Inserted V usable_size leaf_page header_start cells (rowid, cell))
    after_splice true page' (inl (no_room, same, less)) = absurd (cc)
    after_splice true page' (inr (spliced, keeps, leaf')) =
        (some page', refl, holds_row page' (low - length cell) leaf')
    after_splice false page' (inl (no_room, same, less)) =
        Gives-bind _ _ _ _
          (subst
            (λ page.
              Gives
                (rebuild_leaf {V = V} usable_size leaf_page header_start page (before rowid cells)
                  (rowid, cell))
                (λ page'.
                  (low' : ℕ) × IsLeaf page' header_start low'
                    (with_cell cells (before rowid cells) (rowid, cell))))
            (sym same)
            (rebuild_leaf-IsLeaf page low (before rowid cells) cells (rowid, cell) leaf all good
              room))
          (λ page1 done. (some page1, refl, holds_row page1 (done.0) (done.1)))
    after_splice false page' (inr (spliced, keeps, leaf')) = absurd (cc)

  -- A row whose rowid is not on a leaf page with ascending rowids, and whose cell finds room on it,
  -- is inserted: the page holds the cells in the order of their rowids with the new one among them,
  -- and they are collected from it. The cell is spliced in, or the page is rebuilt where the room is
  -- not in one piece.
  pub insert_in_page-Inserted :
      (page : List ℕ) (low : ℕ) (cells : List (ℤ × List ℕ)) (rowid : ℤ) (cell : List ℕ)
      → IsLeaf page header_start low cells
      → AllCells usable_size cells
      → Ascending cells
      → IsCell usable_size (rowid, cell)
      → has_rowid rowid cells ≡ false
      → header_start + 8 + 2 * suc (length cells) + (bytes_in cells + length cell) ≤ length page
      → Gives
          (insert_in_page {V = V} usable_size leaf_page header_start page (length page) rowid cell)
          (Inserted V usable_size leaf_page header_start cells (rowid, cell))
  unfolding insert_in_page scan_answer
  insert_in_page-Inserted page low cells rowid cell leaf all ascending good fresh room =
      let pos : ℕ = before rowid cells in
      let small = leaf.0 in
      let after = with_cell cells pos (rowid, cell) in
      let collected =
        collect_leaf_cells-IsLeaf {V = V} page leaf_page usable_size header_start low cells leaf
          all in
      let scanned =
        scan_leaf_cells_lem {V = V} page leaf_page usable_size header_start rowid cells
          (omega arith) collected
        ∙ ap
            (λ (b : Bool).
              if b then err (duplicate_rowid rowid) else ok (pos, length cells, bytes_in cells))
            fresh in
      let test : leb (needed_bytes header_start (length cells) (bytes_in cells) (length cell))
            (length page)
          ≡ true =
        le→leb _ _ (omega arith) in
      let together = take-append-drop pos cells in
      let at : length (take pos cells) ≡ pos =
        omega (arith, length-take pos cells, before-le rowid cells) in
      let cut = subst (λ cells. IsLeaf page header_start low cells) (sym together) leaf in
      let some_byte = AllCells-Solid usable_size ((rowid, cell) ∷ []) (good, tt) in
      let spliced =
        splice_insert_cell-IsLeaf {V = V} leaf_page page header_start low (take pos cells)
          (rowid, cell) (drop pos cells) cut (some_byte.0) (omega arith) in
      Gives-bind _ _ (λ scan. scan ≡ (pos, length cells, bytes_in cells)) _
        ((pos, length cells, bytes_in cells), scanned, refl)
        (λ scan same.
          rw (same, test)
            (Gives-bind _ _ _ _
              (subst
                (λ i.
                  Gives (splice_insert_cell {V = V} page header_start leaf_page i cell)
                    (Spliced page header_start low (take pos cells) (rowid, cell) (drop pos cells)))
                at spliced)
              (λ done what.
                after_splice page low cells rowid cell leaf all ascending good fresh room (done.0)
                  (done.1) what)))
