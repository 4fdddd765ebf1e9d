-- ===== src/Btree/Insert/Split.antt =====
-- src/btree/table/insert.rs: a leaf page that is split shares its cells with the new page.
use sqlite_rs.Prelude.{
  ℕ, zero, suc, ◌+◌, ◌-◌, ◌*◌, ◌/◌, ◌≤◌, ◌<◌, ◌≡◌, refl, ap, subst, arith, false, List, [], ◌∷◌,
  ◌++◌, length, take, drop, some, take-append-drop, length-take, length-drop,
}
use sqlite_rs.Prelude.Outcome.{ok, ok_or, Gives, Gives-bind}
use sqlite_rs.Prelude.Int.{ℤ}
use sqlite_rs.Btree.Error.{internal}
use sqlite_rs.Btree.Leaf.{collect_leaf_cells}
use sqlite_rs.Btree.Leaf.Scans.{has_rowid, before, bytes_in}
use sqlite_rs.Btree.Rebuild.Leaf.{
  IsCell, AllCells, AllCells-Solid, IsLeaf, collect_leaf_cells-IsLeaf,
}
use sqlite_rs.Btree.Rebuild.RoundTrip.{write_leaf_page-IsLeaf}
use sqlite_rs.Btree.Insert.{with_cell, last_rowid, split_leaf}
use sqlite_rs.Btree.Insert.Page.{
  Above, Ascending, AllCells-with_cell, Ascending-with_cell, length-with_cell,
}

AllCells-take :
    (usable_size n : ℕ) (cells : List (ℤ × List ℕ))
    → AllCells usable_size cells
    → AllCells usable_size (take n cells)
AllCells-take usable_size zero cells all = tt
AllCells-take usable_size (suc n) [] all = tt
AllCells-take usable_size (suc n) (cell ∷ cells) (here, all) =
    (here, AllCells-take usable_size n cells all)

AllCells-drop :
    (usable_size n : ℕ) (cells : List (ℤ × List ℕ))
    → AllCells usable_size cells
    → AllCells usable_size (drop n cells)
AllCells-drop usable_size zero cells all = all
AllCells-drop usable_size (suc n) [] all = tt
AllCells-drop usable_size (suc n) (cell ∷ cells) (here, all) = AllCells-drop usable_size n cells all

-- The last rowid of a front that has one is below what follows.
last_rowid-Above :
    (low : ℤ) (n : ℕ) (cells : List (ℤ × List ℕ))
    → n < length cells
    → Above low cells
    → (rowid : ℤ) × (last_rowid (take (suc n) cells) ≡ some rowid)
      × Above rowid (drop (suc n) cells)
unfolding last_rowid
last_rowid-Above low n [] few above = absurd (omega arith)
last_rowid-Above low zero (cell ∷ cells) few above = (cell.0, refl, above.1)
last_rowid-Above low (suc n) (cell ∷ []) few above = absurd (omega arith)
last_rowid-Above low (suc n) (cell ∷ (next ∷ cells)) few above =
    last_rowid-Above (cell.0) n (next ∷ cells) (omega arith) (above.1)

last_rowid-Ascending :
    (n : ℕ) (cells : List (ℤ × List ℕ))
    → n < length cells
    → Ascending cells
    → (rowid : ℤ) × (last_rowid (take (suc n) cells) ≡ some rowid)
      × Above rowid (drop (suc n) cells)
unfolding last_rowid
last_rowid-Ascending n [] few above = absurd (omega arith)
last_rowid-Ascending zero (cell ∷ cells) few above = (cell.0, refl, above)
last_rowid-Ascending (suc n) (cell ∷ []) few above = absurd (omega arith)
last_rowid-Ascending (suc n) (cell ∷ (next ∷ cells)) few above =
    last_rowid-Above (cell.0) n (next ∷ cells) (omega arith) above

-- The two pages hold the front and the back of the cells, and the divider is the last rowid before
-- the back.
abbrev pub Halves :
    (V : Type 0) (usable_size leaf_page header_start right_page : ℕ)
    → List (ℤ × List ℕ)
    → List ℕ × List ℕ × ℤ
    → Type 0
Halves V usable_size leaf_page header_start right_page cells (left, right, divider) =
    (front back : List (ℤ × List ℕ)) × (front ++ back ≡ cells)
    × (collect_leaf_cells {V = V} left leaf_page usable_size header_start ≡ ok front)
    × (collect_leaf_cells {V = V} right right_page usable_size 0 ≡ ok back)
    × (last_rowid front ≡ some divider)
    × Above divider back
    × (length back ≤ length front)
    × (length front ≤ suc (length back))

module _ {V : Type 0} (usable_size leaf_page header_start : ℕ) where
  -- A leaf page with ascending rowids that is split with a new cell, whose rowid is not on it, leaves
  -- two pages with the cells in the order of their rowids, the new one among them: half of them each, the odd one on
  -- the left, with the greatest rowid of the left as the divider. Each half is to find room on its
  -- page.
  pub split_leaf-Halves :
      (page right_buf : List ℕ) (right_page low : ℕ) (cells : List (ℤ × List ℕ)) (rowid : ℤ)
      (cell : List ℕ)
      → IsLeaf page header_start low cells
      → AllCells usable_size cells
      → Ascending cells
      → IsCell usable_size (rowid, cell)
      → has_rowid rowid cells ≡ false
      → length right_buf ≤ 65536
      → header_start
          + 8
          + 2 * ((length cells + 2) / 2)
          + bytes_in
              (take ((length cells + 2) / 2) (with_cell cells (before rowid cells) (rowid, cell)))
        ≤ length page
      → 8
          + 2 * ((length cells + 1) / 2)
          + bytes_in
              (drop ((length cells + 2) / 2) (with_cell cells (before rowid cells) (rowid, cell)))
        ≤ length right_buf
      → Gives
          (split_leaf {V = V} usable_size leaf_page header_start page right_buf right_page
            (before rowid cells)
            (rowid, cell))
          (Halves V usable_size leaf_page header_start right_page
            (with_cell cells (before rowid cells) (rowid, cell)))
  unfolding split_leaf
  split_leaf-Halves page right_buf right_page low cells rowid cell leaf all ascending good fresh
        fits_right room_left room_right =
      let pos : ℕ = before rowid cells in
      let after = with_cell cells pos (rowid, cell) in
      let size = length-with_cell cells pos (rowid, cell) in
      let n : ℕ = (length cells + 2) / 2 in
      let half : (length after + 1) / 2 ≡ n = omega arith in
      let n' : ℕ = length cells / 2 in
      let n_suc : suc n' ≡ n = omega arith in
      let left_size : length (take n after) ≡ n = omega (arith, length-take n after) in
      let right_size = length-drop n after in
      let good_after = AllCells-with_cell usable_size cells pos (rowid, cell) all good in
      let good_left = AllCells-take usable_size n after good_after in
      let good_right = AllCells-drop usable_size n after good_after in
      let found_last =
        subst (λ n. (d : ℤ) × (last_rowid (take n after) ≡ some d) × Above d (drop n after)) n_suc
          (last_rowid-Ascending n' after (omega arith)
            (Ascending-with_cell cells rowid cell fresh ascending)) in
      Gives-bind _ _ (λ found. found ≡ cells) _
        (
          cells,
          collect_leaf_cells-IsLeaf {V = V} page leaf_page usable_size header_start low cells leaf
              all,
          refl,
        )
        (λ found same.
          rw (same, half)
            (Gives-bind _ _ (λ d. (last_rowid (take n after) ≡ some d) × Above d (drop n after)) _
              (
                found_last.0,
                ap (λ o. ok_or o (internal [])) (found_last.1),
                (found_last.1, found_last.2),
              )
              (λ divider last.
                Gives-bind _ _ _ _
                  (write_leaf_page-IsLeaf {V = V} leaf_page page header_start (take n after)
                    (leaf.0) (omega arith) (AllCells-Solid usable_size (take n after) good_left))
                  (λ left done1.
                    Gives-bind _ _ _ _
                      (write_leaf_page-IsLeaf {V = V} right_page right_buf 0 (drop n after)
                        fits_right (omega arith)
                        (AllCells-Solid usable_size (drop n after) good_right))
                      (λ right done2. (
                        (left, right, divider),
                        refl,
                        (
                          take n after,
                          drop n after,
                          take-append-drop n after,
                          collect_leaf_cells-IsLeaf {V = V} left leaf_page usable_size header_start
                              (length page - bytes_in (take n after)) (take n after) (done1.2)
                              good_left,
                          collect_leaf_cells-IsLeaf {V = V} right right_page usable_size 0
                              (length right_buf - bytes_in (drop n after)) (drop n after) (done2.2)
                              good_right,
                          last.0,
                          last.1,
                          omega arith,
                          omega arith,
                        ),
                      ))))))
