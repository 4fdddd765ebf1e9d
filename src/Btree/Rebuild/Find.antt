-- ===== src/Btree/Rebuild/Find.antt =====
-- src/btree.rs: the cell that `find_leaf_cell` finds on a leaf page, and its first overflow page.
use sqlite_rs.Prelude.{
  ℕ, ◌+◌, ◌-◌, ◌*◌, ◌≤◌, ◌≡◌, refl, sym, ap, subst, arith, ltb, if◌then◌else◌, false, Bool-cases,
  inl, inr, List, [], ◌∷◌, ◌++◌, length, take, drop, Option, none, some, take-append-drop,
  length-take, length-drop,
}
use sqlite_rs.Prelude.Bytes.{saturating_add}
use sqlite_rs.Prelude.Outcome.{ok, Gives}
use sqlite_rs.Prelude.Int.{ℤ}
use sqlite_rs.Record.Varint.{decode_varint}
use sqlite_rs.Record.Varint.Input.{decode_varint-length}
use sqlite_rs.Btree.Page.{u32_from_be, read_u32}
use sqlite_rs.Btree.Payload.{local_payload_size}
use sqlite_rs.Btree.Leaf.{eq_ℤ, end_of_cell, overflow_of, find_from, find_leaf_cell}
use sqlite_rs.Btree.Leaf.Scans.{has_rowid}
use sqlite_rs.Btree.Rebuild.Bytes.{Holds, Holds-slice, Holds-split, Holds-length}
use sqlite_rs.Btree.Rebuild.Leaf.{AllCells, Points, IsLeaf, read_num_cells-held, cell_at-held}

-- The overflow page of a cell: the number in its last four bytes, where the payload is longer than
-- what a cell keeps of it, and 0 else.
abbrev pub OverflowsTo : ℕ → List ℕ → ℕ → Type 0
OverflowsTo usable_size bytes overflow_page =
    (payload_len n : ℕ) × (decode_varint bytes ≡ ok (payload_len, n))
    × (if ltb (local_payload_size usable_size payload_len false) payload_len
        then (overflow_page ≡ u32_from_be (drop (length bytes - 4) bytes))
        else (overflow_page ≡ 0))

module _ (usable_size : ℕ) where
  -- The first cell with the rowid: its place behind `i`, the number of cells, and its overflow page;
  -- none where no cell has the rowid.
  abbrev pub Finds : ℕ → ℕ → List (ℤ × List ℕ) → ℤ → Option (ℕ × ℕ × ℕ) → Type 0
  Finds i num_cells cells rowid none = has_rowid rowid cells ≡ false
  Finds i num_cells cells rowid (some (pos, n, overflow_page)) =
      (n ≡ num_cells)
      × ((front back : List (ℤ × List ℕ)) × (bytes : List ℕ) × (front ++ ((rowid, bytes) ∷ back)
            ≡ cells)
          × (i + length front ≡ pos)
          × (has_rowid rowid front ≡ false)
          × OverflowsTo usable_size bytes overflow_page)

  Finds-cons :
      (i num_cells : ℕ) (cell : ℤ × List ℕ) (cells : List (ℤ × List ℕ)) (rowid : ℤ)
      (answer : Option (ℕ × ℕ × ℕ))
      → eq_ℤ (cell.0) rowid ≡ false
      → Finds (i + 1) num_cells cells rowid answer
      → Finds i num_cells (cell ∷ cells) rowid answer
  unfolding has_rowid
  Finds-cons i num_cells cell cells rowid none other finds = rw (other, finds) refl
  Finds-cons i num_cells cell cells rowid (some (pos, n, overflow_page)) other
        (same, (front, back, bytes, whole, place, fresh, overflows)) =
      (
        same,
        (
          cell ∷ front,
          back,
          bytes,
          ap (λ t. cell ∷ t) whole,
          omega arith,
          rw (other, fresh) refl,
          overflows,
        ),
      )

module _ {V : Type 0} (page : List ℕ) (page_num usable_size : ℕ) where
  read_u32-last :
      (start at : ℕ) (bytes : List ℕ)
      → Holds page start bytes
      → at + 4 ≡ start + length bytes
      → 4 ≤ length bytes
      → length page ≤ 65536
      → read_u32 {V = V} page at page_num ≡ ok (u32_from_be (drop (length bytes - 4) bytes))
  unfolding read_u32
  read_u32-last start at bytes held ends long small =
      let front = take (length bytes - 4) bytes in
      let last = drop (length bytes - 4) bytes in
      let whole =
        subst (λ b. Holds page start b) (sym (take-append-drop (length bytes - 4) bytes)) held in
      let (before, four) = Holds-split page start front last whole in
      let here : start + length front ≡ at = omega (arith, length-take (length bytes - 4) bytes) in
      let width : length last ≡ 4 = omega (arith, length-drop (length bytes - 4) bytes) in
      let found = subst (λ a. Holds page a last) here four in
      let reach = Holds-length page start bytes held in
      rw (Holds-slice page at last (saturating_add at 4) found (omega arith), width) refl

  overflow_of-held :
      (start : ℕ) (bytes : List ℕ) (payload_len n m : ℕ)
      → Holds page start bytes
      → decode_varint bytes ≡ ok (payload_len, n)
      → end_of_cell usable_size payload_len (n + m) ≡ length bytes
      → length page ≤ 65536
      → (overflow_page : ℕ) × (overflow_of {V = V} page page_num usable_size payload_len
            (start + (n + m))
          ≡ ok overflow_page)
        × OverflowsTo usable_size bytes overflow_page
  unfolding overflow_of end_of_cell
  overflow_of-held start bytes payload_len n m held first ends small =
      let local : ℕ = local_payload_size usable_size payload_len false in
      let reach = Holds-length page start bytes held in
      elim (Bool-cases (ltb local payload_len)) [
        | inl over ↦ (
          u32_from_be (drop (length bytes - 4) bytes),
          rw over (
              read_u32-last start (saturating_add (start + (n + m)) local) bytes held
                (ground (arith, over, ends)) (ground (arith, over, ends)) small),
          (payload_len, n, first, rw over refl),
        )
        | inr whole ↦ (0, rw whole refl, (payload_len, n, first, rw whole refl))
      ]

  find_from-Points :
      (ptr_base i low num_cells : ℕ) (cells : List (ℤ × List ℕ)) (rowid : ℤ)
      → length page ≤ 65536
      → ptr_base + 2 * i + 2 * length cells ≤ low
      → low ≤ length page
      → Points page (ptr_base + 2 * i) low cells
      → AllCells usable_size cells
      → Gives
          (find_from {V = V} page page_num usable_size ptr_base num_cells rowid i (length cells))
          (Finds usable_size i num_cells cells rowid)
  unfolding find_from has_rowid
  find_from-Points ptr_base i low num_cells [] rowid small room inside points all =
      (none, refl, refl)
  find_from-Points ptr_base i low num_cells (cell ∷ cells) rowid small room inside
        (start, pointed, stands, above, below, more)
        ((payload_len, n, key, m, first, second, read, ends), all) =
      let reach = Holds-length page start (cell.1) stands in
      let heads : n + m ≤ length (cell.1) = omega (
        arith,
        decode_varint-length (cell.1) payload_len n first,
        decode_varint-length (drop n (cell.1)) key m second,
        length-drop n (cell.1),
      ) in
      let here =
        cell_at-held {V = V} page page_num usable_size ptr_base i start cell payload_len n key m
          pointed below (omega arith) stands first second read (omega arith) in
      let along : ptr_base + 2 * i + 2 ≡ ptr_base + 2 * (i + 1) = omega arith in
      elim (Bool-cases (eq_ℤ (cell.0) rowid)) [
        | inl same ↦
            let (overflow_page, number, overflows) =
              overflow_of-held start (cell.1) payload_len n m stands first ends small in
            let rowid_same : cell.0 ≡ rowid = ground (arith, same) in
            (
              some (i, num_cells, overflow_page),
              rw (here, same, number) refl,
              (
                refl,
                (
                  [],
                  cells,
                  cell.1,
                  ap (λ r. (r, cell.1) ∷ cells) (sym rowid_same),
                  omega arith,
                  refl,
                  overflows,
                ),
              ),
            )
        | inr other ↦
            let (answer, found, finds) =
              find_from-Points ptr_base (i + 1) low num_cells cells rowid small (omega arith) inside
                (subst (λ at. Points page at low cells) along more) all in
            (
              answer,
              rw (here, other) found,
              Finds-cons usable_size i num_cells cell cells rowid answer other finds,
            )
      ]

  -- On a leaf page `find_leaf_cell` finds the first cell with the rowid, its place, and the first page
  -- of its overflow chain, the number in the cell's last four bytes or 0 where it keeps the whole
  -- payload, and none where no cell has the rowid.
  pub find_leaf_cell-Finds :
      (header_start low : ℕ) (cells : List (ℤ × List ℕ)) (rowid : ℤ)
      → IsLeaf page header_start low cells
      → AllCells usable_size cells
      → Gives
          (find_leaf_cell {V = V} page page_num usable_size header_start rowid)
          (Finds usable_size 0 (length cells) cells rowid)
  unfolding find_leaf_cell
  find_leaf_cell-Finds header_start low cells rowid leaf all =
      let (small, counted, started, room, inside, points) = leaf in
      let count =
        read_num_cells-held {V = V} page page_num 0 header_start (length cells) counted
          (omega arith) (omega arith) in
      let base : saturating_add header_start 8 ≡ header_start + 8 = omega arith in
      let zeroth : header_start + 8 ≡ header_start + 8 + 2 * 0 = omega arith in
      rw (count, base)
        (find_from-Points (header_start + 8) 0 low (length cells) cells rowid small (omega arith)
          inside (subst (λ at. Points page at low cells) zeroth points) all)
