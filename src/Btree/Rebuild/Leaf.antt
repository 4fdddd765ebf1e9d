-- ===== src/Btree/Rebuild/Leaf.antt =====
-- src/btree.rs: the layout of a leaf page, from which its cells are collected.
use sqlite_rs.Prelude.{
  ℕ, zero, suc, ◌+◌, ◌*◌, ◌%◌, ◌≤◌, ◌<◌, ◌≡◌, refl, ap, subst, arith, le→leb, List, [], ◌∷◌, ◌++◌,
  length, drop, some, length-append, length-drop,
}
use sqlite_rs.Prelude.Bytes.{saturating_add, slice_from, to_be, length-to_be, from_be-to_be}
use sqlite_rs.Prelude.Outcome.{ok}
use sqlite_rs.Prelude.Int.{ℤ}
use sqlite_rs.Record.Value.{as_signed}
use sqlite_rs.Record.Varint.{decode_varint, decode_loop}
use sqlite_rs.Record.Varint.Input.{decode_varint-append, decode_varint-length}
use sqlite_rs.Btree.Page.{cell_ptr_offset, read_num_cells, read_cell_pointer, decode_cell_head}
use sqlite_rs.Btree.Leaf.{end_of_cell, cell_at, collect_from, collect_leaf_cells}
use sqlite_rs.Btree.Rebuild.Bytes.{Holds, Holds-slice, Holds-slice_from, Holds-length}

-- The bytes of a leaf cell: the length of the payload and the rowid as varints, and what the cell
-- keeps of the payload behind them.
abbrev pub IsCell : ℕ → ℤ × List ℕ → Type 0
IsCell usable_size cell =
    (payload_len n key m : ℕ) × (decode_varint (cell.1) ≡ ok (payload_len, n))
    × (decode_varint (drop n (cell.1)) ≡ ok (key, m))
    × (as_signed 63 key ≡ cell.0)
    × (end_of_cell usable_size payload_len (n + m) ≡ length (cell.1))

abbrev pub AllCells : ℕ → List (ℤ × List ℕ) → Type 0
AllCells usable_size [] = Unit {0}
AllCells usable_size (cell ∷ cells) = IsCell usable_size cell × AllCells usable_size cells

-- The pointers from an offset on lead to the cells, none of which starts below `low`.
abbrev pub Points : List ℕ → ℕ → ℕ → List (ℤ × List ℕ) → Type 0
Points page at low [] = Unit {0}
Points page at low (cell ∷ cells) =
    (start : ℕ) × Holds page at (to_be 2 start)
    × Holds page start (cell.1)
    × (low ≤ start)
    × (start < 65536)
    × Points page (at + 2) low cells

-- A page with a header of this length and these cells, all behind `low`, where the content begins.
abbrev pub IsLayout : List ℕ → ℕ → ℕ → ℕ → List (ℤ × List ℕ) → Type 0
IsLayout page header_start header_len low cells =
    (length page ≤ 65536)
    × Holds page (header_start + 3) (to_be 2 (length cells))
    × Holds page (header_start + 5) (to_be 2 (low % 65536))
    × (header_start + header_len + 2 * length cells ≤ low)
    × (low ≤ length page)
    × Points page (header_start + header_len) low cells

abbrev pub IsLeaf : List ℕ → ℕ → ℕ → List (ℤ × List ℕ) → Type 0
IsLeaf page header_start low cells = IsLayout page header_start 8 low cells

-- No cell is empty.
abbrev pub Solid : List (ℤ × List ℕ) → Type 0
Solid [] = Unit {0}
Solid (cell ∷ cells) = (0 < length (cell.1)) × Solid cells

nonempty : (bytes : List ℕ) (v n : ℕ) → decode_varint bytes ≡ ok (v, n) → 0 < length bytes
unfolding decode_varint decode_loop
nonempty [] v n e = absurd (cc)
nonempty (b ∷ bytes) v n e = omega arith

pub AllCells-Solid :
    (usable_size : ℕ) (cells : List (ℤ × List ℕ)) → AllCells usable_size cells → Solid cells
AllCells-Solid usable_size [] all = tt
AllCells-Solid usable_size (cell ∷ cells)
      ((payload_len, n, key, m, first, second, rowid, ends), all) =
    (nonempty (cell.1) payload_len n first, AllCells-Solid usable_size cells all)

drop-append_of_le : (n : ℕ) (xs ys : List ℕ) → n ≤ length xs → drop n (xs ++ ys) ≡ drop n xs ++ ys
drop-append_of_le zero xs ys h = refl
drop-append_of_le (suc n) [] ys h = absurd (omega arith)
drop-append_of_le (suc n) (x ∷ xs) ys h = drop-append_of_le n xs ys (omega arith)

slice_from-append_of_le :
    (n : ℕ) (xs ys : List ℕ) → n ≤ length xs → slice_from (xs ++ ys) n ≡ some (drop n xs ++ ys)
unfolding slice_from
slice_from-append_of_le n xs ys h =
    rw
      (
        le→leb n (length (xs ++ ys)) (omega (arith, length-append xs ys)),
        drop-append_of_le n xs ys h,
      )
      refl

-- The end of a cell moves with its start.
end_of_cell-add :
    (usable_size payload_len start tail size : ℕ)
    → end_of_cell usable_size payload_len tail ≡ size
    → start + size ≤ 65536
    → end_of_cell usable_size payload_len (start + tail) ≡ start + size
unfolding end_of_cell
end_of_cell-add usable_size payload_len start tail size e small = ground arith

module _ {V : Type 0} (page : List ℕ) (page_num usable_size : ℕ) where
  pub read_cell_pointer-held :
      (at i v : ℕ)
      → Holds page at (to_be 2 v)
      → v < 65536
      → at < 65536
      → read_cell_pointer {V = V} page at page_num i ≡ ok v
  unfolding read_cell_pointer
  read_cell_pointer-held at i v h small low =
      rw
        (
          Holds-slice page at (to_be 2 v) (saturating_add at 2) h (omega (arith, length-to_be 2 v)),
          length-to_be 2 v,
          from_be-to_be 2 v,
        )
        (ap ok (omega arith))

  pub read_num_cells-held :
      (header_start v : ℕ)
      → Holds page (header_start + 3) (to_be 2 v)
      → v < 65536
      → header_start < 65536
      → read_num_cells {V = V} page header_start page_num ≡ ok v
  unfolding read_num_cells
  read_num_cells-held header_start v h small low =
      let same : saturating_add header_start 3 ≡ header_start + 3 = omega arith in
      rw
        (
          same,
          Holds-slice page (header_start + 3) (to_be 2 v) (saturating_add header_start 5) h
              (omega (arith, length-to_be 2 v)),
          length-to_be 2 v,
          from_be-to_be 2 v,
        )
        (ap ok (omega arith))

  decode_cell_head-held :
      (start : ℕ) (cell : ℤ × List ℕ) (payload_len n key m : ℕ)
      → Holds page start (cell.1)
      → decode_varint (cell.1) ≡ ok (payload_len, n)
      → decode_varint (drop n (cell.1)) ≡ ok (key, m)
      → as_signed 63 key ≡ cell.0
      → start + (n + m) ≤ 65536
      → decode_cell_head {V = V} page start page_num ≡ ok (cell.0, payload_len, start + (n + m))
  unfolding decode_cell_head
  decode_cell_head-held start cell payload_len n key m h first second rowid small =
      let (back, found) = Holds-slice_from page start (cell.1) h in
      let inside = decode_varint-length (cell.1) payload_len n first in
      let rest = slice_from-append_of_le n (cell.1) back inside in
      let first' = decode_varint-append (cell.1) back payload_len n first in
      let second' = decode_varint-append (drop n (cell.1)) back key m second in
      let sum : saturating_add (saturating_add start n) m ≡ start + (n + m) = omega arith in
      rw (found, first', rest, second', rowid, sum) refl

  pub cell_at-held :
      (ptr_base i start : ℕ) (cell : ℤ × List ℕ) (payload_len n key m : ℕ)
      → Holds page (ptr_base + 2 * i) (to_be 2 start)
      → start < 65536
      → ptr_base + 2 * i < 65536
      → Holds page start (cell.1)
      → decode_varint (cell.1) ≡ ok (payload_len, n)
      → decode_varint (drop n (cell.1)) ≡ ok (key, m)
      → as_signed 63 key ≡ cell.0
      → start + (n + m) ≤ 65536
      → cell_at {V = V} page page_num usable_size ptr_base i
        ≡ ok (cell.0, start, payload_len, start + (n + m))
  unfolding cell_at cell_ptr_offset
  cell_at-held ptr_base i start cell payload_len n key m pointed small low h first second rowid
        fits =
      let same : cell_ptr_offset ptr_base i ≡ ptr_base + 2 * i = omega arith in
      rw
        (
          same,
          read_cell_pointer-held (ptr_base + 2 * i) i start pointed small low,
          decode_cell_head-held start cell payload_len n key m h first second rowid fits,
        )
        refl

  collect_from-Points :
      (ptr_base i low : ℕ) (cells : List (ℤ × List ℕ))
      → length page ≤ 65536
      → ptr_base + 2 * i + 2 * length cells ≤ low
      → low ≤ length page
      → Points page (ptr_base + 2 * i) low cells
      → AllCells usable_size cells
      → collect_from {V = V} page page_num usable_size ptr_base i (length cells) ≡ ok cells
  unfolding collect_from
  collect_from-Points ptr_base i low [] small room inside points all = refl
  collect_from-Points ptr_base i low (cell ∷ cells) small room inside points all =
      let (start, pointed, stands, above, below, more) = points in
      let (payload_len, n, key, m, first, second, rowid, ends) = all.0 in
      let reach = Holds-length page start (cell.1) stands in
      let heads : n + m ≤ length (cell.1) = omega (
        arith,
        decode_varint-length (cell.1) payload_len n first,
        decode_varint-length (drop n (cell.1)) key m second,
        length-drop n (cell.1),
      ) in
      let here =
        cell_at-held ptr_base i start cell payload_len n key m pointed below (omega arith) stands
          first second rowid (omega arith) in
      let body =
        Holds-slice page start (cell.1) (end_of_cell usable_size payload_len (start + (n + m)))
          stands
          (end_of_cell-add usable_size payload_len start (n + m) (length (cell.1)) ends
            (omega arith)) in
      let along : ptr_base + 2 * i + 2 ≡ ptr_base + 2 * (i + 1) = omega arith in
      let rest =
        collect_from-Points ptr_base (i + 1) low cells small (omega arith) inside
          (subst (λ at. Points page at low cells) along more) (all.1) in
      rw (here, body, rest) refl

  -- The cells of a leaf page that is laid out so are collected.
  pub collect_leaf_cells-IsLeaf :
      (header_start low : ℕ) (cells : List (ℤ × List ℕ))
      → IsLeaf page header_start low cells
      → AllCells usable_size cells
      → collect_leaf_cells {V = V} page page_num usable_size header_start ≡ ok cells
  unfolding collect_leaf_cells
  collect_leaf_cells-IsLeaf header_start low cells leaf all =
      let (small, counted, started, room, inside, points) = leaf in
      let count =
        read_num_cells-held header_start (length cells) counted (omega arith) (omega arith) in
      let base : saturating_add header_start 8 ≡ header_start + 8 = omega arith in
      let zeroth : header_start + 8 ≡ header_start + 8 + 2 * 0 = omega arith in
      rw (count, base)
        (collect_from-Points (header_start + 8) 0 low cells small (omega arith) inside
          (subst (λ at. Points page at low cells) zeroth points) all)
