-- ===== src/Btree/Rebuild.antt =====
-- src/btree.rs: a page rebuilt from its cells, and the cells of an interior page.
pub mod Bytes
pub mod Leaf
pub mod Keeps
pub mod Written
pub mod RoundTrip
pub mod Interior
pub mod Find
use sqlite_rs.Prelude.{
  ℕ, ◌+◌, ◌-◌, ◌%◌, ◌^◌, ltb, leb, not, if◌then◌else◌, List, [], ◌∷◌, ◌++◌, length, take, map,
  replicate,
}
use sqlite_rs.Prelude.Bytes.{saturating_add, saturating_mul, to_be}
use sqlite_rs.Prelude.Outcome.{Result, ok, guard, ◌>>=◌, ◌>>◌}
use sqlite_rs.Prelude.Int.{ℤ}
use sqlite_rs.Record.Value.{as_unsigned}
use sqlite_rs.Record.Varint.{encode_varint}
use sqlite_rs.Btree.Error.{BtreeError, page_too_short}
use sqlite_rs.Btree.Page.{leaf_table, interior_table}
use sqlite_rs.Btree.Free.{put_bytes, put_u8}

unfoldable pub build_interior_cell : ℕ → ℤ → List ℕ
build_interior_cell child key = to_be 4 (child % 2 ^ 32) ++ encode_varint (as_unsigned 64 key)

unfoldable pub cell_bytes {ℓ} : {K : Type ℓ} → List (K × List ℕ) → List (List ℕ)
cell_bytes [] = []
cell_bytes (cell ∷ cells) = cell.1 ∷ cell_bytes cells

-- An offset on the page as a u16, where 65536 is written as 0.
abbrev pub as_u16 : ℕ → ℕ
as_u16 offset = if leb 65536 offset then 0 else offset % 2 ^ 16

module _ {V : Type 0} where
  -- `for cell in cells.iter().rev()`: the page, `content_end`, and the offsets in the cells' order.
  unfoldable pub place_cells :
      List ℕ → ℕ → List (List ℕ) → Result (BtreeError V) (List ℕ × ℕ × List ℕ)
  place_cells buf page_num [] = ok (buf, length buf, [])
  place_cells buf page_num (cell ∷ cells) = do
    placed ← place_cells buf page_num cells
    page ← put_bytes (placed.0) (placed.1 - length cell) cell page_num
    ok (page, placed.1 - length cell, (placed.1 - length cell) ∷ placed.2)

  -- `for (i, off) in ptr_offsets.iter().enumerate()`
  unfoldable pub write_pointers : List ℕ → ℕ → ℕ → ℕ → List ℕ → Result (BtreeError V) (List ℕ)
  write_pointers buf page_num ptr_base i [] = ok buf
  write_pointers buf page_num ptr_base i (off ∷ offs) = do
    page ←
        put_bytes buf (saturating_add ptr_base (saturating_mul i 2)) (to_be 2 (as_u16 off)) page_num
    write_pointers page page_num ptr_base (i + 1) offs

  -- `buf[header_start..].fill(0)`
  unfoldable pub cleared : List ℕ → ℕ → ℕ → Result (BtreeError V) (List ℕ)
  cleared buf header_start page_num = do
    guard (not (ltb (length buf) header_start)) (page_too_short page_num (length buf))
    ok (take header_start buf ++ replicate (length buf - header_start) 0)

  unfoldable pub write_page_common :
      List ℕ → ℕ → ℕ → ℕ → ℕ → List (List ℕ) → Result (BtreeError V) (List ℕ)
  write_page_common buf header_start page_num page_type header_len cells = do
    zeroed ← cleared buf header_start page_num
    typed ← put_u8 zeroed header_start page_type page_num
    placed ← place_cells typed page_num cells
    pointed ←
        write_pointers (placed.0) page_num (saturating_add header_start header_len) 0 (placed.2)
    counted ←
        put_bytes pointed (saturating_add header_start 3) (to_be 2 (length cells % 2 ^ 16)) page_num
    started ←
        put_bytes counted (saturating_add header_start 5) (to_be 2 (as_u16 (placed.1))) page_num
    put_u8 started (saturating_add header_start 7) 0 page_num

  unfoldable pub write_leaf_page : List ℕ → ℕ → ℕ → List (List ℕ) → Result (BtreeError V) (List ℕ)
  write_leaf_page buf header_start page_num cells =
      write_page_common buf header_start page_num leaf_table 8 cells

  unfoldable pub write_interior_page :
      List ℕ → ℕ → ℕ → List (List ℕ) → ℕ → Result (BtreeError V) (List ℕ)
  write_interior_page buf header_start page_num cells rightmost = do
    page ← write_page_common buf header_start page_num interior_table 12 cells
    put_bytes page (saturating_add header_start 8) (to_be 4 (rightmost % 2 ^ 32)) page_num
