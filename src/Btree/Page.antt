-- ===== src/Btree/Page.antt =====
-- src/btree.rs: the header fields and the cells of a b-tree page. A page is the list of its bytes.
use sqlite_rs.Prelude.{ℕ, ◌%◌, ◌^◌, ◌==◌, ltb, not, if◌then◌else◌, List, length, get_elem?}
use sqlite_rs.Prelude.Bytes.{saturating_add, saturating_mul, slice, slice_from, from_be}
use sqlite_rs.Prelude.Outcome.{Result, ok, ok_or, guard, map_err, ◌>>=◌, ◌>>◌}
use sqlite_rs.Prelude.Int.{ℤ}
use sqlite_rs.Record.Value.{as_signed}
use sqlite_rs.Record.Varint.{decode_varint}
use sqlite_rs.Btree.Error.{
  BtreeError, page_source, page_too_short, invalid_cell_pointer, invalid_cell_varint,
  payload_too_short,
}

abbrev pub leaf_table : ℕ
leaf_table = 0x0d

abbrev pub interior_table : ℕ
interior_table = 0x05

abbrev pub max_payload_len : ℕ
max_payload_len = 2147483647

abbrev pub max_pages_visited : ℕ
max_pages_visited = 1000000

-- `u16::from_be_bytes` and `u32::from_be_bytes`
abbrev pub u16_from_be : List ℕ → ℕ
u16_from_be bytes = from_be bytes % 2 ^ 16

abbrev pub u32_from_be : List ℕ → ℕ
u32_from_be bytes = from_be bytes % 2 ^ 32

unfoldable pub page1_header_start : ℕ → ℕ
page1_header_start page_num = if page_num == 1 then 100 else 0

-- The offset of entry `i` of the cell pointers.
unfoldable pub cell_ptr_offset : ℕ → ℕ → ℕ
cell_ptr_offset base i = saturating_add base (saturating_mul i 2)

module _ {V : Type 0} where
  unfoldable pub read_page_type : List ℕ → ℕ → ℕ → Result (BtreeError V) ℕ
  read_page_type page header_start page_num =
      ok_or (get_elem? page header_start) (page_too_short page_num (length page))

  -- A slice of the right length always turns into an array.
  unfoldable pub read_num_cells : List ℕ → ℕ → ℕ → Result (BtreeError V) ℕ
  read_num_cells page header_start page_num = do
    bytes ←
        ok_or (slice page (saturating_add header_start 3) (saturating_add header_start 5))
          (page_too_short page_num (length page))
    guard (length bytes == 2) (page_too_short page_num (length page))
    ok (u16_from_be bytes)

  unfoldable pub require_interior_header : List ℕ → ℕ → ℕ → Result (BtreeError V) (Unit {0})
  require_interior_header page header_start page_num =
      guard (not (ltb (length page) (saturating_add header_start 12)))
        (page_too_short page_num (length page))

  unfoldable pub read_u32 : List ℕ → ℕ → ℕ → Result (BtreeError V) ℕ
  read_u32 page offset page_num = do
    bytes ←
        ok_or (slice page offset (saturating_add offset 4)) (page_too_short page_num (length page))
    guard (length bytes == 4) (page_too_short page_num (length page))
    ok (u32_from_be bytes)

  unfoldable pub read_cell_pointer : List ℕ → ℕ → ℕ → ℕ → Result (BtreeError V) ℕ
  read_cell_pointer page ptr_off page_num cell_index = do
    bytes ←
        ok_or (slice page ptr_off (saturating_add ptr_off 2))
          (invalid_cell_pointer page_num cell_index)
    guard (length bytes == 2) (invalid_cell_pointer page_num cell_index)
    ok (u16_from_be bytes)

  -- The rowid, the length of the payload, and where the payload begins.
  unfoldable pub decode_cell_head : List ℕ → ℕ → ℕ → Result (BtreeError V) (ℤ × ℕ × ℕ)
  decode_cell_head page cell_start page_num = do
    cell ← ok_or (slice_from page cell_start) (invalid_cell_pointer page_num cell_start)
    first ← map_err (invalid_cell_varint page_num) (decode_varint cell)
    rest ← ok_or (slice_from cell (first.1)) (payload_too_short page_num)
    second ← map_err (invalid_cell_varint page_num) (decode_varint rest)
    ok (
      as_signed 63 (second.0),
      first.0,
      saturating_add (saturating_add cell_start (first.1)) (second.1),
    )

  -- `source.read_page(page_num)` with its error wrapped.
  unfoldable pub fetch :
      (source : ℕ → Result V (List ℕ)) (page_num : ℕ) → Result (BtreeError V) (List ℕ)
  fetch source page_num = map_err (page_source page_num) (source page_num)
