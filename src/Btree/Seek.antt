-- ===== src/Btree/Seek.antt =====
-- src/btree.rs: `TableCursor::seek`, a search from the root with a binary search in every page.
pub mod Search
pub mod Frames
pub mod Tree
pub mod Rows
pub mod Found
use Prim.Native.Nat.{compare, Ordering}
use sqlite_rs.Prelude.{
  ℕ, zero, suc, ◌+◌, ◌-◌, ◌/◌, ◌==◌, ltb, if◌then◌else◌, Bool, true, false, List, Option, none,
  some,
}
use sqlite_rs.Prelude.Bytes.{saturating_add, slice_from}
use sqlite_rs.Prelude.Outcome.{Result, ok, err, ok_or, map_err, ◌>>=◌, ◌>>◌}
use sqlite_rs.Prelude.Int.{ℤ, pos_part, neg_part}
use sqlite_rs.Record.Value.{as_signed}
use sqlite_rs.Record.Varint.{decode_varint}
use sqlite_rs.Btree.Error.{
  BtreeError, invalid_cell_pointer, invalid_cell_varint, unexpected_page_type, traversal_too_long,
}
use sqlite_rs.Btree.Page.{
  leaf_table, interior_table, max_pages_visited, page1_header_start, cell_ptr_offset,
  read_page_type, read_num_cells, require_interior_header, read_u32, read_cell_pointer,
  decode_cell_head, fetch,
}
use sqlite_rs.Btree.Cursor.{TableCursor}

-- `a.cmp(&b)` on i64.
abbrev pub cmp : ℤ → ℤ → Ordering
cmp a b = compare (pos_part a + neg_part b) (pos_part b + neg_part a)

unfoldable pub middle : ℕ → ℕ → ℕ
middle lo hi = saturating_add lo ((hi - lo) / 2)

-- What one page of the search comes to.
pub data Probe : Type 0 where
  found : ℤ × ℕ × ℕ → Probe
  absent : Probe
  below : ℕ → Probe

unfoldable pub probe_of : Option (ℤ × ℕ × ℕ) → Probe
probe_of none = absent
probe_of (some head) = found head

module _ {V : Type 0} where
  -- `while lo < hi` on a leaf, whose cells `cell` reads; a round for each cell is enough.
  unfoldable pub search_leaf :
      (ℕ → Result (BtreeError V) (ℤ × ℕ × ℕ))
      → ℤ
      → ℕ
      → ℕ
      → ℕ
      → Result (BtreeError V) (Option (ℤ × ℕ × ℕ))
  search_leaf cell target zero lo hi = ok none
  search_leaf cell target (suc fuel) lo hi = elim (ltb lo hi) [
    | false ↦ ok none
    | true ↦ cell (middle lo hi) >>= (λ head. elim (cmp (head.0) target) [
      | Ordering.eq ↦ ok (some head)
      | Ordering.lt ↦ search_leaf cell target fuel (saturating_add (middle lo hi) 1) hi
      | Ordering.gt ↦ search_leaf cell target fuel lo (middle lo hi)
    ])
  ]

  -- `while lo < hi` on an interior page: `entry` reads the key of a cell and where the cell starts,
  -- `child` the page number at such a start.
  unfoldable pub search_child :
      (ℕ → Result (BtreeError V) (ℤ × ℕ))
      → (ℕ → Result (BtreeError V) ℕ)
      → ℤ
      → ℕ
      → ℕ
      → ℕ
      → ℕ
      → Result (BtreeError V) ℕ
  search_child entry child target zero lo hi next_page = ok next_page
  search_child entry child target (suc fuel) lo hi next_page = elim (ltb lo hi) [
    | false ↦ ok next_page
    | true ↦ entry (middle lo hi) >>= (λ found. elim (cmp target (found.0)) [
      | Ordering.gt ↦
          search_child entry child target fuel (saturating_add (middle lo hi) 1) hi next_page
      | _ ↦
          child (found.1)
          >>= (λ below. search_child entry child target fuel lo (middle lo hi) below)
    ])
  ]

  unfoldable pub leaf_cell_at : List ℕ → ℕ → ℕ → ℕ → Result (BtreeError V) (ℤ × ℕ × ℕ)
  leaf_cell_at page page_num cell_ptr_base i = do
    cell_start ← read_cell_pointer page (cell_ptr_offset cell_ptr_base i) page_num i
    decode_cell_head page cell_start page_num

  unfoldable pub interior_key_at : List ℕ → ℕ → ℕ → ℕ → Result (BtreeError V) (ℤ × ℕ)
  interior_key_at page page_num cell_ptr_base i = do
    cell_start ← read_cell_pointer page (cell_ptr_offset cell_ptr_base i) page_num i
    key_bytes ←
        ok_or (slice_from page (saturating_add cell_start 4)) (invalid_cell_pointer page_num i)
    key ← map_err (invalid_cell_varint page_num) (decode_varint key_bytes)
    ok (as_signed 63 (key.0), cell_start)

  unfoldable pub probe_leaf : ℤ → ℕ → List ℕ → ℕ → Result (BtreeError V) Probe
  probe_leaf target page_num page num_cells = do
    hit ←
        search_leaf (leaf_cell_at page page_num (saturating_add (page1_header_start page_num) 8))
          target num_cells 0 num_cells
    ok (probe_of hit)

  unfoldable pub probe_interior : ℤ → ℕ → List ℕ → ℕ → Result (BtreeError V) Probe
  probe_interior target page_num page num_cells = do
    enough ← require_interior_header page (page1_header_start page_num) page_num
    rightmost ← read_u32 page (saturating_add (page1_header_start page_num) 8) page_num
    next_page ←
        search_child
          (interior_key_at page page_num (saturating_add (page1_header_start page_num) 12))
          (λ cell_start. read_u32 page cell_start page_num) target num_cells 0 num_cells rightmost
    ok (below next_page)

  unfoldable pub probe_page : ℤ → ℕ → List ℕ → Result (BtreeError V) Probe
  probe_page target page_num page = do
    page_type ← read_page_type page (page1_header_start page_num) page_num
    num_cells ← read_num_cells page (page1_header_start page_num) page_num
    (if page_type == leaf_table
        then probe_leaf target page_num page num_cells
        else if page_type == interior_table
        then probe_interior target page_num page num_cells
        else err (unexpected_page_type page_num page_type))

module _ {V : Type 0} where
  -- The cursor that the search leaves, and its result.
  unfoldable pub settle_seek :
      TableCursor
      → Result (BtreeError V) (Option (ℤ × ℕ × ℕ × ℕ × List ℕ))
      → TableCursor × Result (BtreeError V) (Option ℤ)
  settle_seek c (err e) = (record c { current = none }, err e)
  settle_seek c (ok none) = (record c { current = none }, ok none)
  settle_seek c (ok (some (rowid, payload_len, tail_start, page_num, page))) = (
    record c {
      current = some (record {
        page = page;
        page_num = page_num;
        tail_start = tail_start;
        payload_len = payload_len;
      });
    },
    ok (some rowid),
  )

module _ {V : Type 0} (source : ℕ → Result V (List ℕ)) where
  -- `loop`, with the page visits that are left; the cell found, with its page.
  unfoldable pub seek_loop : ℤ → ℕ → ℕ → Result (BtreeError V) (Option (ℤ × ℕ × ℕ × ℕ × List ℕ))
  seek_loop target zero page_num = err (traversal_too_long max_pages_visited)
  seek_loop target (suc visits) page_num = fetch source page_num >>= (λ page.
      probe_page target page_num page >>= (λ probe. elim probe [
        | found (rowid, payload_len, tail_start) ↦
            ok (some (rowid, payload_len, tail_start, page_num, page))
        | absent ↦ ok none
        | below next_page ↦ seek_loop target visits next_page
      ]))

  unfoldable pub seek : TableCursor → ℤ → TableCursor × Result (BtreeError V) (Option ℤ)
  seek c target = settle_seek c (seek_loop target max_pages_visited (c.root_page))
