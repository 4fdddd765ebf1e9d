-- ===== src/Btree/Free/Splice.antt =====
-- src/btree.rs: a cell put into a leaf page in place, and one taken out of it. `decode_payload_len` is
-- that of btree/index.rs.
use sqlite_rs.Prelude.{
  ℕ, zero, suc, ◌+◌, ◌-◌, ◌==◌, ltb, leb, not, ◌||◌, min, if◌then◌else◌, Bool, true, false, List,
  [], ◌∷◌, ◌++◌, length, take, drop, replicate, Option, none, some,
}
use sqlite_rs.Prelude.Bytes.{saturating_add, slice_from}
use sqlite_rs.Prelude.Outcome.{Result, ok, ok_or, guard, map_err, ◌>>=◌, ◌>>◌}
use sqlite_rs.Record.Varint.{decode_varint}
use sqlite_rs.Btree.Error.{BtreeError, invalid_cell_pointer, invalid_cell_varint, internal}
use sqlite_rs.Btree.Page.{cell_ptr_offset, read_num_cells, read_cell_pointer, decode_cell_head}
use sqlite_rs.Btree.Payload.{local_payload_size}
use sqlite_rs.Btree.Free.{
  Blocks, min_freeblock_size, remove_at, add_freeblock, put_bytes, write_u16, read_content_start,
  write_content_start, read_fragmented_bytes, write_fragmented_bytes, walk_freeblocks,
  write_freeblock_chain,
}

-- `saturating_add` on u8.
abbrev pub saturating_add_u8 : ℕ → ℕ → ℕ
saturating_add_u8 a b = min (a + b) 255

-- `blocks.iter().position(|&(o, _)| o == offset)`, with the block there.
unfoldable pub position : Blocks → ℕ → Option (ℕ × ℕ × ℕ)
position [] offset = none
position (b ∷ bs) offset =
    if b.0 == offset
    then some (0, b.0, b.1)
    else elim (position bs offset) [ none ↦ none | some (i, o, s) ↦ some (suc i, o, s) ]

-- `while let Some(pos)`: a round takes a block out, so that a round for each block is enough.
unfoldable pub absorb : ℕ → Blocks → ℕ → Blocks × ℕ
absorb zero blocks content_start = (blocks, content_start)
absorb (suc fuel) blocks content_start = elim (position blocks content_start) [
  | none ↦ (blocks, content_start)
  | some (pos, o, size) ↦ absorb fuel (remove_at blocks pos) (saturating_add content_start size)
]

-- `buf[a..b].fill(0)`, where there is such a slice.
unfoldable pub clear : List ℕ → ℕ → ℕ → List ℕ
clear buf a b =
    if leb a b
    then (if leb b (length buf) then take a buf ++ (replicate (b - a) 0 ++ drop b buf) else buf)
    else buf

module _ {V : Type 0} where
  unfoldable pub decode_payload_len : List ℕ → ℕ → ℕ → Result (BtreeError V) (ℕ × ℕ)
  decode_payload_len page offset page_num = do
    cell ← ok_or (slice_from page offset) (invalid_cell_pointer page_num offset)
    read ← map_err (invalid_cell_varint page_num) (decode_varint cell)
    ok (read.0, saturating_add offset (read.1))

  -- `for i in (index..num_cells).rev()`, with the rounds left.
  unfoldable pub shift_up : List ℕ → ℕ → ℕ → ℕ → ℕ → Result (BtreeError V) (List ℕ)
  shift_up buf page_num ptr_base index zero = ok buf
  shift_up buf page_num ptr_base index (suc left) = do
    v ← read_cell_pointer buf (cell_ptr_offset ptr_base (index + left)) page_num (index + left)
    moved ← write_u16 buf (cell_ptr_offset ptr_base (saturating_add (index + left) 1)) v page_num
    shift_up moved page_num ptr_base index left

  -- Where the gap is too small the page comes back as it is, with `false`.
  unfoldable pub splice_insert_cell :
      List ℕ → ℕ → ℕ → ℕ → List ℕ → Result (BtreeError V) (Bool × List ℕ)
  splice_insert_cell buf header_start page_num index cell = do
    num_cells ← read_num_cells buf header_start page_num
    content_start ← read_content_start buf header_start page_num
    (let ptr_base = saturating_add header_start 8 in
        let ptr_end = cell_ptr_offset ptr_base num_cells in
        let new_content_start = content_start - length cell in
        if ltb content_start ptr_end
          || ltb (content_start - ptr_end) (saturating_add (length cell) 2)
        then ok (false, buf)
        else (do
          filled ← put_bytes buf new_content_start cell page_num
          shifted ← shift_up filled page_num ptr_base index (num_cells - index)
          pointed ← write_u16 shifted (cell_ptr_offset ptr_base index) new_content_start page_num
          started ← write_content_start pointed header_start new_content_start page_num
          counted ←
              write_u16 started (saturating_add header_start 3) (saturating_add num_cells 1)
                page_num
          ok (true, counted)))

  -- `for i in index..num_cells - 1`, with the rounds left.
  unfoldable pub shift_down : List ℕ → ℕ → ℕ → ℕ → ℕ → Result (BtreeError V) (List ℕ)
  shift_down buf page_num ptr_base i zero = ok buf
  shift_down buf page_num ptr_base i (suc left) = do
    v ←
        read_cell_pointer buf (cell_ptr_offset ptr_base (saturating_add i 1)) page_num
          (saturating_add i 1)
    moved ← write_u16 buf (cell_ptr_offset ptr_base i) v page_num
    shift_down moved page_num ptr_base (i + 1) left

  -- The length of the payload of the cell, and where it begins.
  unfoldable pub payload_at : List ℕ → ℕ → ℕ → Bool → Result (BtreeError V) (ℕ × ℕ)
  payload_at buf cell_start page_num has_rowid =
      if has_rowid
      then (decode_cell_head buf cell_start page_num >>= (λ head. ok (head.1, head.2)))
      else decode_payload_len buf cell_start page_num

  -- What is done with the range of the cell that was taken out.
  unfoldable pub free_range : List ℕ → ℕ → ℕ → ℕ → ℕ → Result (BtreeError V) (List ℕ)
  free_range buf header_start page_num cell_start cell_end = do
    content_start ← read_content_start buf header_start page_num
    (if cell_start == content_start
        then (do
          blocks ← walk_freeblocks buf header_start page_num
          started ←
              write_content_start buf header_start ((absorb (length blocks) blocks cell_end).1)
                page_num
          write_freeblock_chain started header_start page_num
              ((absorb (length blocks) blocks cell_end).0))
        else if ltb (cell_end - cell_start) min_freeblock_size
        then (do
          frag ← read_fragmented_bytes buf header_start page_num
          write_fragmented_bytes buf header_start (saturating_add_u8 frag (cell_end - cell_start))
              page_num)
        else (do
          blocks ← walk_freeblocks buf header_start page_num
          write_freeblock_chain buf header_start page_num
              (add_freeblock blocks cell_start (cell_end - cell_start))))

  unfoldable pub splice_delete_cell : List ℕ → ℕ → ℕ → ℕ → ℕ → Bool → Result (BtreeError V) (List ℕ)
  splice_delete_cell buf header_start page_num usable_size index has_rowid = do
    num_cells ← read_num_cells buf header_start page_num
    guard (not (leb num_cells index)) (internal [])
    cell_start ←
        read_cell_pointer buf (cell_ptr_offset (saturating_add header_start 8) index) page_num index
    payload ← payload_at buf cell_start page_num has_rowid
    shifted ← shift_down buf page_num (saturating_add header_start 8) index (num_cells - 1 - index)
    counted ← write_u16 shifted (saturating_add header_start 3) (num_cells - 1) page_num
    (let local_size = local_payload_size usable_size (payload.0) (not has_rowid) in
        let cell_end =
          saturating_add (saturating_add (payload.1) local_size)
            (if ltb local_size (payload.0) then 4 else 0) in
        free_range (clear counted cell_start cell_end) header_start page_num cell_start cell_end)
