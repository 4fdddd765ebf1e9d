-- ===== src/Btree/Free.antt =====
-- src/btree.rs: the free blocks of a page, and the splices that put a cell into a leaf page and take
-- one out of it in place. A page comes back changed.
pub mod Blocks
pub mod Positions
pub mod Splice
pub mod Pointers
pub mod Inserted
use sqlite_rs.Prelude.{
  ℕ, zero, suc, ◌+◌, ◌-◌, ◌%◌, ◌^◌, ◌==◌, ltb, leb, not, ◌||◌, min, if◌then◌else◌, Bool, true,
  false, List, [], ◌∷◌, ◌++◌, length, get_elem?, take, drop, replicate, Option, none, some,
}
use sqlite_rs.Prelude.Bytes.{saturating_add, slice, to_be}
use sqlite_rs.Prelude.Outcome.{Result, ok, err, ok_or, guard, ◌>>=◌, ◌>>◌}
use sqlite_rs.Btree.Error.{BtreeError, page_too_short, traversal_too_long, internal}
use sqlite_rs.Btree.Page.{
  u16_from_be, cell_ptr_offset, read_num_cells, read_cell_pointer, decode_cell_head,
}
use sqlite_rs.Btree.Leaf.{end_of_cell}

abbrev pub min_freeblock_size : ℕ
min_freeblock_size = 4

abbrev pub max_freeblocks : ℕ
max_freeblocks = 10000

abbrev pub Blocks : Type 0
Blocks = List (ℕ × ℕ)

-- `Vec::remove` and `Vec::insert`, inside the vector.
unfoldable pub remove_at : Blocks → ℕ → Blocks
remove_at [] i = []
remove_at (b ∷ bs) zero = bs
remove_at (b ∷ bs) (suc i) = b ∷ remove_at bs i

unfoldable pub insert_at : Blocks → ℕ → ℕ × ℕ → Blocks
insert_at bs zero new = new ∷ bs
insert_at [] (suc i) new = new ∷ []
insert_at (b ∷ bs) (suc i) new = b ∷ insert_at bs i new

-- `partition_point` on ascending offsets.
unfoldable pub partition_point : Blocks → ℕ → ℕ
partition_point [] start = 0
partition_point (b ∷ bs) start = if ltb (b.0) start then suc (partition_point bs start) else 0

-- The blocks, the new block, and where it is to go.
abbrev pub Joined : Type 0
Joined = Blocks × ℕ × ℕ × ℕ

-- The block before the new one, where they touch.
unfoldable pub join_prev_at : Blocks → ℕ → ℕ → ℕ → Option (ℕ × ℕ) → Joined
join_prev_at blocks start size pos none = (blocks, start, size, pos)
join_prev_at blocks start size pos (some (prev_off, prev_size)) =
    if saturating_add prev_off prev_size == start
    then (remove_at blocks (pos - 1), prev_off, saturating_add size prev_size, pos - 1)
    else (blocks, start, size, pos)

unfoldable pub join_prev : Blocks → ℕ → ℕ → ℕ → Joined
join_prev blocks start size pos =
    if ltb 0 pos
    then join_prev_at blocks start size pos (get_elem? blocks (pos - 1))
    else (blocks, start, size, pos)

-- The block behind it, where they touch, and the new block put in.
unfoldable pub join_next_at : Blocks → ℕ → ℕ → ℕ → Option (ℕ × ℕ) → Blocks
join_next_at blocks start size pos none = insert_at blocks pos (start, size)
join_next_at blocks start size pos (some (next_off, next_size)) =
    if saturating_add start size == next_off
    then insert_at (remove_at blocks pos) pos (start, saturating_add size next_size)
    else insert_at blocks pos (start, size)

unfoldable pub join_next : Joined → Blocks
join_next (blocks, start, size, pos) = join_next_at blocks start size pos (get_elem? blocks pos)

unfoldable pub add_freeblock : Blocks → ℕ → ℕ → Blocks
add_freeblock blocks start size =
    join_next (join_prev blocks start size (partition_point blocks start))

-- The offset of the first block, or 0.
unfoldable pub first_offset : Blocks → ℕ
first_offset [] = 0
first_offset (b ∷ bs) = b.0

module _ {V : Type 0} where
  -- `put` fails where the bytes do not fit.
  unfoldable pub put_bytes : List ℕ → ℕ → List ℕ → ℕ → Result (BtreeError V) (List ℕ)
  put_bytes buf offset bytes page_num =
      if leb (saturating_add offset (length bytes)) (length buf)
      then ok (take offset buf ++ (bytes ++ drop (offset + length bytes) buf))
      else err (page_too_short page_num (length buf))

  unfoldable pub put_u8 : List ℕ → ℕ → ℕ → ℕ → Result (BtreeError V) (List ℕ)
  put_u8 buf offset value page_num = put_bytes buf offset (value ∷ []) page_num

  unfoldable pub read_u16 : List ℕ → ℕ → ℕ → Result (BtreeError V) ℕ
  read_u16 page offset page_num = do
    bytes ←
        ok_or (slice page offset (saturating_add offset 2)) (page_too_short page_num (length page))
    guard (length bytes == 2) (page_too_short page_num (length page))
    ok (u16_from_be bytes)

  unfoldable pub write_u16 : List ℕ → ℕ → ℕ → ℕ → Result (BtreeError V) (List ℕ)
  write_u16 buf offset value page_num = put_bytes buf offset (to_be 2 (value % 2 ^ 16)) page_num

  unfoldable pub read_content_start : List ℕ → ℕ → ℕ → Result (BtreeError V) ℕ
  read_content_start page header_start page_num = do
    v ← read_u16 page (saturating_add header_start 5) page_num
    ok (if v == 0 then 65536 else v)

  unfoldable pub write_content_start : List ℕ → ℕ → ℕ → ℕ → Result (BtreeError V) (List ℕ)
  write_content_start buf header_start value page_num =
      write_u16 buf (saturating_add header_start 5) (if leb 65536 value then 0 else value) page_num

  unfoldable pub read_first_freeblock : List ℕ → ℕ → ℕ → Result (BtreeError V) ℕ
  read_first_freeblock page header_start page_num =
      read_u16 page (saturating_add header_start 1) page_num

  unfoldable pub read_fragmented_bytes : List ℕ → ℕ → ℕ → Result (BtreeError V) ℕ
  read_fragmented_bytes page header_start page_num =
      ok_or (get_elem? page (saturating_add header_start 7)) (page_too_short page_num (length page))

  unfoldable pub write_fragmented_bytes : List ℕ → ℕ → ℕ → ℕ → Result (BtreeError V) (List ℕ)
  write_fragmented_bytes buf header_start value page_num =
      put_u8 buf (saturating_add header_start 7) value page_num

  -- `while off != 0`, with the blocks that may still be read.
  unfoldable pub walk_from : List ℕ → ℕ → ℕ → ℕ → Result (BtreeError V) Blocks
  walk_from page page_num off zero =
      if off == 0 then ok [] else err (traversal_too_long max_freeblocks)
  walk_from page page_num off (suc left) =
      if off == 0
      then ok []
      else (read_u16 page off page_num >>= (λ next.
          read_u16 page (saturating_add off 2) page_num
          >>= (λ size. walk_from page page_num next left >>= (λ rest. ok ((off, size) ∷ rest)))))

  unfoldable pub walk_freeblocks : List ℕ → ℕ → ℕ → Result (BtreeError V) Blocks
  walk_freeblocks page header_start page_num = do
    off ← read_first_freeblock page header_start page_num
    walk_from page page_num off max_freeblocks

  unfoldable pub write_blocks : List ℕ → ℕ → Blocks → Result (BtreeError V) (List ℕ)
  write_blocks buf page_num [] = ok buf
  write_blocks buf page_num (b ∷ bs) = do
    linked ← write_u16 buf (b.0) (first_offset bs) page_num
    sized ← write_u16 linked (saturating_add (b.0) 2) (b.1) page_num
    write_blocks sized page_num bs

  unfoldable pub write_freeblock_chain : List ℕ → ℕ → ℕ → Blocks → Result (BtreeError V) (List ℕ)
  write_freeblock_chain buf header_start page_num blocks = do
    chained ← write_blocks buf page_num blocks
    write_u16 chained (saturating_add header_start 1) (first_offset blocks) page_num
