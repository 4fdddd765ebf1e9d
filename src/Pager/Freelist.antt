-- ===== src/Pager/Freelist.antt =====
-- pager/freelist.rs: freelist trunk pages, read from and written into a page buffer.
pub mod Layout
pub mod Bounds
pub mod RoundTrip
mod Runs
use sqlite_rs.Prelude.{
  ℕ, zero, suc, ◌+◌, ◌-◌, ◌/◌, ◌%◌, ◌^◌, ◌==◌, leb, min, if◌then◌else◌, List, [], ◌∷◌, ◌++◌, length,
  take, drop,
}
use sqlite_rs.Prelude.Outcome.{Result, ok, err, ok_or, ◌>>=◌}
use sqlite_rs.Prelude.Bytes.{saturating_add, saturating_mul, slice, to_be, from_be}

pub data FreelistError : Type 0 where
  -- offset and length
  page_too_short : ℕ → ℕ → FreelistError

unfoldable pub read_u32 : List ℕ → ℕ → Result FreelistError ℕ
read_u32 buf offset = do
  bytes ← ok_or (slice buf offset (saturating_add offset 4)) (page_too_short offset (length buf))
  if length bytes == 4 then ok (from_be bytes) else err (page_too_short offset (length buf))

-- `slice.copy_from_slice(bytes)` on the part of the buffer from `offset` on.
unfoldable pub overwrite : List ℕ → ℕ → List ℕ → List ℕ
overwrite buf offset bytes = take offset buf ++ (bytes ++ drop (offset + length bytes) buf)

-- The buffer comes back changed.
unfoldable pub write_u32 : List ℕ → ℕ → ℕ → Result FreelistError (List ℕ)
write_u32 buf offset value = do
  old ← ok_or (slice buf offset (saturating_add offset 4)) (page_too_short offset (length buf))
  ok (overwrite buf offset (to_be 4 value))

-- `saturating_sub` is the subtraction that stops at 0.
unfoldable pub max_leaves_per_trunk : ℕ → ℕ
max_leaves_per_trunk page_size = (page_size - 8) / 4

pub record TrunkPage : Type 0 where
  next_trunk : ℕ
  leaves : List ℕ

-- The offset of leaf `i`.
unfoldable pub leaf_offset : ℕ → ℕ
leaf_offset i = saturating_add 8 (saturating_mul i 4)

-- `for i in 0..leaf_count`, `left` rounds before its end.
unfoldable pub parse_leaves : List ℕ → ℕ → ℕ → Result FreelistError (List ℕ)
parse_leaves buf i zero = ok []
parse_leaves buf i (suc left) = do
  leaf ← read_u32 buf (leaf_offset i)
  rest ← parse_leaves buf (i + 1) left
  ok (leaf ∷ rest)

unfoldable pub parse : List ℕ → Result FreelistError TrunkPage
parse buf = do
  next ← read_u32 buf 0
  claimed_count ← read_u32 buf 4
  found ← parse_leaves buf 0 (min claimed_count ((length buf - 8) / 4))
  ok (record { next_trunk = next; leaves = found })

unfoldable pub write_leaves : List ℕ → ℕ → List ℕ → Result FreelistError (List ℕ)
write_leaves buf i [] = ok buf
write_leaves buf i (leaf ∷ rest) = do
  buf' ← write_u32 buf (leaf_offset i) leaf
  write_leaves buf' (i + 1) rest

unfoldable pub zeros : ℕ → List ℕ
zeros zero = []
zeros (suc n) = 0 ∷ zeros n

-- `if let Some(tail) = buf.get_mut(tail_start..) { tail.fill(0) }`
unfoldable pub fill_tail : List ℕ → ℕ → List ℕ
fill_tail buf tail_start =
    if leb tail_start (length buf)
    then take tail_start buf ++ zeros (length buf - tail_start)
    else buf

unfoldable pub write : TrunkPage → List ℕ → Result FreelistError (List ℕ)
write trunk buf = do
  buf1 ← write_u32 buf 0 (trunk.next_trunk)
  buf2 ← write_u32 buf1 4 (length (trunk.leaves) % 2 ^ 32)
  buf3 ← write_leaves buf2 0 (trunk.leaves)
  ok (fill_tail buf3 (saturating_add 8 (saturating_mul (length (trunk.leaves)) 4)))
