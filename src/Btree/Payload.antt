-- ===== src/Btree/Payload.antt =====
-- src/btree.rs: how much of a payload a cell keeps, and the chain of overflow pages for the rest. The
-- set of the pages visited is a list.
pub mod Whole
use sqlite_rs.Prelude.{
  ℕ, zero, suc, ◌+◌, ◌-◌, ◌/◌, ◌%◌, ◌==◌, ltb, leb, min, max, not, ◌||◌, if◌then◌else◌, Bool, true,
  false, List, [], ◌∷◌, ◌++◌, length, take, drop, Option, none, some,
}
use sqlite_rs.Prelude.Bytes.{saturating_add, saturating_mul, slice, slice_from}
use sqlite_rs.Prelude.Outcome.{Result, ok, err, ok_or, guard, ◌>>=◌, ◌>>◌}
use sqlite_rs.Btree.Error.{
  BtreeError, page_too_short, payload_too_short, payload_too_large, overflow_chain_too_long,
  overflow_chain_cycle, overflow_chain_truncated, cursor_not_positioned, current_payload_call,
}
use sqlite_rs.Btree.Page.{max_payload_len, max_pages_visited, u32_from_be, read_u32, fetch}
use sqlite_rs.Btree.Cursor.{TableCursor, CurrentCell}

-- What the page has room for, and what it keeps at the least.
unfoldable pub max_local : ℕ → Bool → ℕ
max_local usable_size is_index =
    if is_index then saturating_mul (usable_size - 12) 64 / 255 - 23 else usable_size - 35

unfoldable pub min_local : ℕ → ℕ
min_local usable_size = saturating_mul (usable_size - 12) 32 / 255 - 23

unfoldable pub local_payload_size : ℕ → ℕ → Bool → ℕ
local_payload_size usable_size payload_len is_index =
    let denom = max (usable_size - 4) 1 in
    let k =
      saturating_add (min_local usable_size) ((payload_len - min_local usable_size) % denom) in
    if leb payload_len (max_local usable_size is_index)
    then payload_len
    else if leb k (max_local usable_size is_index)
    then k
    else min_local usable_size

pub data Payload : Type 0 where
  -- page, start and len
  local : List ℕ → ℕ → ℕ → Payload
  owned : List ℕ → Payload

-- `seen.contains(&page_num)`
abbrev pub contains : List ℕ → ℕ → Bool
contains [] p = false
contains (q ∷ seen) p = (q == p) || contains seen p

module _ {V : Type 0} where
  unfoldable pub first_overflow_page :
      List ℕ → ℕ → ℕ → ℕ → ℕ → Bool → Result (BtreeError V) (Option ℕ)
  first_overflow_page buf tail_start payload_len usable_size page_num is_index =
      let local_size = local_payload_size usable_size payload_len is_index in
      if ltb local_size payload_len
      then (read_u32 buf (saturating_add tail_start local_size) page_num
          >>= (λ first. ok (some first)))
      else ok none

  -- The three tests before a page of the chain is read, with the reads that are left.
  unfoldable pub may_read : ℕ → ℕ → List ℕ → ℕ → Result (BtreeError V) (Unit {0})
  may_read page_num overflow_page seen hops =
      guard (not (overflow_page == 0)) (overflow_chain_truncated page_num)
      >> guard (not (contains seen overflow_page)) (overflow_chain_cycle page_num overflow_page)
      >> guard (not (hops == 0)) (overflow_chain_too_long page_num max_pages_visited)

module _ {V : Type 0} (source : ℕ → Result V (List ℕ)) where
  -- The number of the next page, and the bytes that this one has.
  unfoldable pub read_overflow : ℕ → ℕ → Result (BtreeError V) (ℕ × List ℕ)
  read_overflow overflow_page taken = do
    page ← fetch source overflow_page
    next ← read_u32 page 0 overflow_page
    chunk ←
        ok_or (slice page 4 (saturating_add 4 taken)) (page_too_short overflow_page (length page))
    ok (next, chunk)

  -- `while remaining > 0`; the last number counts the reads that are left, and with none left the
  -- tests end the loop.
  unfoldable pub overflow_loop : ℕ → ℕ → ℕ → ℕ → List ℕ → List ℕ → ℕ → Result (BtreeError V) Payload
  overflow_loop page_num available remaining overflow_page seen result zero =
      if remaining == 0
      then ok (owned result)
      else (may_read page_num overflow_page seen 0
          >> err (overflow_chain_too_long page_num max_pages_visited))
  overflow_loop page_num available remaining overflow_page seen result (suc hops) =
      if remaining == 0
      then ok (owned result)
      else (may_read page_num overflow_page seen (hops + 1)
          >> (read_overflow overflow_page (min remaining available) >>= (λ read.
              overflow_loop page_num available (remaining - min remaining available) (read.0)
                (overflow_page ∷ seen) (result ++ read.1) hops)))

  -- What follows the first overflow page's number, which `at` bytes of the payload stand before.
  unfoldable pub follow_chain : ℕ → ℕ → ℕ → ℕ → List ℕ → List ℕ → Result (BtreeError V) Payload
  follow_chain usable_size page_num payload_len at cell_tail local_bytes = do
    bytes ← ok_or (slice cell_tail at (saturating_add at 4)) (payload_too_short page_num)
    overflow_loop page_num (max (usable_size - 4) 1) (payload_len - at) (u32_from_be bytes) []
        local_bytes max_pages_visited

  unfoldable pub reassemble_rest :
      ℕ → ℕ → List ℕ → ℕ → ℕ → ℕ → List ℕ → Result (BtreeError V) Payload
  reassemble_rest usable_size page_num page tail_start payload_len local_size cell_tail = do
    local_bytes ← ok_or (slice cell_tail 0 local_size) (payload_too_short page_num)
    (if local_size == payload_len
        then ok (local page tail_start local_size)
        else follow_chain usable_size page_num payload_len local_size cell_tail local_bytes)

  unfoldable pub reassemble_payload : ℕ → ℕ → List ℕ → ℕ → ℕ → Bool → Result (BtreeError V) Payload
  reassemble_payload usable_size page_num page tail_start payload_len is_index = do
    sized ← guard (not (ltb max_payload_len payload_len)) (payload_too_large page_num payload_len)
    cell_tail ← ok_or (slice_from page tail_start) (payload_too_short page_num)
    reassemble_rest usable_size page_num page tail_start payload_len
        (local_payload_size usable_size payload_len is_index) cell_tail

  unfoldable pub current_payload : TableCursor → Result (BtreeError V) Payload
  current_payload c = ok_or (c.current) (cursor_not_positioned current_payload_call) >>= (λ cur.
      reassemble_payload (c.usable_size) (cur.page_num) (cur.page) (cur.tail_start)
        (cur.payload_len) false)

-- `Deref for Payload`
unfoldable pub bytes_of : Payload → List ℕ
bytes_of (local page start len) = take len (drop start page)
bytes_of (owned bytes) = bytes
