-- ===== src/Btree/Error.antt =====
-- btree/error.rs, without the constructor for an error of the pager. `V` is the error of the page
-- source, which is one constructor's `source` field in Rust.
use sqlite_rs.Prelude.{ℕ, List}
use sqlite_rs.Prelude.Int.{ℤ}
use sqlite_rs.Record.Error.{RecordError}

-- The calls that want a cursor to be positioned.
pub data Operation : Type 0 where
  prev_call current_payload_call : Operation

pub data BtreeError (V : Type 0) : Type 0 where
  -- page_num and source
  page_source : ℕ → V → BtreeError V
  -- page_num and len
  page_too_short : ℕ → ℕ → BtreeError V
  cursor_not_positioned : Operation → BtreeError V
  -- page_num and page_type
  unexpected_page_type : ℕ → ℕ → BtreeError V
  -- page_num and index
  invalid_cell_pointer : ℕ → ℕ → BtreeError V
  invalid_cell_varint : ℕ → RecordError → BtreeError V
  payload_too_short : ℕ → BtreeError V
  -- page_num and payload_len
  payload_too_large : ℕ → ℕ → BtreeError V
  -- page_num and max
  overflow_chain_too_long : ℕ → ℕ → BtreeError V
  -- page_num and revisited_page
  overflow_chain_cycle : ℕ → ℕ → BtreeError V
  overflow_chain_truncated : ℕ → BtreeError V
  -- max
  traversal_too_long : ℕ → BtreeError V
  duplicate_rowid : ℤ → BtreeError V
  -- page_num and child
  missing_child_route : ℕ → ℕ → BtreeError V
  rowid_not_found : ℤ → BtreeError V
  duplicate_key : BtreeError V
  key_not_found : BtreeError V
  -- name and rootpage
  invalid_root_page : List ℕ → ℤ → BtreeError V
  master_entry_not_found : List ℕ → BtreeError V
  internal : List ℕ → BtreeError V
  invalid_key_record : RecordError → BtreeError V
