-- ===== src/Record/Error.antt =====
-- record/error.rs.
use sqlite_rs.Prelude.{ℕ}

pub data RecordError : Type 0 where
  -- offset
  unexpected_eof : ℕ → RecordError
  -- declared, varint_len
  header_too_short : ℕ → ℕ → RecordError
  -- offset, header_len
  header_overrun : ℕ → ℕ → RecordError
  -- trailing
  trailing_data : ℕ → RecordError
  invalid_utf8 : RecordError
  invalid_utf16 : RecordError
