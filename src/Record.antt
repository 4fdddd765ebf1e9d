-- ===== src/Record.antt =====
-- src/record: the record format of the rows.
pub mod Error
pub mod Varint
pub mod Value
pub mod Collation
pub mod Encode
pub mod Decode
pub mod Walk
pub mod Integers
pub mod Columns
pub mod Layout
pub mod RoundTrip
pub mod Inversion
pub mod Agree
pub mod Single
pub mod Progress
mod Runs
