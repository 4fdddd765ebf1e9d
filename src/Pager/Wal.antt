-- ===== src/Pager/Wal.antt =====
-- pager/wal.rs: the write-ahead log.
pub mod Header
pub mod Frames
pub mod Writer
pub mod Commits
pub mod Reads
pub mod Sealed
pub mod RoundTrip
pub mod Log
pub mod Recovery
pub mod Reopen
mod Runs
