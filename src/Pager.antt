-- ===== src/Pager.antt =====
-- src/header.rs and src/pager: the formats of the first page, the freelist, and the logs.
pub mod Freelist
pub mod Header
pub mod Journal
pub mod Wal
