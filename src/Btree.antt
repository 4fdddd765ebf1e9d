-- ===== src/Btree.antt =====
-- src/btree.rs: table b-trees, read and searched page by page.
pub mod Error
pub mod Page
pub mod Cursor
pub mod Seek
pub mod Payload
pub mod Interior
mod Runs
pub mod Leaf
pub mod Free
pub mod Rebuild
pub mod Insert
