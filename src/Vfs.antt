-- ===== src/Vfs.antt =====
-- src/vfs: the file systems under the pager, without that of the operating system.
pub mod Memory
pub mod Durable
mod Runs
