-- ===== src/Store.antt =====
-- src/store: how zones are kept on disk.
pub mod Filename
pub mod Disk
pub mod Fs
pub mod Calls
pub mod Handle
