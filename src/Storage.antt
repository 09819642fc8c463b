-- ===== src/Storage.antt =====
-- internal/storage: sessions and tasks in files, with worker leases and a journal.
pub mod FileStore
pub mod Leases
pub mod Fencing
pub mod Recovery
