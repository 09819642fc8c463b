-- ===== src/Quarantine.antt =====
-- internal/rollback/quarantine.go: moving a file into the quarantine and back.
pub mod Files
pub mod Manager
pub mod Restore
pub mod Kept
pub mod Quarantined
pub mod Restored
pub mod Recovered
pub mod Rounds
