-- ===== src/Trace.antt =====
-- internal/trace/trace.go: the chained events of a task and their redaction.
pub mod Redaction
pub mod Chain
pub mod Clean
pub mod Extension
pub mod Append
pub mod Restored
pub mod Continued
pub mod Appended
