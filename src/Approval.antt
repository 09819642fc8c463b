-- ===== src/Approval.antt =====
-- internal/approval: the store of approvals.
pub mod Types
pub mod Store
pub mod Equality
pub mod Lifecycle
pub mod Calls
pub mod SingleUse
