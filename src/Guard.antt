-- ===== src/Guard.antt =====
-- internal/guard: the tool policies, the static and the intent guard, the risk engine and the
-- pipeline that joins them.
pub mod Catalog
pub mod Intent
pub mod Risk
pub mod Static
pub mod Pipeline
pub mod Verdicts
pub mod Loading
pub mod Scores
