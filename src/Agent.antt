-- ===== src/Agent.antt =====
-- internal/agent: the bookkeeping of the runtime.
pub mod Reducer
pub mod Budget
pub mod Scope
pub mod Scoped
pub mod Mentions
pub mod Mentioned
