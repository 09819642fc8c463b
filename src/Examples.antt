-- ===== src/Examples.antt =====
-- Concrete inputs of the theorems.
mod Guarding
mod Sealing
mod Approving
mod Executing
mod Running
mod Storing
mod Tracing
mod Quarantining
mod Observing
mod Serving
mod Targeting
