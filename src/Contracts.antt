-- ===== src/Contracts.antt =====
-- contracts/: the proposals, decisions and signed envelopes that the parts exchange.
pub mod Action
pub mod Snapshot
pub mod Hex
pub mod Envelope
pub mod Sealed
