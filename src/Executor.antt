-- ===== src/Executor.antt =====
-- internal/executor: the nonces, the validator and the executor of signed envelopes.
pub mod Nonce
pub mod Validator
pub mod Execute
pub mod Checks
pub mod Authority
pub mod Replay
pub mod Targets
pub mod Targeted
