-- ===== src/Verification.antt =====
-- src/industrial_agent_runtime/verification.py: what a result passes before it is ingested.
pub mod Run
pub mod References
pub mod Provenance
pub mod Deltas
pub mod Outcome
