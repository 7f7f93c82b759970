-- ===== src/Batch.antt =====
-- The work batches of src/industrial_agent_runtime/coordinator.py: `_request_supported`,
-- `_validate_batch` and `_batch`.
pub mod Waves
pub mod Preflight
