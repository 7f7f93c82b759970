-- ===== src/Gates.antt =====
-- src/industrial_agent_runtime/gates.py: the deterministic gates before execution.
pub mod Policy
pub mod Pipeline
pub mod Static
pub mod Reservation
pub mod Budget
pub mod SideEffect
pub mod Authorize
pub mod Reconcile
