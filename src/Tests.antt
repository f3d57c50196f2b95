-- ===== src/Tests.antt =====
-- Concrete inputs and the theorems at them.
pub mod Policies
pub mod Turns
pub mod Invocations
pub mod Approvals
pub mod Replays
pub mod Deltas
pub mod Ledgers
pub mod Outcomes
pub mod Artifacts
