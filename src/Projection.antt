-- ===== src/Projection.antt =====
-- crates/yeux-core/src/projection.rs: the projections that replaying the ledger rebuilds.
pub mod State
pub mod Entities
pub mod Turns
pub mod Invocations
pub mod Apply
pub mod Frames
pub mod Accepted
pub mod TurnChange
pub mod TurnLaws
pub mod TurnHistory
pub mod Sequence
pub mod InvocationChange
pub mod InvocationHistory
pub mod Executions
pub mod Rejected
