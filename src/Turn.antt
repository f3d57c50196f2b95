-- ===== src/Turn.antt =====
-- crates/yeux-core/src/agent.rs: the life of a turn.
pub mod Machine
pub mod Graph
pub mod Traces
