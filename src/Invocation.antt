-- ===== src/Invocation.antt =====
-- crates/yeux-core/src/invocation.rs: the life of a tool invocation and its recovery.
pub mod Machine
pub mod Recovery
pub mod Traces
