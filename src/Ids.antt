-- ===== src/Ids.antt =====
-- crates/yeux-core/src/ids.rs: the sources of ids.
pub mod Factory
pub mod Sequences
