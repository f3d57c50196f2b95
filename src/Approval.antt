-- ===== src/Approval.antt =====
-- crates/yeux-core/src/approval.rs: whether an approval authorizes exactly a prepared invocation.
pub mod Validate
pub mod Binding
