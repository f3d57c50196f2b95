-- ===== src/Policy.antt =====
-- crates/yeux-core/src/policy.rs: grants, their intersection and the decision on an effect set.
pub mod Scopes
pub mod Grants
pub mod Evaluate
pub mod Exact
pub mod Paths
pub mod Meet
pub mod Decision
pub mod Layers
pub mod Authority
pub mod Ceiling
pub mod Identity
