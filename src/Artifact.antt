-- ===== src/Artifact.antt =====
-- crates/yeux-runtime/src/artifact.rs: the names of artifacts. Reading and writing files is left out.
pub mod Uri
pub mod Canonical
