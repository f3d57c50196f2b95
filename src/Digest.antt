-- ===== src/Digest.antt =====
-- crates/yeux-core/src/digest.rs: canonical JSON and the digests that bind an approval. Hashing, the
-- text of a number and of a string, and the derived serialization are the arguments of a record.
pub mod Canonical
pub mod Order
