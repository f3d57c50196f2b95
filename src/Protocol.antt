-- ===== src/Protocol.antt =====
-- crates/yeux-protocol: the types that the wire, the ledger and the core share.
pub mod Ids
pub mod Json
pub mod Domain
pub mod Tool
pub mod Job
pub mod Model
pub mod Event
