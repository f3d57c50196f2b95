-- ===== src/Ledger.antt =====
-- crates/yeux-runtime/src/ledger.rs: the append-only ledger of events.
pub mod Types
pub mod Errors
pub mod Store
pub mod Append
pub mod Read
pub mod Receipts
pub mod Serde
pub mod Outcomes
pub mod History
pub mod Scope
pub mod Checked
pub mod Growth
pub mod Writes
pub mod Committed
pub mod Guarded
pub mod Journal
pub mod Commands
pub mod Numbered
pub mod Threads
pub mod Envelope
pub mod View
pub mod Roundtrip
pub mod Core
pub mod Batches
pub mod Settled
pub mod Finished
pub mod Settlement
pub mod Stored
pub mod Repeats
