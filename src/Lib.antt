-- ===== src/Lib.antt =====
-- YeuX Harness: a local agent runtime. A daemon (crates/yeuxd) runs the turns of an agent. A model
-- proposes tool invocations; the policy of crates/yeux-core decides on their effects, an approval
-- binds what was shown to the user, and every step is an event of a ledger, from which a projection
-- is rebuilt. This library models the core: the decisions, the two state machines, the approvals with
-- their digests, the replay, and the ledger that stores the events.
--
-- Base: shared names, Boolean tests, lists, the order that Rust's `Ord` and `str` give, maps and sets
-- as association lists and lists in that order (BTreeMap, BTreeSet), and results with `?` as a do
-- block.
-- Protocol: crates/yeux-protocol/src. Ids are native numbers, texts are lists of bytes, instants are
-- numbers. A structure of the source is a record, an enumeration a data type with its variants.
-- Policy: crates/yeux-core/src/policy.rs in Scopes (intersect_exact_scopes, path_contains,
-- intersect_path_scopes), Grants (intersect_grants) and Evaluate (evaluate_policy), and
-- crates/yeuxd/src/grants.rs in Layers (resolve_grant_layers). Meet says what a grant permits by
-- itself, which the decision is compared with; the other modules hold the proofs.
-- Turn: crates/yeux-core/src/agent.rs. Machine has can_transition_turn and AgentTurnMachine, Graph
-- one step, Traces sequences of actions.
-- Invocation: crates/yeux-core/src/invocation.rs. Machine has the transitions and InvocationMachine,
-- Traces and Recovery sequences of requests.
-- Digest: crates/yeux-core/src/digest.rs. Approval: crates/yeux-core/src/approval.rs.
-- Projection: crates/yeux-core/src/projection.rs. State, Entities, Turns, Invocations and Apply are
-- the code: an arm of Projection::apply is a function from the projection to a new one or an error,
-- and Apply.apply pairs the projection with the result, as a method that mutates and may fail does.
-- The other modules are about logs that replay. It uses the tables of Turn and Invocation.
-- Ledger: crates/yeux-runtime/src/ledger.rs. Types, Errors and Store are the tables and the statements
-- on them, Append has append, append_batch and import, Receipts the writes of commands, Read the
-- replays, Outcomes, History, Scope and Checked the typed writes of invocations, Envelope the
-- conversions, the event store and project_core (which runs Projection's replay), View the untyped
-- projection. A table is a list with the newest row first; a write takes a ledger to a ledger and an
-- outcome, and transact rolls back what failed. Journal has any sequence of writes (Growth, Writes,
-- Committed and Guarded prepare it), Commands, Threads, Core, Repeats and Settlement what follows
-- from it.
-- ToolCalls: crates/yeuxd/src/tool_calls.rs. Assembler has ToolCallAssembler::push and finish, Budgets
-- what holds of the deltas of a round, until one is refused.
-- Ids: crates/yeux-core/src/ids.rs, the sequence generator and the factory. Artifact: the digests and
-- URIs of crates/yeux-runtime/src/artifact.rs.
-- Tests: concrete inputs.
--
-- Parameters stand for code outside the repository: the texts that serde_json gives to numbers and
-- strings, SHA-256 in hexadecimal, the derived serialization (Digest.Canonical.Codec,
-- Approval.Validate.Serialize, the digest of an effect set in Projection), what `from_str` parses
-- (ToolCalls.Assembler), what the url crate parses (Artifact), the version of a UUID (Ids), and all
-- that the ledger needs of serde, chrono and uuid (Ledger.Serde; what they document is IsFaithful in
-- Ledger.Roundtrip and IsTagged in Ledger.Settled). SQL is written as SQLite documents it:
-- constraints, the largest number of a table, ORDER BY and LIMIT, 64-bit integers with a sign, and
-- transactions that commit whole or not at all. A row keeps the values that were written; the schema
-- version, the time, the payload and the response stand in it as texts, and reading one gives what
-- Ledger.Serde's reread_version, reread_time and reread_json give, which may be another value (as of
-- a float) or an error (as of a payload that nests too deeply). Where a theorem needs more it says
-- so: IsKeptInput, IsKeptReceipt and IsKeptRow (read back as written), IsReadable (read back as JSON
-- that decodes to the same event). `Path::components` is written as its documentation
-- gives it for Unix. No recursion needs fuel: all of it is structural. Sequence numbers of the
-- projection and the counters of ToolCalls wrap at 2 ^ 64, as a `u64` does in a release build; the
-- ledger stops at the largest `i64`.
--
-- Not modelled: the rest of crates/yeux-runtime (file system, artifacts on disk, processes, sandbox,
-- providers), the ledger's files, locks, text search and failures of the disk, the orchestration in
-- crates/yeuxd besides grants.rs and tool_calls.rs, the message shapes of the protocol, and the
-- TypeScript packages. They are input and output or asynchronous glue around this core.
pub mod Base
pub mod Protocol
pub mod Policy
pub mod Turn
pub mod Invocation
pub mod Digest
pub mod Approval
pub mod Projection
pub mod Ledger
pub mod ToolCalls
pub mod Ids
pub mod Artifact
pub mod Tests
