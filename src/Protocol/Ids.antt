-- ===== src/Protocol/Ids.antt =====
-- crates/yeux-protocol/src/ids.rs. A UUID is the number that its 128 bits spell, so the order of the
-- numbers is the order of the ids. Instants are counted from a fixed start.
use yeu_xharness.Base.{ℕ, Str}

abbrev pub Uuid : Type 0
Uuid = ℕ

abbrev pub EventId : Type 0
EventId = Uuid

abbrev pub WorkspaceId : Type 0
WorkspaceId = Uuid

abbrev pub ThreadId : Type 0
ThreadId = Uuid

abbrev pub TurnId : Type 0
TurnId = Uuid

abbrev pub ItemId : Type 0
ItemId = Uuid

abbrev pub InvocationId : Type 0
InvocationId = Uuid

abbrev pub JobId : Type 0
JobId = Uuid

abbrev pub AgentRunId : Type 0
AgentRunId = Uuid

abbrev pub ModelRequestId : Type 0
ModelRequestId = Uuid

abbrev pub ApprovalId : Type 0
ApprovalId = Uuid

abbrev pub AgentId : Type 0
AgentId = Str

abbrev pub CausationId : Type 0
CausationId = Str

abbrev pub DateTime : Type 0
DateTime = ℕ
