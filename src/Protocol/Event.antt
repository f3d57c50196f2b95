-- ===== src/Protocol/Event.antt =====
-- crates/yeux-protocol/src/event.rs, and the protocol version of jsonrpc.rs and lib.rs.
use yeu_xharness.Base.{ℕ, Bool, ◌&&◌, Option, Str, leb, nat_ord, ◌==◌}
use yeu_xharness.Protocol.Ids.{
  AgentId, CausationId, EventId, InvocationId, JobId, ModelRequestId, ThreadId, TurnId, WorkspaceId,
  DateTime,
}
use yeu_xharness.Protocol.Domain.{Item, Thread, Turn, TurnState, Workspace, WorkspaceTrust}
use yeu_xharness.Protocol.Tool.{
  EffectSet, Idempotency, InvocationState, ReconciliationEvidence, ReconciliationOutcome,
}
use yeu_xharness.Protocol.Job.{AgentResult, AgentSpawnSpec, JobSpec, JobState}
use yeu_xharness.Protocol.Model.{ModelEvent}

pub record ProtocolVersion : Type 0 where
  pub major : ℕ
  pub minor : ℕ

abbrev pub accepts : ProtocolVersion → ProtocolVersion → Bool
accepts self peer = self.major == peer.major && leb peer.minor self.minor

pub data Event : Type 0 where
  workspace_opened : Workspace → Event
  workspace_trust_changed : WorkspaceId → WorkspaceTrust → Event
  thread_started thread_forked : Thread → Event
  thread_archived : ThreadId → Event
  turn_started : Turn → Event
  turn_state_changed : TurnId → (from to : TurnState) → Option Str → Event
  turn_steered : TurnId → Str → Event
  item_added : Item → Event
  model_requested : ModelRequestId → Event
  model_stream_event : ModelRequestId → ModelEvent → Event
  invocation_proposed :
      InvocationId
      → (call_id tool_id tool_version normalized_arguments_digest : Str) → EffectSet
      → (effect_digest : Str) → Idempotency
      → Event
  invocation_state_changed : InvocationId → (from to : InvocationState) → Option Str → Event
  invocation_reconciled : InvocationId → ReconciliationOutcome → ReconciliationEvidence → Event
  job_created : JobSpec → Event
  job_state_changed : JobId → (from to : JobState) → Event
  agent_spawned : AgentSpawnSpec → Event
  agent_completed : AgentResult → Event
  runtime_diagnostic : (code message : Str) → Bool → Event

pub record EventEnvelope : Type 0 where
  pub schema_version : ProtocolVersion
  pub event_id : EventId
  pub thread_id : ThreadId
  pub turn_id : Option TurnId
  pub agent_id : AgentId
  pub seq : ℕ
  pub time : DateTime
  pub causation_id : Option CausationId
  pub event : Event
