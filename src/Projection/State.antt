-- ===== src/Projection/State.antt =====
-- The projection and the errors of a replay. An error names an entity by its id, where the source
-- prints it.
use yeu_xharness.Base.{ℕ, List, [], Option, Str}
use yeu_xharness.Base.Map.{Map}
use yeu_xharness.Protocol.Ids.{
  AgentId, AgentRunId, EventId, InvocationId, ItemId, JobId, ModelRequestId, ThreadId, TurnId, Uuid,
  WorkspaceId,
}
use yeu_xharness.Protocol.Domain.{Item, Thread, Turn, TurnState, Workspace}
use yeu_xharness.Protocol.Tool.{EffectSet, Idempotency, InvocationState, ReconciliationEvidence}
use yeu_xharness.Protocol.Job.{AgentResult, JobSpec, JobState}
use yeu_xharness.Protocol.Model.{ModelEvent}

pub record ProjectedInvocation : Type 0 where
  pub invocation_id : InvocationId
  pub thread_id : ThreadId
  pub turn_id : TurnId
  pub agent_id : AgentId
  pub call_id : Str
  pub tool_id : Str
  pub tool_version : Str
  pub normalized_arguments_digest : Str
  pub effects : EffectSet
  pub effect_digest : Str
  pub idempotency : Idempotency
  pub state : InvocationState
  pub reason : Option Str
  pub reconciliation : Option ReconciliationEvidence

pub record ProjectedJob : Type 0 where
  pub spec : JobSpec
  pub state : JobState

pub record Projection : Type 0 where
  pub workspaces : Map WorkspaceId Workspace
  pub threads : Map ThreadId Thread
  pub turns : Map TurnId Turn
  pub items : Map ItemId Item
  pub invocations : Map InvocationId ProjectedInvocation
  pub jobs : Map JobId ProjectedJob
  pub model_events : Map ModelRequestId (List ModelEvent)
  pub agent_results : Map AgentRunId AgentResult
  pub steering : Map TurnId (List Str)
  pub last_seq_by_thread : Map ThreadId ℕ
  pub seen_events : List EventId

-- `Projection::default`
abbrev pub empty : Projection
empty = record {
  workspaces = [];
  threads = [];
  turns = [];
  items = [];
  invocations = [];
  jobs = [];
  model_events = [];
  agent_results = [];
  steering = [];
  last_seq_by_thread = [];
  seen_events = [];
}

pub data ReplayError : Type 0 where
  incompatible_schema : (found_major found_minor supported_major supported_minor : ℕ) → ReplayError
  duplicate_event : EventId → ReplayError
  sequence_gap : ThreadId → (expected actual : ℕ) → ReplayError
  duplicate_entity missing_entity : (kind : Str) (id : Uuid) → ReplayError
  envelope_mismatch : Str → ReplayError
  active_turn_conflict : ThreadId → TurnId → ReplayError
  turn_state_mismatch : TurnId → (projected event_from : TurnState) → ReplayError
  invalid_turn_transition : (from to : TurnState) → ReplayError
  invocation_state_mismatch : InvocationId → (projected event_from : InvocationState) → ReplayError
  invalid_invocation_transition : (from to : InvocationState) → ReplayError
  invocation_evidence_mismatch : InvocationId → (field_name : Str) → ReplayError
  job_state_mismatch : JobId → (projected event_from : JobState) → ReplayError
