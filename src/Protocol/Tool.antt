-- ===== src/Protocol/Tool.antt =====
-- crates/yeux-protocol/src/tool.rs and policy.rs: effects, grants, approvals and invocations.
use Prim.Native.Nat.{ℕ}
use yeu_xharness.Base.{
  Bool, true, false, ◌&&◌, ◌||◌, not, List, [], Option, none, Str, leb, if◌then◌else◌, is_empty,
}
use yeu_xharness.Protocol.Ids.{
  AgentId, ApprovalId, InvocationId, ThreadId, TurnId, WorkspaceId, DateTime,
}
use yeu_xharness.Protocol.Json.{Value}

pub data Idempotency : Type 0 where
  idempotent idempotent_with_key non_idempotent unknown : Idempotency

unfoldable pub Idempotency-discrete : Discrete Idempotency
Idempotency-discrete = hlevel

pub data Reversibility : Type 0 where
  reversible compensatable irreversible unknown : Reversibility

pub record PathScope : Type 0 where
  pub path : Str
  pub recursive : Bool
  pub resolved : Bool

pub record ProcessEffect : Type 0 where
  pub executable : Str
  pub argument_digest : Option Str
  pub may_spawn_children : Bool

pub record NetworkEffect : Type 0 where
  pub scheme : Str
  pub host : Str
  pub port : Option ℕ  -- u16

pub record ExternalEffect : Type 0 where
  pub system : Str
  pub operation : Str
  pub resource : Option Str

pub record SecretHandle : Type 0 where
  pub name : Str

pub record EffectSet : Type 0 where
  pub filesystem_read : List PathScope
  pub filesystem_write : List PathScope
  pub filesystem_delete : List PathScope
  pub processes : List ProcessEffect
  pub network : List NetworkEffect
  pub secrets : List SecretHandle
  pub external_writes : List ExternalEffect
  pub idempotency : Idempotency
  pub reversibility : Reversibility

-- `EffectSet::default`
abbrev pub default_effects : EffectSet
default_effects = record {
  filesystem_read = [];
  filesystem_write = [];
  filesystem_delete = [];
  processes = [];
  network = [];
  secrets = [];
  external_writes = [];
  idempotency = Idempotency.idempotent;
  reversibility = Reversibility.reversible;
}

unfoldable pub is_read_only : EffectSet → Bool
is_read_only e =
    is_empty e.filesystem_write
    && is_empty e.filesystem_delete
    && is_empty e.processes
    && is_empty e.network
    && is_empty e.secrets
    && is_empty e.external_writes

unfoldable pub has_external_side_effects : EffectSet → Bool
has_external_side_effects e = not (is_empty e.network) || not (is_empty e.external_writes)

pub data CapabilityMode : Type 0 where
  observe build operate : CapabilityMode

unfoldable pub CapabilityMode-discrete : Discrete CapabilityMode
CapabilityMode-discrete = hlevel

-- `self as u8`
abbrev pub rank : CapabilityMode → ℕ
rank CapabilityMode.observe = 0
rank CapabilityMode.build = 1
rank CapabilityMode.operate = 2

unfoldable pub minimum : CapabilityMode → CapabilityMode → CapabilityMode
minimum a b = if leb (rank a) (rank b) then a else b

pub record CapabilityGrant : Type 0 where
  pub mode : CapabilityMode
  pub filesystem_read : List Str
  pub filesystem_write : List Str
  pub filesystem_delete : List Str
  pub process : Bool
  pub network : List Str
  pub secrets : List Str
  pub external_write : List Str
  pub expires_at : Option DateTime

-- `CapabilityGrant::observe`
abbrev pub observe_grant : CapabilityGrant
observe_grant = record {
  mode = CapabilityMode.observe;
  filesystem_read = [];
  filesystem_write = [];
  filesystem_delete = [];
  process = false;
  network = [];
  secrets = [];
  external_write = [];
  expires_at = none;
}

pub record ApprovalBinding : Type 0 where
  pub approval_id : ApprovalId
  pub invocation_id : InvocationId
  pub workspace_id : WorkspaceId
  pub workspace_identity_digest : Str
  pub thread_id : ThreadId
  pub turn_id : TurnId
  pub agent_id : AgentId
  pub mode : CapabilityMode
  pub tool_id : Str
  pub tool_version : Str
  pub normalized_arguments_digest : Str
  pub effect_digest : Str
  pub granted_effects : EffectSet
  pub expires_at : DateTime

pub record PreparedInvocation : Type 0 where
  pub invocation_id : InvocationId
  pub tool_id : Str
  pub tool_version : Str
  pub workspace_id : WorkspaceId
  pub workspace_identity_digest : Str
  pub thread_id : ThreadId
  pub turn_id : TurnId
  pub agent_id : AgentId
  pub normalized_arguments : Value
  pub normalized_arguments_digest : Str
  pub effects : EffectSet
  pub effect_digest : Str
  pub prepared_token : Str
  pub prepared_at : DateTime
  pub expires_at : DateTime
  pub approval : Option ApprovalBinding

pub data InvocationState : Type 0 where
  proposed approved prepared started completed failed cancelled unknown : InvocationState

unfoldable pub InvocationState-discrete : Discrete InvocationState
InvocationState-discrete = hlevel

abbrev pub is_terminal : InvocationState → Bool
is_terminal InvocationState.completed = true
is_terminal InvocationState.failed = true
is_terminal InvocationState.cancelled = true
is_terminal _ = false

pub data ReconciliationOutcome : Type 0 where
  completed failed : ReconciliationOutcome

-- `InvocationReconciliationOutcome::state`
abbrev pub outcome_state : ReconciliationOutcome → InvocationState
outcome_state ReconciliationOutcome.completed = InvocationState.completed
outcome_state ReconciliationOutcome.failed = InvocationState.failed

pub record ReconciliationEvidence : Type 0 where
  pub source : Str
  pub summary : Str
  pub artifact_uri : Option Str
