-- ===== src/Protocol/Domain.antt =====
-- crates/yeux-protocol/src/domain.rs.
use yeu_xharness.Base.{ℕ, Bool, true, false, Option, Str}
use yeu_xharness.Protocol.Ids.{AgentId, ItemId, ThreadId, TurnId, WorkspaceId, DateTime}
use yeu_xharness.Protocol.Json.{Value}

pub data WorkspaceTrust : Type 0 where
  untrusted trusted : WorkspaceTrust

pub record WorkspaceIdentity : Type 0 where
  pub canonical_root : Str
  pub digest : Str
  pub device : Option ℕ
  pub inode : Option ℕ
  pub git_common_dir : Option Str

pub record Workspace : Type 0 where
  pub id : WorkspaceId
  pub root : Str
  pub identity : WorkspaceIdentity
  pub trust : WorkspaceTrust
  pub opened_at : DateTime

pub data ThreadStatus : Type 0 where
  active idle archived failed : ThreadStatus

pub record Thread : Type 0 where
  pub id : ThreadId
  pub workspace_id : WorkspaceId
  pub parent_thread_id : Option ThreadId
  pub parent_seq : Option ℕ
  pub title : Option Str
  pub status : ThreadStatus
  pub created_at : DateTime
  pub updated_at : DateTime
  pub last_seq : ℕ

pub data TurnState : Type 0 where
  accepted building_context requesting_model streaming proposed_tools : TurnState
  waiting_for_approval authorizing scheduling executing integrating_results : TurnState
  waiting_for_input cancelling completed cancelled failed : TurnState

unfoldable pub TurnState-discrete : Discrete TurnState
TurnState-discrete = hlevel

abbrev pub is_terminal : TurnState → Bool
is_terminal TurnState.completed = true
is_terminal TurnState.cancelled = true
is_terminal TurnState.failed = true
is_terminal _ = false

pub record Turn : Type 0 where
  pub id : TurnId
  pub thread_id : ThreadId
  pub agent_id : AgentId
  pub state : TurnState
  pub started_at : DateTime
  pub ended_at : Option DateTime
  pub failure : Option Str

pub data ItemKind : Type 0 where
  user_message assistant_message reasoning tool_call tool_result checkpoint diagnostic : ItemKind

pub record Item : Type 0 where
  pub id : ItemId
  pub thread_id : ThreadId
  pub turn_id : TurnId
  pub agent_id : AgentId
  pub kind : ItemKind
  pub content : Value
  pub created_at : DateTime

unfoldable pub ItemKind-discrete : Discrete ItemKind
ItemKind-discrete = hlevel
