-- ===== src/Protocol/Job.antt =====
-- crates/yeux-protocol/src/job.rs.
use yeu_xharness.Base.{ℕ, Bool, List, Option, Str}
use yeu_xharness.Protocol.Ids.{AgentId, AgentRunId, JobId, ThreadId, WorkspaceId, DateTime}
use yeu_xharness.Protocol.Json.{Value}
use yeu_xharness.Protocol.Tool.{CapabilityGrant}

pub data JobSchedule : Type 0 where
  at : DateTime → JobSchedule
  interval : ℕ → JobSchedule
  rrule : Str → Str → JobSchedule
  manual : JobSchedule

pub record RunBudget : Type 0 where
  pub max_tokens : ℕ
  pub max_cost_micros : ℕ
  pub max_duration_seconds : ℕ

pub record JobSpec : Type 0 where
  pub id : JobId
  pub name : Str
  pub workspace_id : WorkspaceId
  pub prompt : Str
  pub provider : Str
  pub model : Str
  pub tool_ids : List Str
  pub grant : CapabilityGrant
  pub budget : RunBudget
  pub schedule : JobSchedule
  pub allow_reentry : Bool
  pub metadata : Value

pub data JobState : Type 0 where
  active paused running waiting_for_approval completed failed cancelled : JobState

unfoldable pub JobState-discrete : Discrete JobState
JobState-discrete = hlevel

pub data WorkspaceIsolation : Type 0 where
  shared_read_only git_worktree : WorkspaceIsolation

pub record AgentSpawnSpec : Type 0 where
  pub run_id : AgentRunId
  pub parent_thread_id : ThreadId
  pub parent_agent_id : AgentId
  pub child_agent_id : AgentId
  pub workspace_id : WorkspaceId
  pub task : Str
  pub grant : CapabilityGrant
  pub budget : RunBudget
  pub isolation : WorkspaceIsolation
  pub depth : ℕ

pub data AgentResultState : Type 0 where
  completed failed cancelled budget_exhausted : AgentResultState

pub record AgentResult : Type 0 where
  pub run_id : AgentRunId
  pub child_thread_id : ThreadId
  pub state : AgentResultState
  pub summary : Str
  pub worktree_path : Option Str
  pub diff_artifact_uri : Option Str
  pub metadata : Value
