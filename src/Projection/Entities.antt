-- ===== src/Projection/Entities.antt =====
-- The arms of `apply` for workspaces, threads, items, model events, jobs and agents. An arm that
-- mutates only when it succeeds returns the new projection or an error.
use yeu_xharness.Base.{
  Bool, false, not, List, [], ◌∷◌, ◌++◌, Option, none, some, bytes, nat_ord, ◌==◌, same,
  if◌then◌else◌,
}
use yeu_xharness.Base.Map.{get, insert, contains_key}
use yeu_xharness.Base.Results.{Result, ok, err, ◌>>=◌, ◌>>◌, require, ok_or}
use yeu_xharness.Protocol.Ids.{JobId, ModelRequestId, ThreadId, TurnId, WorkspaceId}
use yeu_xharness.Protocol.Domain.{Item, Thread, ThreadStatus, Workspace, WorkspaceTrust}
use yeu_xharness.Protocol.Job.{AgentResult, JobSpec, JobState, JobState-discrete}
use yeu_xharness.Protocol.Model.{ModelEvent}
use yeu_xharness.Protocol.Event.{EventEnvelope}
use yeu_xharness.Projection.State.{
  Projection, ReplayError, duplicate_entity, missing_entity, envelope_mismatch, job_state_mismatch,
}

abbrev pub Outcome : Type 0
Outcome = Result ReplayError Projection

-- `Option<Id>` compared with `Some(id)`.
abbrev pub is_id : Option TurnId → TurnId → Bool
is_id none t = false
is_id (some u) t = u == t

unfoldable pub open_workspace : Projection → Workspace → Outcome
open_workspace p w = do
  require (not (contains_key w.id p.workspaces)) (duplicate_entity (bytes "workspace") w.id)
  ok (record p { workspaces = insert w.id w p.workspaces })

unfoldable pub change_trust : Projection → WorkspaceId → WorkspaceTrust → Outcome
change_trust p id trust = do
  w ← ok_or (get id p.workspaces) (missing_entity (bytes "workspace") id)
  ok (record p { workspaces = insert id (record w { trust = trust }) p.workspaces })

abbrev parent_known : Projection → Option ThreadId → Result ReplayError (Unit {0})
parent_known p none = ok tt
parent_known p (some parent) =
    require (contains_key parent p.threads) (missing_entity (bytes "parent thread") parent)

-- `ThreadStarted` and `ThreadForked`
unfoldable pub start_thread : Projection → EventEnvelope → Thread → Outcome
start_thread p e t = do
  require (t.id == e.thread_id) (envelope_mismatch (bytes "thread_id"))
  require (not (contains_key t.id p.threads)) (duplicate_entity (bytes "thread") t.id)
  require (contains_key t.workspace_id p.workspaces)
      (missing_entity (bytes "workspace") t.workspace_id)
  parent_known p t.parent_thread_id
  ok (record p { threads = insert t.id t p.threads })

unfoldable pub archive_thread : Projection → EventEnvelope → ThreadId → Outcome
archive_thread p e id = do
  require (id == e.thread_id) (envelope_mismatch (bytes "thread_id"))
  t ← ok_or (get id p.threads) (missing_entity (bytes "thread") id)
  ok (record p { threads = insert id (record t { status = ThreadStatus.archived }) p.threads })

-- The item is put in its place before its old entry is looked at, so the projection that comes with
-- the error of a duplicate holds the new item.
unfoldable pub add_item :
    Projection → EventEnvelope → Item → Projection × Result ReplayError (Unit {0})
add_item p e item =
    if not (item.thread_id == e.thread_id)
    then (p, err (envelope_mismatch (bytes "item parent")))
    else if not (is_id e.turn_id item.turn_id)
    then (p, err (envelope_mismatch (bytes "item parent")))
    else if not (contains_key item.turn_id p.turns)
    then (p, err (missing_entity (bytes "turn") item.turn_id))
    else if contains_key item.id p.items
    then (
      record p { items = insert item.id item p.items },
      err (duplicate_entity (bytes "item") item.id),
    )
    else (record p { items = insert item.id item p.items }, ok tt)

unfoldable pub or_default : {A : Type 0} → Option (List A) → List A
or_default none = []
or_default (some xs) = xs

unfoldable pub request_model : Projection → ModelRequestId → Outcome
unfolding or_default
request_model p id =
    ok (record p { model_events = insert id (or_default (get id p.model_events)) p.model_events })

unfoldable pub stream_model : Projection → ModelRequestId → ModelEvent → Outcome
stream_model p id event = do
  events ← ok_or (get id p.model_events) (missing_entity (bytes "model request") id)
  ok (record p { model_events = insert id (events ++ (event ∷ [])) p.model_events })

unfoldable pub create_job : Projection → JobSpec → Outcome
create_job p job = do
  require (not (contains_key job.id p.jobs)) (duplicate_entity (bytes "job") job.id)
  ok (record p { jobs = insert job.id (record { spec = job; state = JobState.active }) p.jobs })

unfoldable pub change_job : Projection → JobId → JobState → JobState → Outcome
unfolding JobState-discrete
change_job p id from to = do
  job ← ok_or (get id p.jobs) (missing_entity (bytes "job") id)
  require (same JobState-discrete job.state from) (job_state_mismatch id job.state from)
  ok (record p { jobs = insert id (record job { state = to }) p.jobs })

unfoldable pub complete_agent : Projection → AgentResult → Outcome
complete_agent p result =
    ok (record p { agent_results = insert result.run_id result p.agent_results })
