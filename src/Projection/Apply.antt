-- ===== src/Projection/Apply.antt =====
-- `Projection::apply` and `replay`.
use yeu_xharness.Base.{ℕ, ◌+◌, ◌%◌, ◌^◌, not, List, [], ◌∷◌, Option, none, some, Str, nat_ord, ◌==◌}
use yeu_xharness.Base.Map.{Map, get, insert}
use yeu_xharness.Base.Results.{Result, ok, err, ◌>>◌, require}
use yeu_xharness.Base.Set
use yeu_xharness.Protocol.Ids.{ThreadId}
use yeu_xharness.Protocol.Domain.{Thread}
use yeu_xharness.Protocol.Tool.{EffectSet}
use yeu_xharness.Protocol.Event.{
  Event, EventEnvelope, ProtocolVersion, accepts, workspace_opened, workspace_trust_changed,
  thread_started, thread_forked, thread_archived, turn_started, turn_state_changed, turn_steered,
  item_added, model_requested, model_stream_event, invocation_proposed, invocation_state_changed,
  invocation_reconciled, job_created, job_state_changed, agent_spawned, agent_completed,
  runtime_diagnostic,
}
use yeu_xharness.Projection.State.{
  Projection, ReplayError, empty, incompatible_schema, duplicate_event, sequence_gap,
}
use yeu_xharness.Projection.Entities.{
  Outcome, open_workspace, change_trust, start_thread, archive_thread, add_item, request_model,
  stream_model, create_job, change_job, complete_agent,
}
use yeu_xharness.Projection.Turns.{start_turn, change_turn, steer_turn}
use yeu_xharness.Projection.Invocations.{
  propose_invocation, change_invocation, reconcile_invocation,
}

-- `PROTOCOL_VERSION`
abbrev pub protocol_version : ProtocolVersion
protocol_version = record { major = 2; minor = 0 }

abbrev or_zero : Option ℕ → ℕ
or_zero none = 0
or_zero (some n) = n

-- The last sequence number of a thread, and the next one, a `u64`.
abbrev pub last_seq : Projection → ThreadId → ℕ
last_seq p thread = or_zero (get thread p.last_seq_by_thread)

abbrev pub expected_seq : Projection → ThreadId → ℕ
expected_seq p thread = (last_seq p thread + 1) % 2 ^ 64

-- The checks in front of the `match`.
unfoldable pub check_envelope : Projection → EventEnvelope → Result ReplayError (Unit {0})
check_envelope p e = do
  require (accepts protocol_version e.schema_version) (
      incompatible_schema e.schema_version.major e.schema_version.minor protocol_version.major
        protocol_version.minor)
  require (not (Set.contains e.event_id p.seen_events)) (duplicate_event e.event_id)
  require (e.seq == expected_seq p e.thread_id)
      (sequence_gap e.thread_id (expected_seq p e.thread_id) e.seq)

-- The outcome of an arm that leaves the projection alone when it fails.
abbrev pub settle : Projection → Outcome → Projection × Result ReplayError (Unit {0})
settle p (ok q) = (q, ok tt)
settle p (err x) = (p, err x)

unfoldable pub touch : Map ThreadId Thread → EventEnvelope → Map ThreadId Thread
touch threads e = elim (get e.thread_id threads) [
  | none ↦ threads
  | some t ↦ insert e.thread_id (record t { last_seq = e.seq; updated_at = e.time }) threads
]

-- What follows the `match`.
unfoldable pub record_event : Projection → EventEnvelope → Projection
unfolding touch
record_event p e = record p {
  seen_events = Set.insert e.event_id p.seen_events;
  last_seq_by_thread = insert e.thread_id e.seq p.last_seq_by_thread;
  threads = touch p.threads e;
}

abbrev pub recorded :
    EventEnvelope
    → Projection × Result ReplayError (Unit {0})
    → Projection × Result ReplayError (Unit {0})
recorded e (q, ok done) = (record_event q e, ok tt)
recorded e (q, err x) = (q, err x)

module _ (effects_digest : EffectSet → Result Str Str) where
  -- The `match`.
  unfoldable pub apply_event :
      Projection → EventEnvelope → Event → Projection × Result ReplayError (Unit {0})
  unfolding open_workspace change_trust start_thread archive_thread add_item request_model
      stream_model create_job change_job complete_agent start_turn change_turn steer_turn
      propose_invocation change_invocation reconcile_invocation
  apply_event p e (workspace_opened w) = settle p (open_workspace p w)
  apply_event p e (workspace_trust_changed id trust) = settle p (change_trust p id trust)
  apply_event p e (thread_started t) = settle p (start_thread p e t)
  apply_event p e (thread_forked t) = settle p (start_thread p e t)
  apply_event p e (thread_archived id) = settle p (archive_thread p e id)
  apply_event p e (turn_started t) = settle p (start_turn p e t)
  apply_event p e (turn_state_changed id from to reason) =
      settle p (change_turn p e id from to reason)
  apply_event p e (turn_steered id message) = settle p (steer_turn p id message)
  apply_event p e (item_added item) = add_item p e item
  apply_event p e (model_requested id) = settle p (request_model p id)
  apply_event p e (model_stream_event id event) = settle p (stream_model p id event)
  apply_event p e (invocation_proposed id call tool version arguments effects digest i) =
      settle p
        (propose_invocation effects_digest p e id call tool version arguments effects digest i)
  apply_event p e (invocation_state_changed id from to reason) =
      settle p (change_invocation p e id from to reason)
  apply_event p e (invocation_reconciled id outcome evidence) =
      settle p (reconcile_invocation p e id outcome evidence)
  apply_event p e (job_created job) = settle p (create_job p job)
  apply_event p e (job_state_changed id from to) = settle p (change_job p id from to)
  apply_event p e (agent_spawned spec) = (p, ok tt)
  apply_event p e (agent_completed result) = settle p (complete_agent p result)
  apply_event p e (runtime_diagnostic code message recoverable) = (p, ok tt)

  abbrev pub checked :
      Projection
      → EventEnvelope
      → Result ReplayError (Unit {0})
      → Projection × Result ReplayError (Unit {0})
  checked p e (ok done) = recorded e (apply_event p e e.event)
  checked p e (err x) = (p, err x)

  unfoldable pub apply : Projection → EventEnvelope → Projection × Result ReplayError (Unit {0})
  unfolding check_envelope apply_event record_event
  apply p e = checked p e (check_envelope p e)

  unfoldable pub replay_from : Projection → List EventEnvelope → Result ReplayError Projection
  unfolding apply
  replay_from p [] = ok p
  replay_from p (e ∷ events) =
      let (q, outcome) = apply p e in
      elim outcome [ ok done ↦ replay_from q events | err x ↦ err x ]

  unfoldable pub replay : List EventEnvelope → Result ReplayError Projection
  unfolding replay_from
  replay events = replay_from empty events
