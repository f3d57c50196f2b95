-- ===== src/Projection/Frames.antt =====
-- What each arm of `apply` leaves alone.
use yeu_xharness.Base.{◌≡◌, refl, Str, arith}
use yeu_xharness.Base.Results.{Result}
use yeu_xharness.Protocol.Tool.{EffectSet}
use yeu_xharness.Protocol.Event.{
  Event, EventEnvelope, workspace_opened, workspace_trust_changed, thread_started, thread_forked,
  thread_archived, turn_started, turn_state_changed, turn_steered, item_added, model_requested,
  model_stream_event, invocation_proposed, invocation_state_changed, invocation_reconciled,
  job_created, job_state_changed, agent_spawned, agent_completed, runtime_diagnostic,
}
use yeu_xharness.Projection.State.{Projection}
use yeu_xharness.Projection.Apply.{apply_event}

-- The event does not start or change a turn.
abbrev pub TurnFree : Event → Type 0
TurnFree (turn_started t) = ⊥
TurnFree (turn_state_changed id from to reason) = ⊥
TurnFree _ = Unit

-- The event does not concern an invocation.
abbrev pub InvocationFree : Event → Type 0
InvocationFree (invocation_proposed id call tool version arguments effects digest i) = ⊥
InvocationFree (invocation_state_changed id from to reason) = ⊥
InvocationFree (invocation_reconciled id outcome evidence) = ⊥
InvocationFree _ = Unit

module _ (d : EffectSet → Result Str Str) where
  pub seen_kept :
      (p : Projection) (e : EventEnvelope) (ev : Event)
      → (apply_event d p e ev).0.seen_events ≡ p.seen_events
  unfolding apply_event
  seen_kept p e (workspace_opened w) = ground arith
  seen_kept p e (workspace_trust_changed id trust) = ground arith
  seen_kept p e (thread_started t) = ground arith
  seen_kept p e (thread_forked t) = ground arith
  seen_kept p e (thread_archived id) = ground arith
  seen_kept p e (turn_started t) = ground arith
  seen_kept p e (turn_state_changed id from to reason) = ground arith
  seen_kept p e (turn_steered id message) = ground arith
  seen_kept p e (item_added item) = ground arith
  seen_kept p e (model_requested id) = ground arith
  seen_kept p e (model_stream_event id event) = ground arith
  seen_kept p e (invocation_proposed id call tool version arguments effects digest i) = ground arith
  seen_kept p e (invocation_state_changed id from to reason) = ground arith
  seen_kept p e (invocation_reconciled id outcome evidence) = ground arith
  seen_kept p e (job_created job) = ground arith
  seen_kept p e (job_state_changed id from to) = ground arith
  seen_kept p e (agent_spawned spec) = refl
  seen_kept p e (agent_completed result) = ground arith
  seen_kept p e (runtime_diagnostic code message recoverable) = refl

  pub seqs_kept :
      (p : Projection) (e : EventEnvelope) (ev : Event)
      → (apply_event d p e ev).0.last_seq_by_thread ≡ p.last_seq_by_thread
  unfolding apply_event
  seqs_kept p e (workspace_opened w) = ground arith
  seqs_kept p e (workspace_trust_changed id trust) = ground arith
  seqs_kept p e (thread_started t) = ground arith
  seqs_kept p e (thread_forked t) = ground arith
  seqs_kept p e (thread_archived id) = ground arith
  seqs_kept p e (turn_started t) = ground arith
  seqs_kept p e (turn_state_changed id from to reason) = ground arith
  seqs_kept p e (turn_steered id message) = ground arith
  seqs_kept p e (item_added item) = ground arith
  seqs_kept p e (model_requested id) = ground arith
  seqs_kept p e (model_stream_event id event) = ground arith
  seqs_kept p e (invocation_proposed id call tool version arguments effects digest i) = ground arith
  seqs_kept p e (invocation_state_changed id from to reason) = ground arith
  seqs_kept p e (invocation_reconciled id outcome evidence) = ground arith
  seqs_kept p e (job_created job) = ground arith
  seqs_kept p e (job_state_changed id from to) = ground arith
  seqs_kept p e (agent_spawned spec) = refl
  seqs_kept p e (agent_completed result) = ground arith
  seqs_kept p e (runtime_diagnostic code message recoverable) = refl

  pub turns_kept :
      (p : Projection) (e : EventEnvelope) (ev : Event)
      → TurnFree ev
      → (apply_event d p e ev).0.turns ≡ p.turns
  unfolding apply_event
  turns_kept p e (workspace_opened w) free = ground arith
  turns_kept p e (workspace_trust_changed id trust) free = ground arith
  turns_kept p e (thread_started t) free = ground arith
  turns_kept p e (thread_forked t) free = ground arith
  turns_kept p e (thread_archived id) free = ground arith
  turns_kept p e (turn_steered id message) free = ground arith
  turns_kept p e (item_added item) free = ground arith
  turns_kept p e (model_requested id) free = ground arith
  turns_kept p e (model_stream_event id event) free = ground arith
  turns_kept p e (invocation_proposed id call tool version arguments effects digest i) free =
      ground arith
  turns_kept p e (invocation_state_changed id from to reason) free = ground arith
  turns_kept p e (invocation_reconciled id outcome evidence) free = ground arith
  turns_kept p e (job_created job) free = ground arith
  turns_kept p e (job_state_changed id from to) free = ground arith
  turns_kept p e (agent_spawned spec) free = refl
  turns_kept p e (agent_completed result) free = ground arith
  turns_kept p e (runtime_diagnostic code message recoverable) free = refl
  turns_kept p e (turn_started t) free = absurd free
  turns_kept p e (turn_state_changed id from to reason) free = absurd free

  pub invocations_kept :
      (p : Projection) (e : EventEnvelope) (ev : Event)
      → InvocationFree ev
      → (apply_event d p e ev).0.invocations ≡ p.invocations
  unfolding apply_event
  invocations_kept p e (workspace_opened w) free = ground arith
  invocations_kept p e (workspace_trust_changed id trust) free = ground arith
  invocations_kept p e (thread_started t) free = ground arith
  invocations_kept p e (thread_forked t) free = ground arith
  invocations_kept p e (thread_archived id) free = ground arith
  invocations_kept p e (turn_started t) free = ground arith
  invocations_kept p e (turn_state_changed id from to reason) free = ground arith
  invocations_kept p e (turn_steered id message) free = ground arith
  invocations_kept p e (item_added item) free = ground arith
  invocations_kept p e (model_requested id) free = ground arith
  invocations_kept p e (model_stream_event id event) free = ground arith
  invocations_kept p e (job_created job) free = ground arith
  invocations_kept p e (job_state_changed id from to) free = ground arith
  invocations_kept p e (agent_spawned spec) free = refl
  invocations_kept p e (agent_completed result) free = ground arith
  invocations_kept p e (runtime_diagnostic code message recoverable) free = refl
  invocations_kept p e (invocation_proposed id call tool version arguments effects digest i) free =
      absurd free
  invocations_kept p e (invocation_state_changed id from to reason) free = absurd free
  invocations_kept p e (invocation_reconciled id outcome evidence) free = absurd free
