-- ===== src/Projection/Invocations.antt =====
-- The arms of `apply` for invocations.
use yeu_xharness.Base.{
  Bool, ◌&&◌, ◌||◌, not, Option, none, some, Str, bytes, nat_ord, str_ord, ◌==◌, same,
}
use yeu_xharness.Base.Blank.{is_blank}
use yeu_xharness.Base.Map.{get, insert, contains_key}
use yeu_xharness.Base.Results.{Result, ok, err, ◌>>=◌, ◌>>◌, require, ok_or}
use yeu_xharness.Protocol.Ids.{InvocationId, TurnId}
use yeu_xharness.Protocol.Tool.{
  EffectSet, Idempotency, Idempotency-discrete, InvocationState, InvocationState-discrete,
  ReconciliationEvidence, ReconciliationOutcome, outcome_state,
}
use yeu_xharness.Protocol.Event.{EventEnvelope}
use yeu_xharness.Invocation.Machine.{
  can_transition_invocation_with_idempotency, can_reconcile_invocation,
}
use yeu_xharness.Projection.State.{
  Projection, ProjectedInvocation, ReplayError, duplicate_entity, missing_entity, envelope_mismatch,
  invocation_state_mismatch, invalid_invocation_transition, invocation_evidence_mismatch,
}
use yeu_xharness.Projection.Entities.{Outcome, is_id}

-- `digest_serializable(effects)`, whose errors are not told apart here.
abbrev pub digest_or : InvocationId → Result Str Str → Result ReplayError Str
digest_or id (ok d) = ok d
digest_or id (err message) = err (invocation_evidence_mismatch id (bytes "effects"))

-- The envelope names the thread, the turn and the agent of the invocation.
abbrev pub is_parent : EventEnvelope → ProjectedInvocation → Bool
is_parent e i =
    i.thread_id == e.thread_id && (is_id e.turn_id i.turn_id && i.agent_id == e.agent_id)

-- The entry of an invocation that has just been proposed.
abbrev pub entry :
    EventEnvelope
    → InvocationId
    → TurnId
    → (call_id tool_id tool_version arguments_digest : Str) → EffectSet
    → (effect_digest : Str) → Idempotency
    → ProjectedInvocation
entry e id turn call_id tool_id tool_version arguments_digest effects effect_digest i = record {
  invocation_id = id;
  thread_id = e.thread_id;
  turn_id = turn;
  agent_id = e.agent_id;
  call_id = call_id;
  tool_id = tool_id;
  tool_version = tool_version;
  normalized_arguments_digest = arguments_digest;
  effects = effects;
  effect_digest = effect_digest;
  idempotency = i;
  state = InvocationState.proposed;
  reason = none;
  reconciliation = none;
}

module _ (effects_digest : EffectSet → Result Str Str) where
  unfoldable pub propose_invocation :
      Projection
      → EventEnvelope
      → InvocationId
      → (call_id tool_id tool_version arguments_digest : Str) → EffectSet
      → (effect_digest : Str) → Idempotency
      → Outcome
  propose_invocation p e id call_id tool_id tool_version arguments_digest effects effect_digest i =
      do
        turn_id ← ok_or e.turn_id (envelope_mismatch (bytes "invocation turn_id"))
        require (same Idempotency-discrete i effects.idempotency)
            (invocation_evidence_mismatch id (bytes "idempotency"))
        projected ← digest_or id (effects_digest effects)
        require (projected == effect_digest)
            (invocation_evidence_mismatch id (bytes "effect_digest"))
        require (not (contains_key id p.invocations)) (duplicate_entity (bytes "invocation") id)
        let proposed =
            entry e id turn_id call_id tool_id tool_version arguments_digest effects effect_digest i
        ok (record p { invocations = insert id proposed p.invocations })

unfoldable pub change_invocation :
    Projection
    → EventEnvelope
    → InvocationId
    → InvocationState
    → InvocationState
    → Option Str
    → Outcome
unfolding InvocationState-discrete
change_invocation p e id from to reason = do
  i ← ok_or (get id p.invocations) (missing_entity (bytes "invocation") id)
  require (is_parent e i) (envelope_mismatch (bytes "invocation parent"))
  require (same InvocationState-discrete i.state from) (invocation_state_mismatch id i.state from)
  require (can_transition_invocation_with_idempotency from to i.idempotency)
      (invalid_invocation_transition from to)
  ok (record p { invocations = insert id (record i { state = to; reason = reason }) p.invocations })

unfoldable pub reconcile_invocation :
    Projection
    → EventEnvelope
    → InvocationId
    → ReconciliationOutcome
    → ReconciliationEvidence
    → Outcome
reconcile_invocation p e id outcome evidence = do
  i ← ok_or (get id p.invocations) (missing_entity (bytes "invocation") id)
  require (is_parent e i) (envelope_mismatch (bytes "invocation parent"))
  require (not (is_blank evidence.source || is_blank evidence.summary))
      (invocation_evidence_mismatch id (bytes "reconciliation evidence"))
  require (can_reconcile_invocation i.state outcome)
      (invalid_invocation_transition i.state (outcome_state outcome))
  ok (record p {
    invocations =
        insert id
          (record i {
            state = outcome_state outcome;
            reason = some evidence.summary;
            reconciliation = some evidence;
          })
          p.invocations;
  })
