-- ===== src/Projection/InvocationChange.antt =====
-- How an accepted event changes the invocations.
use yeu_xharness.Base.{
  true, ◌≡◌, refl, sym, ◌∙◌, ap, inl, inr, Option, none, some, Str, arith, Option-cases, nat_ord,
  str_ord, ==_iff,
}
use yeu_xharness.Base.Map.{Map, get, insert}
use yeu_xharness.Base.Results.{Result, ok, err, Result-cases}
use yeu_xharness.Protocol.Ids.{InvocationId, TurnId}
use yeu_xharness.Protocol.Tool.{
  EffectSet, Idempotency, InvocationState, ReconciliationEvidence, ReconciliationOutcome,
  outcome_state,
}
use yeu_xharness.Protocol.Event.{
  Event, EventEnvelope, invocation_proposed, invocation_state_changed, invocation_reconciled,
}
use yeu_xharness.Invocation.Machine.{
  can_transition_invocation_with_idempotency, can_reconcile_invocation,
}
use yeu_xharness.Projection.State.{Projection, ProjectedInvocation}
use yeu_xharness.Projection.Invocations.{
  entry, propose_invocation, change_invocation, reconcile_invocation,
}
use yeu_xharness.Projection.Apply.{apply_event, record_event}
use yeu_xharness.Projection.Frames.{invocations_kept}
use yeu_xharness.Projection.Accepted.{Accepted, apply-parts}
use yeu_xharness.Projection.TurnChange.{settle-ok}

-- The invocations stay, a proposed one is added, one takes a legal transition, or one is reconciled.
pub data InvocationChange (d : EffectSet → Result Str Str)
    (before after : Map InvocationId ProjectedInvocation) : Type 0 where
  kept : after ≡ before → InvocationChange d before after
  proposed :
      (i : ProjectedInvocation)
      → get i.invocation_id before ≡ none
      → i.state ≡ InvocationState.proposed
      → i.idempotency ≡ i.effects.idempotency
      → d i.effects ≡ ok i.effect_digest
      → after ≡ insert i.invocation_id i before
      → InvocationChange d before after
  moved_on :
      (id : InvocationId) (i : ProjectedInvocation) (to : InvocationState) (reason : Option Str)
      → get id before ≡ some i
      → can_transition_invocation_with_idempotency i.state to i.idempotency ≡ true
      → after ≡ insert id (record i { state = to; reason = reason }) before
      → InvocationChange d before after
  settled :
      (id : InvocationId) (i : ProjectedInvocation) (outcome : ReconciliationOutcome)
      (evidence : ReconciliationEvidence)
      → get id before ≡ some i
      → can_reconcile_invocation i.state outcome ≡ true
      → after
        ≡ insert id
            (record i {
              state = outcome_state outcome;
              reason = some evidence.summary;
              reconciliation = some evidence;
            })
            before
      → InvocationChange d before after

pub change-facts :
    (p : Projection) (e : EventEnvelope) (id : InvocationId) (from to : InvocationState)
    (reason : Option Str) (i : ProjectedInvocation) (r : Projection)
    → get id p.invocations ≡ some i
    → change_invocation p e id from to reason ≡ ok r
    → (can_transition_invocation_with_idempotency i.state to i.idempotency ≡ true)
      × (r.invocations ≡ insert id (record i { state = to; reason = reason }) p.invocations)
unfolding change_invocation
change-facts p e id from to reason i r g h = ground arith

pub change-none :
    (p : Projection) (e : EventEnvelope) (id : InvocationId) (from to : InvocationState)
    (reason : Option Str) (r : Projection)
    → get id p.invocations ≡ none
    → change_invocation p e id from to reason ≡ ok r
    → ⊥
unfolding change_invocation
change-none p e id from to reason r g h = ground arith

settle-facts :
    (p : Projection) (e : EventEnvelope) (id : InvocationId) (outcome : ReconciliationOutcome)
    (evidence : ReconciliationEvidence) (i : ProjectedInvocation) (r : Projection)
    → get id p.invocations ≡ some i
    → reconcile_invocation p e id outcome evidence ≡ ok r
    → (can_reconcile_invocation i.state outcome ≡ true)
      × (r.invocations
          ≡ insert id
              (record i {
                state = outcome_state outcome;
                reason = some evidence.summary;
                reconciliation = some evidence;
              })
              p.invocations)
unfolding reconcile_invocation
settle-facts p e id outcome evidence i r g h = ground arith

settle-none :
    (p : Projection) (e : EventEnvelope) (id : InvocationId) (outcome : ReconciliationOutcome)
    (evidence : ReconciliationEvidence) (r : Projection)
    → get id p.invocations ≡ none
    → reconcile_invocation p e id outcome evidence ≡ ok r
    → ⊥
unfolding reconcile_invocation
settle-none p e id outcome evidence r g h = ground arith

module _ (d : EffectSet → Result Str Str) where
  propose-at :
      (p : Projection) (e : EventEnvelope) (id : InvocationId)
      (call_id tool_id tool_version arguments_digest : Str) (effects : EffectSet)
      (effect_digest : Str) (i : Idempotency) (r : Projection) (turn : TurnId) (projected : Str)
      → e.turn_id ≡ some turn
      → d effects ≡ ok projected
      → propose_invocation d p e id call_id tool_id tool_version arguments_digest effects
          effect_digest i
        ≡ ok r
      → (get id p.invocations ≡ none)
        × (i ≡ effects.idempotency)
        × (d effects ≡ ok effect_digest)
        × (r.invocations
            ≡ insert id
                (entry e id turn call_id tool_id tool_version arguments_digest effects effect_digest
                  i)
                p.invocations)
  unfolding propose_invocation
  propose-at p e id call_id tool_id tool_version arguments_digest effects effect_digest i r turn
        projected t g h =
      ground (arith, ==_iff projected effect_digest)

  propose-none :
      (p : Projection) (e : EventEnvelope) (id : InvocationId)
      (call_id tool_id tool_version arguments_digest : Str) (effects : EffectSet)
      (effect_digest : Str) (i : Idempotency) (r : Projection)
      → e.turn_id ≡ none
      → propose_invocation d p e id call_id tool_id tool_version arguments_digest effects
          effect_digest i
        ≡ ok r
      → ⊥
  unfolding propose_invocation
  propose-none p e id call_id tool_id tool_version arguments_digest effects effect_digest i r t h =
      ground arith

  propose-undigested :
      (p : Projection) (e : EventEnvelope) (id : InvocationId)
      (call_id tool_id tool_version arguments_digest : Str) (effects : EffectSet)
      (effect_digest : Str) (i : Idempotency) (r : Projection) (message : Str)
      → d effects ≡ err message
      → propose_invocation d p e id call_id tool_id tool_version arguments_digest effects
          effect_digest i
        ≡ ok r
      → ⊥
  unfolding propose_invocation
  propose-undigested p e id call_id tool_id tool_version arguments_digest effects effect_digest i r
        message g h =
      ground arith

  propose-facts :
      (p : Projection) (e : EventEnvelope) (id : InvocationId)
      (call_id tool_id tool_version arguments_digest : Str) (effects : EffectSet)
      (effect_digest : Str) (i : Idempotency) (r : Projection)
      → propose_invocation d p e id call_id tool_id tool_version arguments_digest effects
          effect_digest i
        ≡ ok r
      → (turn : TurnId) × (get id p.invocations ≡ none)
        × (i ≡ effects.idempotency)
        × (d effects ≡ ok effect_digest)
        × (r.invocations
            ≡ insert id
                (entry e id turn call_id tool_id tool_version arguments_digest effects effect_digest
                  i)
                p.invocations)
  propose-facts p e id call_id tool_id tool_version arguments_digest effects effect_digest i r h =
      elim (Option-cases e.turn_id) [
        | inl absent ↦ absurd (
            propose-none p e id call_id tool_id tool_version arguments_digest effects effect_digest
              i r absent h)
        | inr (turn, t) ↦ elim (Result-cases (d effects)) [
          | inl (projected, g) ↦
              let (fresh, declared, digested, same_entries) =
                propose-at p e id call_id tool_id tool_version arguments_digest effects
                  effect_digest i r turn projected t g h in
              (turn, fresh, declared, digested, same_entries)
          | inr (message, g) ↦ absurd (
              propose-undigested p e id call_id tool_id tool_version arguments_digest effects
                effect_digest i r message g h)
        ]
      ]

  event-InvocationChange :
      (p : Projection) (e : EventEnvelope) (ev : Event) (r : Projection)
      → apply_event d p e ev ≡ (r, ok tt)
      → InvocationChange d p.invocations r.invocations
  unfolding apply_event
  event-InvocationChange p e (invocation_proposed id call tool version arguments effects digest i) r
        h =
      let done =
        settle-ok p r (propose_invocation d p e id call tool version arguments effects digest i)
          h in
      let (turn, fresh, same_idempotency, digested, same_entries) =
        propose-facts p e id call tool version arguments effects digest i r done in
      proposed (entry e id turn call tool version arguments effects digest i) fresh refl
        same_idempotency digested same_entries
  event-InvocationChange p e (invocation_state_changed id from to reason) r h =
      let done = settle-ok p r (change_invocation p e id from to reason) h in
      elim (Option-cases (get id p.invocations)) [
        | inl absent ↦ absurd (change-none p e id from to reason r absent done)
        | inr (i, found) ↦
            let (legal, same_entries) = change-facts p e id from to reason i r found done in
            moved_on id i to reason found legal same_entries
      ]
  event-InvocationChange p e (invocation_reconciled id outcome evidence) r h =
      let done = settle-ok p r (reconcile_invocation p e id outcome evidence) h in
      elim (Option-cases (get id p.invocations)) [
        | inl absent ↦ absurd (settle-none p e id outcome evidence r absent done)
        | inr (i, found) ↦
            let (legal, same_entries) = settle-facts p e id outcome evidence i r found done in
            settled id i outcome evidence found legal same_entries
      ]
  event-InvocationChange p e ev r h =
      kept (sym (ap (λ t. t.0.invocations) h) ∙ invocations_kept d p e ev tt)

  pub accepted-InvocationChange :
      (p : Projection) (e : EventEnvelope) (q : Projection)
      → Accepted d p e q
      → InvocationChange d p.invocations q.invocations
  unfolding record_event
  accepted-InvocationChange p e q h =
      let (passed, done, last) = apply-parts d p e q h in
      rw last (event-InvocationChange p e e.event (apply_event d p e e.event).0 done)
