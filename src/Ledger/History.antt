-- ===== src/Ledger/History.antt =====
-- The state of one invocation, from the stored events, and the scope of its proposal.
use yeu_xharness.Base.{
  Bool, ◌&&◌, not, List, [], ◌∷◌, Option, none, some, Str, str_ord, bytes, nat_ord, ◌==◌, same, any,
  filter, if◌then◌else◌,
}
use yeu_xharness.Base.Blank.{is_blank}
use yeu_xharness.Base.Results.{ok, ◌>>=◌, ◌>>◌, ok_or}
use yeu_xharness.Protocol.Tool.{
  EffectSet, Idempotency, Idempotency-discrete, InvocationState, InvocationState-discrete,
  ReconciliationEvidence, ReconciliationOutcome, outcome_state,
}
use yeu_xharness.Protocol.Event.{
  Event, invocation_proposed, invocation_state_changed, invocation_reconciled,
}
use yeu_xharness.Invocation.Machine.{
  can_transition_invocation_with_idempotency, can_reconcile_invocation,
}
use yeu_xharness.Ledger.Types.{LedgerEvent}
use yeu_xharness.Ledger.Errors
use yeu_xharness.Ledger.Errors.{LedgerError, OutcomeFault, invalid_invocation_outcome}
use yeu_xharness.Ledger.Store.{Row, Outcome}
use yeu_xharness.Ledger.Read.{order_by}
use yeu_xharness.Ledger.Serde.{Serde}
use yeu_xharness.Ledger.Outcomes.{fault, check, or_fault}

-- The variables of the loop.
pub record Known : Type 0 where
  pub state : Option InvocationState
  pub idempotency : Option Idempotency

abbrev pub unseen : Known
unseen = record { state = none; idempotency = none }

-- `kind IN ('tool/proposed', 'tool/state_changed', 'tool/reconciled')`
abbrev pub is_invocation_kind : LedgerEvent → Bool
is_invocation_kind e =
    any (λ k. k == e.kind)
      (bytes "tool/proposed" ∷ bytes "tool/state_changed" ∷ bytes "tool/reconciled" ∷ [])

-- `unwrap_or(Unknown)`
abbrev pub or_unknown : Option Idempotency → Idempotency
or_unknown none = Idempotency.unknown
or_unknown (some i) = i

abbrev pub events_of : List Row → List LedgerEvent
events_of [] = []
events_of (r ∷ rows) = r.event ∷ events_of rows

module _ (serde : Serde) where
  unfoldable pub required_fields : List (Str × Str) → Outcome (Unit {0})
  required_fields [] = ok tt
  required_fields ((name, value) ∷ fields) =
      check (not (is_blank value)) (Errors.empty_field name) >> required_fields fields

  unfoldable pub validate_invocation_proposal_evidence :
      (call_id tool_id tool_version arguments_digest : Str)
      → EffectSet
      → (effect_digest : Str) → Idempotency
      → Outcome (Unit {0})
  unfolding required_fields Idempotency-discrete
  validate_invocation_proposal_evidence call_id tool_id tool_version arguments_digest effects
        effect_digest declared =
      do
        required_fields (
            (bytes "call_id", call_id)
            ∷ (bytes "tool_id", tool_id)
            ∷ (bytes "tool_version", tool_version)
            ∷ (bytes "normalized_arguments_digest", arguments_digest)
            ∷ (bytes "effect_digest", effect_digest)
            ∷ [])
        check (same Idempotency-discrete effects.idempotency declared) Errors.idempotency_disagrees
        projected ← or_fault Errors.undigestable (serde.digest_effects effects)
        check (projected == effect_digest) Errors.effect_digest_differs

  -- A proposal of the invocation.
  unfoldable pub propose : Known → Outcome (Unit {0}) → Idempotency → Outcome Known
  propose known evidence declared = elim known.state [
    | none ↦
        evidence
        >> ok (record { state = some InvocationState.proposed; idempotency = some declared })
    | some s ↦ fault Errors.second_proposal
  ]

  unfoldable pub change : Known → InvocationState → InvocationState → Outcome Known
  unfolding InvocationState-discrete
  change known from to = do
    current ← ok_or known.state (invalid_invocation_outcome Errors.change_without_proposal)
    check
        (same InvocationState-discrete current from
          && can_transition_invocation_with_idempotency from to (or_unknown known.idempotency))
        Errors.invalid_history
    ok (record known { state = some to })

  unfoldable pub resolve : Known → ReconciliationOutcome → ReconciliationEvidence → Outcome Known
  resolve known outcome evidence = do
    current ← ok_or known.state (invalid_invocation_outcome Errors.reconciliation_without_proposal)
    check
        (not (is_blank evidence.source)
          && (not (is_blank evidence.summary) && can_reconcile_invocation current outcome))
        Errors.invalid_reconciliation
    ok (record known { state = some (outcome_state outcome) })

  -- One event of the history of the invocation whose id has this text.
  unfoldable pub follow : Str → Known → Event → Outcome Known
  unfolding propose change resolve
  follow id known
        (invocation_proposed candidate call tool version arguments effects digest declared) =
      if serde.uuid_text candidate == id
      then propose known
          (validate_invocation_proposal_evidence call tool version arguments effects digest
            declared)
          declared
      else ok known
  follow id known (invocation_state_changed candidate from to reason) =
      if serde.uuid_text candidate == id then change known from to else ok known
  follow id known (invocation_reconciled candidate outcome evidence) =
      if serde.uuid_text candidate == id then resolve known outcome evidence else ok known
  follow id known _ = ok known

  unfoldable pub follow_all : Str → Known → List LedgerEvent → Outcome Known
  unfolding follow
  follow_all id known [] = ok known
  follow_all id known (e ∷ events) = do
    payload ← or_fault Errors.unreadable (serde.reread_json e.payload)
    event ← or_fault Errors.invalid_event (serde.decode_event e.kind payload)
    next ← follow id known event
    follow_all id next events

  -- The events that the query selects, in the order of the table.
  unfoldable pub invocation_events : List Row → List LedgerEvent
  invocation_events rows =
      filter is_invocation_kind (events_of (order_by (λ (r : Row). r.append_order) rows))

  unfoldable pub invocation_state_in : List Row → Str → Outcome (Option InvocationState)
  invocation_state_in rows id = do
    known ← follow_all id unseen (invocation_events rows)
    ok known.state
