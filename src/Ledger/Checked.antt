-- ===== src/Ledger/Checked.antt =====
-- Typed writes: what an invocation ended with, under a condition on its stored state.
use yeu_xharness.Base.{
  Bool, true, false, ◌&&◌, List, [], ◌∷◌, Option, none, some, Str, str_ord, bytes, nat_ord, ◌==◌,
  same, all, if◌then◌else◌,
}
use yeu_xharness.Base.Map.{is_some}
use yeu_xharness.Base.Results.{ok, err, ◌>>=◌, ◌>>◌, require}
use yeu_xharness.Protocol.Ids.{InvocationId}
use yeu_xharness.Protocol.Tool.{InvocationState}
use yeu_xharness.Ledger.Types.{
  LedgerEvent, NewLedgerEvent, NewInvocationOutcome, NewInvocationUnknown,
  NewInvocationUnknownOutcome, NewCommandReceipt, CommandBatchAppendResult, Option_Str-discrete,
}
use yeu_xharness.Ledger.Errors
use yeu_xharness.Ledger.Errors.{LedgerError, invocation_state_conflict, panicked}
use yeu_xharness.Ledger.Store.{
  Ledger, Row, Outcome, get_event_by_id, insert_command_receipt, get_command_receipt, transact,
}
use yeu_xharness.Ledger.Append.{append_batch_transaction}
use yeu_xharness.Ledger.Receipts.{once, replayed_batch}
use yeu_xharness.Ledger.Serde.{Serde}
use yeu_xharness.Ledger.Outcomes.{
  fault, check, validate_invocation_outcome, validate_invocation_unknown,
  validate_invocation_unknown_outcome, validate_invocation_reconciliation,
  invocation_outcome_precondition,
}
use yeu_xharness.Ledger.History.{invocation_state_in}
use yeu_xharness.Ledger.Scope.{InvocationScope, invocation_scope_in, tool_result_call_id}

unfoldable pub InvocationState_Option-discrete : Discrete (Option InvocationState)
InvocationState_Option-discrete = hlevel

-- Every input is stored: the fold stops reading at the first that is not.
unfoldable pub fully_existing : Serde → List Row → List NewLedgerEvent → Outcome Bool
fully_existing serde rows [] = ok true
fully_existing serde rows (i ∷ inputs) = do
  found ← get_event_by_id serde i.event_id rows
  let rest = fully_existing serde rows inputs
  if is_some found then rest else ok false

-- The stored state has to be the expected one; of a batch that is stored already, the final one.
abbrev pub due : Bool → InvocationState → InvocationState → InvocationState
due stored expected final = if stored then final else expected

unfoldable pub is_in_scope : InvocationScope → NewLedgerEvent → Bool
unfolding Option_Str-discrete
is_in_scope scope i =
    i.thread_id == scope.thread_id
    && (same Option_Str-discrete i.turn_id scope.turn_id && i.agent_id == scope.agent_id)

-- The input names no call, or the one of the proposal.
abbrev names_call : Str → Option Str → Bool
names_call call none = true
names_call call (some named) = named == call

-- A write behind checks that do not need the ledger.
abbrev pub after_checks :
    {A B : Type 0} → Ledger → Outcome A → (A → Ledger × Outcome B) → Ledger × Outcome B
after_checks l (ok a) write = write a
after_checks l (err e) write = (l, err e)

abbrev pub outcome_events : NewInvocationOutcome → List NewLedgerEvent
outcome_events input = input.tool_result ∷ input.terminal_state ∷ []

-- `pop` on the events of a marker.
unfoldable pub last_event : List LedgerEvent → Outcome LedgerEvent
last_event [] = err (panicked (bytes "a one-event invocation marker always returns one event"))
last_event (e ∷ []) = ok e
last_event (e ∷ f ∷ events) = last_event (f ∷ events)

module _ (serde : Serde) where
  -- The scope of the inputs and the calls that their results name.
  unfoldable pub check_scope : List NewLedgerEvent → Option InvocationScope → Outcome (Unit {0})
  unfolding is_in_scope
  check_scope inputs none = fault Errors.proposal_required
  check_scope inputs (some scope) = do
    check (all (is_in_scope scope) inputs) Errors.scope_differs_from_proposal
    check (all (λ i. names_call scope.call_id (tool_result_call_id serde i)) inputs)
        Errors.call_id_differs

  unfoldable pub append_invocation_events_checked_transaction :
      Ledger
      → List NewLedgerEvent
      → InvocationId
      → (expected final : InvocationState) → Outcome (Ledger × List LedgerEvent)
  unfolding InvocationState_Option-discrete
  append_invocation_events_checked_transaction l inputs invocation expected final = do
    stored ← fully_existing serde l.rows inputs
    let id = serde.uuid_text invocation
    found ← invocation_state_in serde l.rows id
    require (same InvocationState_Option-discrete found (some (due stored expected final)))
        (invocation_state_conflict id (due stored expected final) found)
    check (is_some found) Errors.proposal_required
    scope ← invocation_scope_in serde l.rows id
    check_scope inputs scope
    append_batch_transaction serde l inputs

  unfoldable pub append_invocation_events_checked :
      Ledger
      → List NewLedgerEvent
      → InvocationId
      → (expected final : InvocationState) → Ledger × Outcome (List LedgerEvent)
  append_invocation_events_checked l inputs invocation expected final =
      transact l (append_invocation_events_checked_transaction l inputs invocation expected final)

  unfoldable pub append_invocation_outcome :
      Ledger → NewInvocationOutcome → Ledger × Outcome (List LedgerEvent)
  append_invocation_outcome l input =
      after_checks l
        (validate_invocation_outcome serde input >> invocation_outcome_precondition serde input)
        (λ (invocation, expected, final).
          append_invocation_events_checked l (outcome_events input) invocation expected final)

  unfoldable pub append_invocation_unknown :
      Ledger → NewInvocationUnknown → Ledger × Outcome LedgerEvent
  append_invocation_unknown l input =
      after_checks l (validate_invocation_unknown serde input.state) (λ invocation.
        let (l', events) =
          append_invocation_events_checked l (input.state ∷ []) invocation InvocationState.started
            InvocationState.unknown in
        (l', events >>= last_event))

  unfoldable pub append_invocation_unknown_outcome :
      Ledger → NewInvocationUnknownOutcome → Ledger × Outcome (List LedgerEvent)
  append_invocation_unknown_outcome l input =
      after_checks l (validate_invocation_unknown_outcome serde input) (λ invocation.
        append_invocation_events_checked l (input.unknown_state ∷ input.tool_result ∷ []) invocation
          InvocationState.started InvocationState.unknown)

  unfoldable pub append_invocation_reconciliation :
      Ledger → NewInvocationOutcome → Ledger × Outcome (List LedgerEvent)
  append_invocation_reconciliation l input =
      after_checks l
        (validate_invocation_reconciliation serde input
          >> invocation_outcome_precondition serde input)
        (λ (invocation, expected, final).
          append_invocation_events_checked l (outcome_events input) invocation
            InvocationState.unknown final)

  unfoldable pub reconcile_new :
      Ledger
      → NewInvocationOutcome
      → NewCommandReceipt
      → InvocationId × InvocationState × InvocationState
      → Outcome (Ledger × CommandBatchAppendResult)
  reconcile_new l input receipt (invocation, expected, final) = do
    (l1, events) ←
        append_invocation_events_checked_transaction l (outcome_events input) invocation expected
          final
    (l2, kept) ← insert_command_receipt serde l1 receipt
    ok (l2, record { events = events; response = kept.response; replayed = false })

  unfoldable pub append_invocation_reconciliation_with_receipt :
      Ledger → NewInvocationOutcome → NewCommandReceipt → Ledger × Outcome CommandBatchAppendResult
  unfolding once
  append_invocation_reconciliation_with_receipt l input receipt =
      after_checks l
        (validate_invocation_reconciliation serde input
          >> invocation_outcome_precondition serde input)
        (λ precondition. transact l (
          get_command_receipt serde receipt.command_id l.receipts
          >>= once l receipt replayed_batch (reconcile_new l input receipt precondition)))
