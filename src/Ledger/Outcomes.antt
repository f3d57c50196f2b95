-- ===== src/Ledger/Outcomes.antt =====
-- The checks of a typed batch, before it reaches the ledger.
use yeu_xharness.Base.{
  Bool, true, false, ◌&&◌, ◌||◌, not, List, [], ◌∷◌, Option, none, some, Str, str_ord, bytes,
  nat_ord, ◌==◌, same, if◌then◌else◌,
}
use yeu_xharness.Base.Blank.{is_blank}
use yeu_xharness.Base.Results.{Result, ok, err, ◌>>=◌, ◌>>◌, require, ok_or}
use yeu_xharness.Base.Map.{is_some}
use yeu_xharness.Protocol.Ids.{InvocationId}
use yeu_xharness.Protocol.Json.{member}
use yeu_xharness.Protocol.Domain.{Item, ItemKind, ItemKind-discrete}
use yeu_xharness.Protocol.Model.{ContentBlock, tool_result}
use yeu_xharness.Protocol.Tool.{
  InvocationState, InvocationState-discrete, is_terminal, outcome_state,
}
use yeu_xharness.Protocol.Event.{
  Event, ProtocolVersion, accepts, item_added, invocation_state_changed, invocation_reconciled,
}
use yeu_xharness.Invocation.Machine.{can_transition_invocation}
use yeu_xharness.Projection.Apply.{protocol_version}
use yeu_xharness.Ledger.Types.{
  NewLedgerEvent, NewInvocationOutcome, NewInvocationUnknownOutcome, Option_Str-discrete,
}
use yeu_xharness.Ledger.Errors
use yeu_xharness.Ledger.Errors.{LedgerError, OutcomeFault, invalid_invocation_outcome}
use yeu_xharness.Ledger.Store.{Outcome}
use yeu_xharness.Ledger.Serde.{Serde}

abbrev pub fault : {A : Type 0} → OutcomeFault → Outcome A
fault f = err (invalid_invocation_outcome f)

abbrev pub check : Bool → OutcomeFault → Outcome (Unit {0})
check b f = require b (invalid_invocation_outcome f)

-- `map_err` to a fault.
abbrev pub or_fault : {A : Type 0} → (Str → OutcomeFault) → Result Str A → Outcome A
or_fault f (ok a) = ok a
or_fault f (err message) = fault (f message)

abbrev pub same_version : ProtocolVersion → ProtocolVersion → Bool
same_version a b = a.major == b.major && a.minor == b.minor

unfoldable pub same_scope : NewLedgerEvent → NewLedgerEvent → Bool
unfolding Option_Str-discrete
same_scope a b =
    same_version a.schema_version b.schema_version
    && (a.thread_id == b.thread_id
        && (same Option_Str-discrete a.turn_id b.turn_id
            && (a.agent_id == b.agent_id
                && same Option_Str-discrete a.causation_id b.causation_id)))

-- The reason of an unknown outcome: given, and not blank.
abbrev pub is_reason : Option Str → Bool
is_reason none = false
is_reason (some reason) = not (is_blank reason)

module _ (serde : Serde) where
  unfoldable pub decode_new_event : NewLedgerEvent → Outcome Event
  decode_new_event input =
      or_fault Errors.invalid_event (serde.decode_event input.kind input.payload)

  -- What the terminal event says: the invocation and the state that it ends in.
  unfoldable pub terminal_of : Event → Outcome (InvocationId × InvocationState)
  unfolding InvocationState-discrete
  terminal_of (invocation_state_changed id from to reason) =
      if is_terminal to && can_transition_invocation from to
      then ok (id, to)
      else if same InvocationState-discrete from InvocationState.unknown
      then fault Errors.unknown_needs_evidence
      else fault Errors.not_terminal
  terminal_of (invocation_reconciled id outcome evidence) =
      if is_blank evidence.source || is_blank evidence.summary
      then fault Errors.evidence_required
      else ok (id, outcome_state outcome)
  terminal_of _ = fault Errors.not_terminal

  unfoldable pub tool_result_of : Event → Outcome Item
  unfolding ItemKind-discrete
  tool_result_of (item_added item) =
      if same ItemKind-discrete item.kind ItemKind.tool_result
      then ok item
      else fault Errors.not_tool_result
  tool_result_of _ = fault Errors.not_tool_result

  abbrev pub is_turn : Option Str → Item → Bool
  is_turn none item = false
  is_turn (some turn) item = serde.uuid_text item.turn_id == turn

  abbrev pub is_parent_of : NewLedgerEvent → Item → Bool
  is_parent_of scope item =
      serde.uuid_text item.thread_id == scope.thread_id
      && (is_turn scope.turn_id item && item.agent_id == scope.agent_id)

  -- The one block of a result, if it is named: whether it is an error.
  abbrev pub one_block : List ContentBlock → Outcome Bool
  one_block (tool_result call_id content is_error ∷ []) =
      if is_blank call_id then fault Errors.not_one_block else ok is_error
  one_block _ = fault Errors.not_one_block

  -- The item of a result names the invocation and holds one block.
  unfoldable pub check_item : NewLedgerEvent → Item → InvocationId → Outcome Bool
  check_item scope item id = do
    check (is_parent_of scope item) Errors.item_parent
    named ←
        ok_or (member (bytes "invocation_id") item.content)
          (invalid_invocation_outcome Errors.invocation_id_missing)
    item_id ← or_fault Errors.invalid_invocation_id (serde.decode_invocation_id named)
    check (item_id == id) Errors.different_invocations
    content ←
        ok_or (member (bytes "content") item.content)
          (invalid_invocation_outcome Errors.content_missing)
    blocks ← or_fault Errors.invalid_content (serde.decode_blocks content)
    one_block blocks

  abbrev same_bool : Bool → Bool → Bool
  same_bool true b = b
  same_bool false b = not b

  unfoldable pub validate_invocation_outcome : NewInvocationOutcome → Outcome (Unit {0})
  unfolding InvocationState-discrete
  validate_invocation_outcome input = do
    check (same_scope input.tool_result input.terminal_state) Errors.scopes_differ
    check (accepts protocol_version input.tool_result.schema_version)
        (Errors.unsupported_schema input.tool_result.schema_version)
    check (is_some input.tool_result.turn_id) Errors.turn_required
    result_event ← decode_new_event input.tool_result
    terminal_event ← decode_new_event input.terminal_state
    (id, terminal_state) ← terminal_of terminal_event
    item ← tool_result_of result_event
    is_error ← check_item input.tool_result item id
    check
        (same_bool is_error
          (not (same InvocationState-discrete terminal_state InvocationState.completed)))
        Errors.polarity_differs

  -- A `Started -> Unknown` event with a reason.
  abbrev pub unknown_of : Event → Outcome InvocationId
  unknown_of (invocation_state_changed id InvocationState.started InvocationState.unknown reason) =
      if is_reason reason then ok id else fault Errors.reason_required
  unknown_of _ = fault Errors.not_unknown_marker

  unfoldable pub validate_invocation_unknown : NewLedgerEvent → Outcome InvocationId
  validate_invocation_unknown input = do
    check (accepts protocol_version input.schema_version)
        (Errors.unsupported_schema input.schema_version)
    check (is_some input.turn_id) Errors.turn_required
    event ← decode_new_event input
    unknown_of event

  unfoldable pub validate_invocation_unknown_outcome :
      NewInvocationUnknownOutcome → Outcome InvocationId
  validate_invocation_unknown_outcome input = do
    check (not (input.unknown_state.event_id == input.tool_result.event_id)) Errors.same_event_ids
    check (same_scope input.unknown_state input.tool_result) Errors.scopes_differ
    check (accepts protocol_version input.unknown_state.schema_version)
        (Errors.unsupported_schema input.unknown_state.schema_version)
    check (is_some input.unknown_state.turn_id) Errors.turn_required
    state_event ← decode_new_event input.unknown_state
    id ← unknown_of state_event
    result_event ← decode_new_event input.tool_result
    item ← tool_result_of result_event
    is_error ← check_item input.tool_result item id
    check is_error Errors.not_one_block
    ok id

  abbrev pub reconciled_of : Event → Outcome (Unit {0})
  reconciled_of (invocation_reconciled id outcome evidence) = ok tt
  reconciled_of _ = fault Errors.not_reconciled

  unfoldable pub validate_invocation_reconciliation : NewInvocationOutcome → Outcome (Unit {0})
  validate_invocation_reconciliation input = do
    validate_invocation_outcome input
    event ← decode_new_event input.terminal_state
    reconciled_of event

  -- The invocation, the state before and the state after.
  abbrev pub precondition_of : Event → Outcome (InvocationId × InvocationState × InvocationState)
  precondition_of (invocation_state_changed id from to reason) =
      if is_terminal to then ok (id, from, to) else fault Errors.no_precondition
  precondition_of (invocation_reconciled id outcome evidence) =
      ok (id, InvocationState.unknown, outcome_state outcome)
  precondition_of _ = fault Errors.no_precondition

  unfoldable pub invocation_outcome_precondition :
      NewInvocationOutcome → Outcome (InvocationId × InvocationState × InvocationState)
  invocation_outcome_precondition input = do
    event ← decode_new_event input.terminal_state
    precondition_of event
