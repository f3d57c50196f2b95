-- ===== src/Tests/Outcomes.antt =====
-- A ledger with a proposal, and the outcome of its invocation.
use yeu_xharness.Base.{
  ℕ, true, ◌≡◌, refl, List, [], ◌∷◌, none, some, Str, bytes, str_ord, nat_ord, ◌==◌, ==_iff, arith,
  if◌then◌else◌,
}
use yeu_xharness.Base.Blank.{is_blank}
use yeu_xharness.Base.Map.{get, insert}
use yeu_xharness.Base.Set
use yeu_xharness.Base.Results.{Result, ok, err}
use yeu_xharness.Protocol.Ids.{InvocationId}
use yeu_xharness.Protocol.Json.{Value, null, object, end, field, field_of, member}
use yeu_xharness.Protocol.Domain.{Item, ItemKind, ItemKind-discrete}
use yeu_xharness.Protocol.Model.{tool_result}
use yeu_xharness.Protocol.Tool.{
  Idempotency, Idempotency-discrete, InvocationState, InvocationState-discrete, default_effects,
}
use yeu_xharness.Protocol.Event.{Event, item_added, invocation_proposed, invocation_state_changed}
use yeu_xharness.Invocation.Machine.{
  can_transition_invocation, can_transition_invocation_with_idempotency,
}
use yeu_xharness.Projection.Apply.{protocol_version}
use yeu_xharness.Ledger.Types.{
  LedgerEvent, NewLedgerEvent, NewInvocationOutcome, Option_Str-discrete,
}
use yeu_xharness.Ledger.Store.{
  Ledger, transact, get_event_by_id, find_event, row_to_event, max_seq, max_append_order,
  next_sqlite_sequence, sql_integer, insert_event,
}
use yeu_xharness.Ledger.Scope.{
  invocation_scope_in, first_scope, proposed_call, validate_invocation_proposal_scope,
  tool_result_call_id,
}
use yeu_xharness.Ledger.Read.{read_all, order_by, place}
use yeu_xharness.Ledger.Append.{
  append_batch_transaction, append_counted, append_all, append_each, append_after, look_up,
  existing_count, preload, append, append_body, append_new,
}
use yeu_xharness.Ledger.Serde.{Serde}
use yeu_xharness.Ledger.Outcomes.{
  invocation_outcome_precondition, validate_invocation_outcome, same_scope, decode_new_event,
  terminal_of, tool_result_of, check_item,
}
use yeu_xharness.Ledger.History.{
  invocation_state_in, follow_all, follow, propose, validate_invocation_proposal_evidence,
  required_fields, invocation_events, change,
}
use yeu_xharness.Ledger.Checked.{
  append_invocation_outcome, append_invocation_events_checked,
  append_invocation_events_checked_transaction, fully_existing, is_in_scope, check_scope,
  InvocationState_Option-discrete,
}
use yeu_xharness.Ledger.Journal.{Write, appended, perform, perform_all, written}
use yeu_xharness.Ledger.Settled.{IsTagged}
use yeu_xharness.Ledger.Settlement.{Committed, outcome-Committed}

abbrev proposal : Event
proposal =
    invocation_proposed 9 (bytes "call") (bytes "tool") (bytes "1") (bytes "args") default_effects
      (bytes "effects") Idempotency.idempotent

abbrev result_item : Item
result_item = record {
  id = 5;
  thread_id = 1;
  turn_id = 2;
  agent_id = bytes "root";
  kind = ItemKind.tool_result;
  content = object (field (bytes "invocation_id") null (field (bytes "content") null end));
  created_at = 0;
}

-- One event of each kind.
abbrev decode : Str → Value → Result Str Event
decode kind payload =
    if kind == bytes "tool/proposed"
    then ok proposal
    else if kind == bytes "tool/state_changed"
    then ok (invocation_state_changed 9 InvocationState.proposed InvocationState.failed none)
    else if kind == bytes "item/added"
    then ok (item_added result_item)
    else err (bytes "unknown variant")

abbrev few_kinds : Serde
few_kinds = record {
  decode_event = decode;
  encode_event = λ e. err (bytes "not written");
  decode_invocation_id = λ v. ok 9;
  decode_blocks = λ v. ok (tool_result (bytes "call") null true ∷ []);
  digest_effects = λ e. ok (bytes "effects");
  uuid_text = λ u. u ∷ [];
  parse_uuid = λ s. err (bytes "not read");
  reread_version = λ v. ok v;
  reread_time = λ t. ok t;
  reread_json = λ v. ok v;
  json_valid = λ v. true;
}

few_kinds-IsTagged : IsTagged few_kinds
few_kinds-IsTagged = record {
  change_tagged =
      λ kind payload id from to reason h. ground (arith, ==_iff kind (bytes "tool/state_changed"));
  reconciliation_tagged = λ kind payload id outcome evidence h. absurd (ground arith);
  item_tagged = λ kind payload item h. ground (arith, ==_iff kind (bytes "item/added"));
}

abbrev input : Str → Str → NewLedgerEvent
input id kind = record {
  schema_version = protocol_version;
  event_id = id;
  thread_id = 1 ∷ [];
  turn_id = some (2 ∷ []);
  agent_id = bytes "root";
  time = 0;
  causation_id = none;
  kind = kind;
  payload = null;
}

abbrev proposed_once : List Write
proposed_once = appended (input (bytes "e1") (bytes "tool/proposed")) ∷ []

abbrev outcome : NewInvocationOutcome
outcome = record {
  tool_result = input (bytes "e2") (bytes "item/added");
  terminal_state = input (bytes "e3") (bytes "tool/state_changed");
}

abbrev settled_ledger : Ledger
settled_ledger = (append_invocation_outcome few_kinds (written few_kinds proposed_once) outcome).0

abbrev stored_event : Str → Str → ℕ → LedgerEvent
stored_event id kind seq = record {
  schema_version = protocol_version;
  event_id = id;
  thread_id = 1 ∷ [];
  turn_id = some (2 ∷ []);
  agent_id = bytes "root";
  seq = seq;
  time = 0;
  causation_id = none;
  kind = kind;
  payload = null;
}

abbrev outcome_stored : List LedgerEvent
outcome_stored =
    stored_event (bytes "e2") (bytes "item/added") 2
    ∷ stored_event (bytes "e3") (bytes "tool/state_changed") 3
    ∷ []

outcome_done :
    append_invocation_outcome few_kinds (written few_kinds proposed_once) outcome
    ≡ (settled_ledger, ok outcome_stored)
unfolding validate_invocation_outcome same_scope decode_new_event terminal_of tool_result_of
    check_item invocation_outcome_precondition append_invocation_outcome
    append_invocation_events_checked append_invocation_events_checked_transaction fully_existing
    is_in_scope check_scope InvocationState_Option-discrete invocation_state_in follow_all follow
    propose validate_invocation_proposal_evidence required_fields invocation_events change
    invocation_scope_in first_scope proposed_call validate_invocation_proposal_scope
    tool_result_call_id order_by place append_batch_transaction append_counted append_all
    append_each append_after look_up existing_count preload append append_body append_new
    get_event_by_id find_event row_to_event read_all max_seq max_append_order next_sqlite_sequence
    sql_integer insert_event transact perform_all perform str_ord is_blank member field_of
    can_transition_invocation can_transition_invocation_with_idempotency InvocationState-discrete
    ItemKind-discrete Idempotency-discrete Option_Str-discrete get insert Set.insert
outcome_done = refl

outcome-Committed_example :
    (id : InvocationId) × (expected : InvocationState) × (final : InvocationState)
    × (invocation_outcome_precondition few_kinds outcome ≡ ok (id, expected, final))
    × (invocation_state_in few_kinds settled_ledger.rows (id ∷ []) ≡ ok (some final))
    × Committed few_kinds
        (written few_kinds proposed_once)
        outcome
        settled_ledger
        outcome_stored
        (id ∷ [])
        expected
outcome-Committed_example =
    outcome-Committed few_kinds proposed_once outcome settled_ledger outcome_stored
      few_kinds-IsTagged (null, refl, refl) outcome_done
