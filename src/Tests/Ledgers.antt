-- ===== src/Tests/Ledgers.antt =====
-- Concrete ledgers, on a serializer that writes diagnostics only.
use yeu_xharness.Base.{
  ℕ, Bool, true, false, ◌≡◌, refl, subst, List, [], ◌∷◌, ◌++◌, none, some, Str, bytes, str_ord,
  nat_ord, arith,
}
use yeu_xharness.Base.Map.{get, insert}
use yeu_xharness.Base.Set
use yeu_xharness.Base.Results.{Result, ok, err}
use yeu_xharness.Protocol.Ids.{Uuid}
use yeu_xharness.Protocol.Json.{Value, bool, string, array, object, nil, cons, end, field, field_of}
use yeu_xharness.Protocol.Event.{
  Event, EventEnvelope, workspace_opened, workspace_trust_changed, thread_started, thread_forked,
  thread_archived, turn_started, turn_state_changed, turn_steered, item_added, model_requested,
  model_stream_event, invocation_proposed, invocation_state_changed, invocation_reconciled,
  job_created, job_state_changed, agent_spawned, agent_completed, runtime_diagnostic,
}
use yeu_xharness.Projection.Apply.{protocol_version}
use yeu_xharness.Ledger.Types.{
  LedgerEvent, NewLedgerEvent, NewCommandReceipt, CommandBatchAppendResult,
}
use yeu_xharness.Ledger.Errors.{command_id_conflict}
use yeu_xharness.Ledger.Store.{
  Ledger, Row, empty_ledger, find_event, row_to_event, find_receipt, row_to_receipt,
  get_command_receipt, insert_command_receipt, insert_event, get_event_by_id, max_seq,
  max_append_order, next_sqlite_sequence, sql_integer, transact,
}
use yeu_xharness.Ledger.Stored.{AreKeptInputs}
use yeu_xharness.Ledger.Repeats.{append_batch_again}
use yeu_xharness.Ledger.Append.{
  append_batch, append_batch_transaction, append_counted, look_up, existing_count, append_all,
  append_each, append_after, preload, import_body, import_new, import_with_duplicate_policy,
}
use yeu_xharness.Ledger.Read.{replay, replay_page, read_all, take}
use yeu_xharness.Ledger.Receipts.{
  append_batch_with_receipt, append_batch_with_receipt_body, append_batch_new, once, preflight,
}
use yeu_xharness.Ledger.Serde.{Serde}
use yeu_xharness.Ledger.Growth.{IsWellFormed}
use yeu_xharness.Ledger.Journal.{
  Write, appended, batch_appended, perform_all, written, ledger_append_only,
}
use yeu_xharness.Ledger.Commands.{command_applied_once}
use yeu_xharness.Ledger.Numbered.{IsNumbered, drop}
use yeu_xharness.Ledger.Threads.{history, replay_complete}
use yeu_xharness.Ledger.Envelope.{
  kind_and_payload, ledger_event, event_envelope, store_append, project_core, replay_core,
}
use yeu_xharness.Ledger.Roundtrip.{IsFaithful, event_envelope-ledger_event}
use yeu_xharness.Ledger.Core.{IsKeptRow, store_all, project_core-store_all}

-- A serializer for diagnostics, with texts of ids that are one character long.
abbrev payload_of : Str → Str → Bool → Value
payload_of code message b = array (cons (string code) (cons (string message) (cons (bool b) nil)))

abbrev encode : Event → Result Str Value
encode (runtime_diagnostic code message b) = ok (
    object (
      field (bytes "kind") (string (bytes "runtime/diagnostic"))
        (field (bytes "payload") (payload_of code message b) end)))
encode _ = err (bytes "not a diagnostic")

abbrev decode : Str → Value → Result Str Event
decode kind (array (cons (string code) (cons (string message) (cons (bool b) nil)))) =
    ok (runtime_diagnostic code message b)
decode kind _ = err (bytes "not a diagnostic")

abbrev parse : Str → Result Str Uuid
parse (u ∷ []) = ok u
parse _ = err (bytes "not an id")

abbrev plain : Serde
plain = record {
  decode_event = decode;
  encode_event = encode;
  decode_invocation_id = λ v. err (bytes "not an id");
  decode_blocks = λ v. err (bytes "no blocks");
  digest_effects = λ e. ok (bytes "e");
  uuid_text = λ u. u ∷ [];
  parse_uuid = parse;
  reread_version = λ v. ok v;
  reread_time = λ t. ok t;
  reread_json = λ v. ok v;
  json_valid = λ v. true;
}

plain-decodes :
    (e : Event) (v : Value) (kind : Str) (payload : Value)
    → encode e ≡ ok v
    → kind_and_payload v ≡ ok (kind, payload)
    → decode kind payload ≡ ok e
unfolding kind_and_payload field_of str_ord
plain-decodes (runtime_diagnostic code message b) v kind payload h t =
    let same : payload_of code message b ≡ payload = ground arith in
    subst (λ q. decode kind q ≡ ok (runtime_diagnostic code message b)) same refl
plain-decodes (workspace_opened a) v kind payload h t = ground arith
plain-decodes (workspace_trust_changed a b) v kind payload h t = ground arith
plain-decodes (thread_started a) v kind payload h t = ground arith
plain-decodes (thread_forked a) v kind payload h t = ground arith
plain-decodes (thread_archived a) v kind payload h t = ground arith
plain-decodes (turn_started a) v kind payload h t = ground arith
plain-decodes (turn_state_changed a b c d) v kind payload h t = ground arith
plain-decodes (turn_steered a b) v kind payload h t = ground arith
plain-decodes (item_added a) v kind payload h t = ground arith
plain-decodes (model_requested a) v kind payload h t = ground arith
plain-decodes (model_stream_event a b) v kind payload h t = ground arith
plain-decodes (invocation_proposed a b c d f g i j) v kind payload h t = ground arith
plain-decodes (invocation_state_changed a b c d) v kind payload h t = ground arith
plain-decodes (invocation_reconciled a b c) v kind payload h t = ground arith
plain-decodes (job_created a) v kind payload h t = ground arith
plain-decodes (job_state_changed a b c) v kind payload h t = ground arith
plain-decodes (agent_spawned a) v kind payload h t = ground arith
plain-decodes (agent_completed a) v kind payload h t = ground arith

plain-IsFaithful : IsFaithful plain
plain-IsFaithful = record { decode_encoded = plain-decodes; parse_text = λ u. refl }

abbrev new_event : Str → Str → NewLedgerEvent
new_event id thread = record {
  schema_version = protocol_version;
  event_id = id;
  thread_id = thread;
  turn_id = none;
  agent_id = bytes "root";
  time = 0;
  causation_id = none;
  kind = bytes "runtime/diagnostic";
  payload = payload_of (bytes "c") (bytes "m") true;
}

abbrev two_threads : List NewLedgerEvent
two_threads =
    new_event (bytes "e1") (bytes "t")
    ∷ new_event (bytes "e2") (bytes "u")
    ∷ new_event (bytes "e3") (bytes "t")
    ∷ []

abbrev receipt : Str → NewCommandReceipt
receipt digest = record {
  command_id = bytes "c1";
  method = bytes "turn/start";
  params_digest = digest;
  response = string (bytes "done");
  created_at = 0;
}

-- A batch, the same batch again, and an event under a stored id.
abbrev calls : List Write
calls =
    batch_appended two_threads
    ∷ batch_appended two_threads
    ∷ appended (new_event (bytes "e1") (bytes "u"))
    ∷ []

ledger_append_only_example :
    IsWellFormed (written plain calls).rows
    × ((news : List Row) × ((perform_all plain
            (written plain calls)
            (appended (new_event (bytes "e4") (bytes "u")) ∷ [])).rows
          ≡ news ++ (written plain calls).rows))
ledger_append_only_example =
    ledger_append_only plain calls (appended (new_event (bytes "e4") (bytes "u")) ∷ [])

replay_complete_example :
    IsNumbered (λ (e : LedgerEvent). e.seq) 1 (history (bytes "t") (written plain calls).rows)
    × (replay plain (written plain calls) (bytes "t") 1
        ≡ read_all plain (drop 1 (history (bytes "t") (written plain calls).rows)))
    × (replay_page plain (written plain calls) (bytes "t") 1 5
        ≡ read_all plain (take 5 (drop 1 (history (bytes "t") (written plain calls).rows))))
replay_complete_example = replay_complete plain calls (bytes "t") 1 5 (omega arith) (omega arith)

abbrev command_result : CommandBatchAppendResult
command_result = record {
  events =
      record {
        schema_version = protocol_version;
        event_id = bytes "e1";
        thread_id = bytes "t";
        turn_id = none;
        agent_id = bytes "root";
        seq = 1;
        time = 0;
        causation_id = none;
        kind = bytes "runtime/diagnostic";
        payload = payload_of (bytes "c") (bytes "m") true;
      }
      ∷ [];
  response = string (bytes "done");
  replayed = false;
}

abbrev one_event : List NewLedgerEvent
one_event = new_event (bytes "e1") (bytes "t") ∷ []

abbrev after_command : Ledger
after_command = (append_batch_with_receipt plain empty_ledger one_event (receipt (bytes "d"))).0

command_done :
    append_batch_with_receipt plain empty_ledger one_event (receipt (bytes "d"))
    ≡ (after_command, ok command_result)
unfolding append_batch_with_receipt append_batch_with_receipt_body once append_batch_new preflight
    append_all append_each append_after preload insert_event sql_integer insert_command_receipt
    get_command_receipt find_receipt row_to_receipt get_event_by_id find_event row_to_event max_seq
    max_append_order next_sqlite_sequence transact get insert Set.insert str_ord
command_done = refl

command_applied_once_example :
    append_batch_with_receipt plain
      (perform_all plain after_command calls)
      two_threads
      (receipt (bytes "x"))
    ≡ (perform_all plain after_command calls, err (command_id_conflict (bytes "c1")))
unfolding str_ord
command_applied_once_example =
    command_applied_once plain empty_ledger one_event (receipt (bytes "d")) after_command
      command_result (refl, refl) command_done calls two_threads (receipt (bytes "x")) refl

abbrev diagnostic : EventEnvelope
diagnostic = record {
  schema_version = protocol_version;
  event_id = 7;
  thread_id = 1;
  turn_id = some 3;
  agent_id = bytes "root";
  seq = 1;
  time = 0;
  causation_id = none;
  event = runtime_diagnostic (bytes "c") (bytes "m") true;
}

abbrev diagnostic_row : LedgerEvent
diagnostic_row = record {
  schema_version = protocol_version;
  event_id = 7 ∷ [];
  thread_id = 1 ∷ [];
  turn_id = some (3 ∷ []);
  agent_id = bytes "root";
  seq = 1;
  time = 0;
  causation_id = none;
  kind = bytes "runtime/diagnostic";
  payload = payload_of (bytes "c") (bytes "m") true;
}

diagnostic_stored : ledger_event plain diagnostic ≡ ok diagnostic_row
unfolding ledger_event kind_and_payload field_of str_ord
diagnostic_stored = refl

event_envelope-ledger_event_example : event_envelope plain diagnostic_row ≡ ok diagnostic
event_envelope-ledger_event_example =
    event_envelope-ledger_event plain plain-IsFaithful diagnostic diagnostic_row refl
      diagnostic_stored

abbrev diagnostic_ledger : Ledger
diagnostic_ledger = record {
  rows = record { append_order = 1; event = diagnostic_row } ∷ [];
  receipts = [];
}

diagnostic_appended : store_all plain empty_ledger (diagnostic ∷ []) ≡ ok diagnostic_ledger
unfolding store_all store_append import_with_duplicate_policy import_body import_new ledger_event
    kind_and_payload field_of insert_event sql_integer get_event_by_id find_event row_to_event
    max_seq max_append_order next_sqlite_sequence transact str_ord
diagnostic_appended = refl

diagnostic-kept : IsKeptRow plain (ok diagnostic_row)
unfolding row_to_event
diagnostic-kept = refl

project_core-store_all_example :
    project_core plain diagnostic_ledger ≡ replay_core plain (ok (diagnostic ∷ []))
project_core-store_all_example =
    project_core-store_all plain (diagnostic ∷ []) diagnostic_ledger plain-IsFaithful refl
      (rw diagnostic_stored diagnostic-kept, tt) diagnostic_appended

abbrev batch_ledger : Ledger
batch_ledger = (append_batch plain empty_ledger two_threads).0

abbrev numbered_event : Str → Str → ℕ → LedgerEvent
numbered_event id thread seq = record {
  schema_version = protocol_version;
  event_id = id;
  thread_id = thread;
  turn_id = none;
  agent_id = bytes "root";
  seq = seq;
  time = 0;
  causation_id = none;
  kind = bytes "runtime/diagnostic";
  payload = payload_of (bytes "c") (bytes "m") true;
}

abbrev batch_events : List LedgerEvent
batch_events =
    numbered_event (bytes "e1") (bytes "t") 1
    ∷ numbered_event (bytes "e2") (bytes "u") 1
    ∷ numbered_event (bytes "e3") (bytes "t") 2
    ∷ []

batch_done : append_batch plain empty_ledger two_threads ≡ (batch_ledger, ok batch_events)
unfolding append_batch append_batch_transaction append_counted look_up existing_count append_all
    append_each append_after preload insert_event sql_integer get_event_by_id find_event
    row_to_event max_seq max_append_order next_sqlite_sequence transact get insert Set.insert
    str_ord
batch_done = refl

two_threads-kept : AreKeptInputs plain two_threads
two_threads-kept = ((refl, refl, refl), ((refl, refl, refl), ((refl, refl, refl), tt)))

append_batch_again_example :
    append_batch plain (perform_all plain batch_ledger calls) two_threads
    ≡ (perform_all plain batch_ledger calls, ok batch_events)
append_batch_again_example =
    append_batch_again plain empty_ledger two_threads batch_ledger batch_events calls
      two_threads-kept batch_done
