-- ===== src/Ledger/Envelope.antt =====
-- The conversions between envelopes and rows, and the event store and core projection over them.
-- `ledger_port_error`, which rewords an error for the port, is left out.
use yeu_xharness.Base.{
  ℕ, false, List, [], ◌∷◌, ◌++◌, Option, none, some, Str, str_ord, bytes, nat_ord,
}
use yeu_xharness.Base.Decimal.{decimal}
use yeu_xharness.Base.Results.{Result, ok, err, ◌>>=◌, ◌>>◌, require, ok_or}
use yeu_xharness.Protocol.Ids.{Uuid, ThreadId}
use yeu_xharness.Protocol.Json.{Value, field_of, as_str, null, object}
use yeu_xharness.Protocol.Event.{EventEnvelope, ProtocolVersion, accepts}
use yeu_xharness.Projection.State.{Projection, ReplayError}
use yeu_xharness.Projection.Apply
use yeu_xharness.Projection.Apply.{protocol_version}
use yeu_xharness.Ledger.Types.{LedgerEvent}
use yeu_xharness.Ledger.Errors.{LedgerError, invalid_envelope, json}
use yeu_xharness.Ledger.Store.{Ledger, Outcome, or_error}
use yeu_xharness.Ledger.Append.{import_with_duplicate_policy}
use yeu_xharness.Ledger.Read.{replay, all_events}
use yeu_xharness.Ledger.Serde.{Serde}

abbrev pub or_null : Option Value → Value
or_null none = null
or_null (some v) = v

abbrev pub text_of : Option Value → Option Str
text_of none = none
text_of (some v) = as_str v

-- The kind and the payload of a serialized event.
unfoldable pub kind_and_payload : Value → Outcome (Str × Value)
kind_and_payload (object fields) = do
  kind ←
      ok_or (text_of (field_of (bytes "kind") fields))
        (invalid_envelope (bytes "Event is missing kind"))
  ok (kind, or_null (field_of (bytes "payload") fields))
kind_and_payload _ = err (invalid_envelope (bytes "serialized Event must be an object"))

abbrev unsupported : ProtocolVersion → LedgerError
unsupported v = invalid_envelope (
    bytes "unsupported event schema "
    ++ decimal v.major
    ++ bytes "."
    ++ decimal v.minor
    ++ bytes "; runtime supports "
    ++ decimal protocol_version.major
    ++ bytes "."
    ++ decimal protocol_version.minor)

pub data CoreProjectionError : Type 0 where
  ledger_failed : LedgerError → CoreProjectionError
  replay_failed : ReplayError → CoreProjectionError

-- The import of an event that was converted.
abbrev pub store_row : Serde → Ledger → Outcome LedgerEvent → Ledger × Outcome (Unit {0})
store_row serde l (ok event) = import_with_duplicate_policy serde l event false
store_row serde l (err fault) = (l, err fault)

module _ (serde : Serde) where
  abbrev pub optional_text : Option Uuid → Option Str
  optional_text none = none
  optional_text (some u) = some (serde.uuid_text u)

  -- `LedgerEvent::try_from`
  unfoldable pub ledger_event : EventEnvelope → Outcome LedgerEvent
  unfolding kind_and_payload
  ledger_event e = do
    serialized ← or_error json (serde.encode_event e.event)
    (kind, payload) ← kind_and_payload serialized
    ok (record {
      schema_version = e.schema_version;
      event_id = serde.uuid_text e.event_id;
      thread_id = serde.uuid_text e.thread_id;
      turn_id = optional_text e.turn_id;
      agent_id = e.agent_id;
      seq = e.seq;
      time = e.time;
      causation_id = e.causation_id;
      kind = kind;
      payload = payload;
    })

  unfoldable pub parse_uuid : (field value : Str) → Outcome Uuid
  parse_uuid field value =
      or_error (λ message. invalid_envelope (bytes "invalid " ++ field ++ bytes ": " ++ message))
        (serde.parse_uuid value)

  abbrev pub parse_optional : (field : Str) → Option Str → Outcome (Option Uuid)
  parse_optional field none = ok none
  parse_optional field (some value) = parse_uuid field value >>= (λ u. ok (some u))

  -- `EventEnvelope::try_from`
  unfoldable pub event_envelope : LedgerEvent → Outcome EventEnvelope
  unfolding parse_uuid
  event_envelope e = do
    require (accepts protocol_version e.schema_version) (unsupported e.schema_version)
    event ← or_error json (serde.decode_event e.kind e.payload)
    event_id ← parse_uuid (bytes "event_id") e.event_id
    thread_id ← parse_uuid (bytes "thread_id") e.thread_id
    turn_id ← parse_optional (bytes "turn_id") e.turn_id
    ok (record {
      schema_version = e.schema_version;
      event_id = event_id;
      thread_id = thread_id;
      turn_id = turn_id;
      agent_id = e.agent_id;
      seq = e.seq;
      time = e.time;
      causation_id = e.causation_id;
      event = event;
    })

  unfoldable pub event_envelopes : List LedgerEvent → Outcome (List EventEnvelope)
  event_envelopes [] = ok []
  event_envelopes (e ∷ events) = do
    first ← event_envelope e
    rest ← event_envelopes events
    ok (first ∷ rest)

  -- `EventStore::append`
  unfoldable pub store_append : Ledger → EventEnvelope → Ledger × Outcome (Unit {0})
  store_append l e = store_row serde l (ledger_event e)

  -- `EventStore::load_thread`
  unfoldable pub load_thread : Ledger → ThreadId → ℕ → Outcome (List EventEnvelope)
  load_thread l thread after_seq =
      replay serde l (serde.uuid_text thread) after_seq >>= event_envelopes

  abbrev replayed : Result ReplayError Projection → Result CoreProjectionError Projection
  replayed (ok p) = ok p
  replayed (err e) = err (replay_failed e)

  -- The core's `replay` on envelopes that were read.
  abbrev pub replay_core : Outcome (List EventEnvelope) → Result CoreProjectionError Projection
  replay_core (ok events) = replayed (Apply.replay serde.digest_effects events)
  replay_core (err e) = err (ledger_failed e)

  unfoldable pub project_core : Ledger → Result CoreProjectionError Projection
  project_core l = replay_core (all_events serde l >>= event_envelopes)
