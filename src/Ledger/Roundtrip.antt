-- ===== src/Ledger/Roundtrip.antt =====
-- An envelope that is stored is read back.
use yeu_xharness.Ledger.Store.{or_error}
use yeu_xharness.Base.{true, ◌≡◌, refl, sym, ap, Option, none, some, Str, bytes, arith}
use yeu_xharness.Base.Results.{Result, ok, err, bind-eq_ok, ok-injective}
use yeu_xharness.Protocol.Ids.{Uuid}
use yeu_xharness.Protocol.Json.{Value}
use yeu_xharness.Protocol.Event.{Event, EventEnvelope, accepts}
use yeu_xharness.Projection.Apply.{protocol_version}
use yeu_xharness.Ledger.Types.{LedgerEvent}
use yeu_xharness.Ledger.Errors.{LedgerError, json}
use yeu_xharness.Ledger.Serde.{Serde}
use yeu_xharness.Ledger.Envelope.{
  kind_and_payload, ledger_event, event_envelope, parse_uuid, optional_text, parse_optional,
}

-- What serde and uuid document: the kind and the payload that an event was written with are read as
-- that event, and the text of a UUID as that UUID.
pub record IsFaithful (serde : Serde) : Type 0 where
  pub decode_encoded :
      (e : Event) (v : Value) (kind : Str) (payload : Value)
      → serde.encode_event e ≡ ok v
      → kind_and_payload v ≡ ok (kind, payload)
      → serde.decode_event kind payload ≡ ok e
  pub parse_text : (u : Uuid) → serde.parse_uuid (serde.uuid_text u) ≡ ok u

module _ (serde : Serde) (faithful : IsFaithful serde) where
  or_error-ok :
      {A : Type 0} (f : Str → LedgerError) (r : Result Str A) (a : A)
      → or_error f r ≡ ok a
      → r ≡ ok a
  or_error-ok f (ok b) a h = ap (λ x. ok x) (ok-injective _ _ h)
  or_error-ok f (err m) a h = ground arith

  parse_uuid-text : (field : Str) (u : Uuid) → parse_uuid serde field (serde.uuid_text u) ≡ ok u
  unfolding parse_uuid
  parse_uuid-text field u = rw (faithful.parse_text u) refl

  parse_optional-text :
      (field : Str) (u : Option Uuid) → parse_optional serde field (optional_text serde u) ≡ ok u
  parse_optional-text field none = refl
  parse_optional-text field (some u) = rw (parse_uuid-text field u) refl

  -- If serde and uuid are faithful, and an envelope of an accepted protocol version converts to a row,
  -- then that row converts back to the envelope.
  pub event_envelope-ledger_event :
      (e : EventEnvelope) (row : LedgerEvent)
      → accepts protocol_version e.schema_version ≡ true
      → ledger_event serde e ≡ ok row
      → event_envelope serde row ≡ ok e
  unfolding ledger_event event_envelope
  event_envelope-ledger_event e row accepted h =
      let (v, encoded, h1) = bind-eq_ok (or_error json (serde.encode_event e.event)) _ _ h in
      let ((kind, payload), tagged, h2) = bind-eq_ok (kind_and_payload v) _ _ h1 in
      let decoded =
        faithful.decode_encoded e.event v kind payload (or_error-ok json _ v encoded) tagged in
      rw
        (
          sym (ok-injective _ _ h2),
          accepted,
          decoded,
          parse_uuid-text (bytes "event_id") e.event_id,
          parse_uuid-text (bytes "thread_id") e.thread_id,
          parse_optional-text (bytes "turn_id") e.turn_id,
        )
        refl
