-- ===== src/Ledger/Serde.antt =====
-- What serde, uuid, chrono and SQLite provide: how an event is read from its kind and payload and written to them,
-- the texts of ids, and what is read back of a value that was stored as a text, which need not be
-- the value. An error is its text.
use yeu_xharness.Base.{Bool, List, Str}
use yeu_xharness.Base.Results.{Result}
use yeu_xharness.Protocol.Ids.{DateTime, InvocationId, Uuid}
use yeu_xharness.Protocol.Json.{Value}
use yeu_xharness.Protocol.Tool.{EffectSet}
use yeu_xharness.Protocol.Model.{ContentBlock}
use yeu_xharness.Protocol.Event.{Event, ProtocolVersion}

pub record Serde : Type 0 where
  -- `from_value` of an object with a kind and a payload
  pub decode_event : Str → Value → Result Str Event
  -- `to_value`, which gives an object with a kind and perhaps a payload
  pub encode_event : Event → Result Str Value
  pub decode_invocation_id : Value → Result Str InvocationId
  pub decode_blocks : Value → Result Str (List ContentBlock)
  -- `digest_serializable` at an effect set
  pub digest_effects : EffectSet → Result Str Str
  pub uuid_text : Uuid → Str
  pub parse_uuid : Str → Result Str Uuid
  -- What `from_str` and `parse_from_rfc3339` make of the text that `to_string` and `to_rfc3339` wrote
  pub reread_version : ProtocolVersion → Result Str ProtocolVersion
  pub reread_time : DateTime → Result Str DateTime
  pub reread_json : Value → Result Str Value
  -- SQLite's `json_valid` of the text of a value
  pub json_valid : Value → Bool
