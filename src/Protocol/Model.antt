-- ===== src/Protocol/Model.antt =====
-- crates/yeux-protocol/src/model.rs: what a provider streams, and the blocks of messages.
use yeu_xharness.Base.{ℕ, Bool, Option, Str}
use yeu_xharness.Protocol.Json.{Value}

-- An `i64`, by its sign: `minus n` is -(n + 1).
pub data Micros : Type 0 where
  plus minus : ℕ → Micros

pub record Money : Type 0 where
  pub currency : Str
  pub micros : Micros

pub record Usage : Type 0 where
  pub input_tokens : ℕ
  pub output_tokens : ℕ
  pub cached_tokens : ℕ
  pub cost : Option Money

pub data StopReason : Type 0 where
  end_turn max_tokens tool_use cancelled content_filter : StopReason
  other : Str → StopReason

pub data ModelEvent : Type 0 where
  text_delta reasoning_delta : Str → ModelEvent
  tool_call_delta : (call_id name json_delta : Str) → ModelEvent
  usage : Usage → ModelEvent
  completed : StopReason → ModelEvent
  failed : (code message : Str) → Bool → ModelEvent

pub data ImageSource : Type 0 where
  url base64 artifact : Str → ImageSource

pub data ContentBlock : Type 0 where
  text reasoning : Str → ContentBlock
  image : (media_type : Str) → ImageSource → ContentBlock
  tool_call : (call_id name : Str) (arguments : Value) → ContentBlock
  tool_result : (call_id : Str) (content : Value) (is_error : Bool) → ContentBlock
