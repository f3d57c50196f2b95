-- ===== src/Ledger/Types.antt =====
-- The rows, inputs, receipts and errors of the ledger. Ids and times stand as the ledger keeps them,
-- ids as texts. A message that the source prints is a constructor with what it prints.
use yeu_xharness.Base.{ℕ, Bool, List, Option, Str, str_ord, nat_ord, ℕ_discrete}
use yeu_xharness.Protocol.Ids.{DateTime}
use yeu_xharness.Protocol.Json.{Value}
use yeu_xharness.Protocol.Event.{ProtocolVersion}

pub record LedgerEvent : Type 0 where
  pub schema_version : ProtocolVersion
  pub event_id : Str
  pub thread_id : Str
  pub turn_id : Option Str
  pub agent_id : Str
  pub seq : ℕ
  pub time : DateTime
  pub causation_id : Option Str
  pub kind : Str
  pub payload : Value

pub record NewLedgerEvent : Type 0 where
  pub schema_version : ProtocolVersion
  pub event_id : Str
  pub thread_id : Str
  pub turn_id : Option Str
  pub agent_id : Str
  pub time : DateTime
  pub causation_id : Option Str
  pub kind : Str
  pub payload : Value

pub record NewCommandReceipt : Type 0 where
  pub command_id : Str
  pub method : Str
  pub params_digest : Str
  pub response : Value
  pub created_at : DateTime

pub record CommandReceipt : Type 0 where
  pub command_id : Str
  pub method : Str
  pub params_digest : Str
  pub response : Value
  pub created_at : DateTime

pub record NewInvocationOutcome : Type 0 where
  pub tool_result : NewLedgerEvent
  pub terminal_state : NewLedgerEvent

pub record NewInvocationUnknown : Type 0 where
  pub state : NewLedgerEvent

pub record NewInvocationUnknownOutcome : Type 0 where
  pub unknown_state : NewLedgerEvent
  pub tool_result : NewLedgerEvent

pub record CommandAppendResult : Type 0 where
  pub event : Option LedgerEvent
  pub response : Value
  pub replayed : Bool

pub record CommandBatchAppendResult : Type 0 where
  pub events : List LedgerEvent
  pub response : Value
  pub replayed : Bool

unfoldable pub Value-discrete : Discrete Value
unfolding ℕ_discrete
Value-discrete = hlevel ℕ_discrete

unfoldable pub Option_Str-discrete : Discrete (Option Str)
unfolding ℕ_discrete
Option_Str-discrete = hlevel ℕ_discrete
