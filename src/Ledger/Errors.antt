-- ===== src/Ledger/Errors.antt =====
-- `LedgerError`. What the source prints in a message is an argument of its constructor.
use yeu_xharness.Base.{ℕ, Option, Str}
use yeu_xharness.Protocol.Event.{ProtocolVersion}
use yeu_xharness.Protocol.Tool.{InvocationState}

-- The messages of `LedgerError::InvalidInvocationOutcome`; two validators that say the same share one.
pub data OutcomeFault : Type 0 where
  scopes_differ turn_required unknown_needs_evidence evidence_required not_terminal : OutcomeFault
  not_tool_result item_parent invocation_id_missing different_invocations : OutcomeFault
  content_missing not_one_block polarity_differs same_event_ids reason_required : OutcomeFault
  not_unknown_marker not_reconciled no_precondition second_proposal : OutcomeFault
  change_without_proposal invalid_history reconciliation_without_proposal : OutcomeFault
  invalid_reconciliation idempotency_disagrees effect_digest_differs proposal_required :
      OutcomeFault
  scope_differs_from_proposal call_id_differs empty_thread_id empty_turn_id : OutcomeFault
  empty_agent_id : OutcomeFault
  unsupported_schema : ProtocolVersion → OutcomeFault
  invalid_invocation_id invalid_content invalid_event undigestable unreadable : Str → OutcomeFault
  empty_field : Str → OutcomeFault

-- `panicked` stands for an `expect` that fails, `database` for an error of SQLite.
pub data LedgerError : Type 0 where
  database json invalid_envelope panicked : Str → LedgerError
  event_id_conflict : (event_id : Str) → LedgerError
  command_id_conflict : (command_id : Str) → LedgerError
  empty_event_batch : LedgerError
  invalid_invocation_outcome : OutcomeFault → LedgerError
  invocation_state_conflict :
      (invocation_id : Str) (expected : InvocationState) (found : Option InvocationState)
      → LedgerError
  sequence_overflow : (scope : Str) → LedgerError
  sequence_gap : (thread_id : Str) (expected found : ℕ) → LedgerError
