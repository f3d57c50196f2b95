-- ===== src/Ledger/Journal.antt =====
-- Sequences of writes, on the ledger that a new database holds.
use yeu_xharness.Base.{Bool, ◌≡◌, List, [], ◌∷◌, ◌++◌}
use yeu_xharness.Base.Results.{ok, err}
use yeu_xharness.Protocol.Ids.{InvocationId}
use yeu_xharness.Protocol.Tool.{InvocationState}
use yeu_xharness.Ledger.Types.{
  LedgerEvent, NewLedgerEvent, NewCommandReceipt, NewInvocationOutcome, NewInvocationUnknown,
  NewInvocationUnknownOutcome,
}
use yeu_xharness.Ledger.Store.{get_command_receipt, Ledger, Row, Outcome, empty_ledger}
use yeu_xharness.Ledger.Append.{append, append_batch, import_with_duplicate_policy}
use yeu_xharness.Ledger.Receipts.{
  replayed_one, replayed_batch, append_with_receipt, append_with_receipt_body,
  append_batch_with_receipt, append_batch_with_receipt_body, record_command_receipt,
  record_command_receipt_body,
}
use yeu_xharness.Ledger.Serde.{Serde}
use yeu_xharness.Ledger.Checked.{
  append_invocation_events_checked, append_invocation_outcome, append_invocation_unknown,
  append_invocation_unknown_outcome, append_invocation_reconciliation,
  append_invocation_reconciliation_with_receipt, after_checks, outcome_events,
}
use yeu_xharness.Ledger.Growth.{Grows-append, Grows-IsWellFormed, IsWellFormed}
use yeu_xharness.Ledger.Writes.{
  append_body-Extends, append_batch_transaction-Extends, import_body-Extends,
}
use yeu_xharness.Ledger.Committed.{
  Develops, Develops-refl, Develops-trans, Extends-Develops, transact-Develops, command-Develops,
  insert_command_receipt-Develops, append_one_new-Develops, append_batch_new-Develops,
}
use yeu_xharness.Ledger.Guarded.{checked-Develops, reconcile_new-Develops}

-- The calls that write.
pub data Write : Type 0 where
  appended : NewLedgerEvent → Write
  batch_appended : List NewLedgerEvent → Write
  imported : LedgerEvent → (duplicate_ok : Bool) → Write
  with_receipt : NewLedgerEvent → NewCommandReceipt → Write
  batch_with_receipt : List NewLedgerEvent → NewCommandReceipt → Write
  receipt_recorded : NewCommandReceipt → Write
  outcome_appended reconciliation_appended : NewInvocationOutcome → Write
  unknown_appended : NewInvocationUnknown → Write
  unknown_outcome_appended : NewInvocationUnknownOutcome → Write
  reconciled_with_receipt : NewInvocationOutcome → NewCommandReceipt → Write

module _ (serde : Serde) where
  -- The ledger after a call, whether it succeeds or fails.
  unfoldable pub perform : Ledger → Write → Ledger
  perform l (appended i) = (append serde l i).0
  perform l (batch_appended inputs) = (append_batch serde l inputs).0
  perform l (imported e duplicate_ok) = (import_with_duplicate_policy serde l e duplicate_ok).0
  perform l (with_receipt i r) = (append_with_receipt serde l i r).0
  perform l (batch_with_receipt inputs r) = (append_batch_with_receipt serde l inputs r).0
  perform l (receipt_recorded r) = (record_command_receipt serde l r).0
  perform l (outcome_appended o) = (append_invocation_outcome serde l o).0
  perform l (reconciliation_appended o) = (append_invocation_reconciliation serde l o).0
  perform l (unknown_appended u) = (append_invocation_unknown serde l u).0
  perform l (unknown_outcome_appended u) = (append_invocation_unknown_outcome serde l u).0
  perform l (reconciled_with_receipt o r) =
      (append_invocation_reconciliation_with_receipt serde l o r).0

  unfoldable pub perform_all : Ledger → List Write → Ledger
  perform_all l [] = l
  perform_all l (w ∷ writes) = perform_all (perform l w) writes

  -- Checks that fail leave the ledger as it is.
  after_checks-Develops :
      {A B : Type 0} (l : Ledger) (checks : Outcome A) (write : A → Ledger × Outcome B)
      → ((a : A) → Develops l (write a).0)
      → Develops l (after_checks l checks write).0
  after_checks-Develops l (ok a) write d = d a
  after_checks-Develops l (err e) write d = Develops-refl l

  checked_append-Develops :
      (l : Ledger) (inputs : List NewLedgerEvent) (invocation : InvocationId)
      (expected final : InvocationState)
      → Develops l (append_invocation_events_checked serde l inputs invocation expected final).0
  unfolding append_invocation_events_checked
  checked_append-Develops l inputs invocation expected final =
      transact-Develops l _ (checked-Develops serde l inputs invocation expected final)

  pub perform-Develops : (l : Ledger) (w : Write) → Develops l (perform l w)
  unfolding perform append append_batch import_with_duplicate_policy append_with_receipt
      append_with_receipt_body append_batch_with_receipt append_batch_with_receipt_body
      record_command_receipt record_command_receipt_body append_invocation_outcome
      append_invocation_reconciliation append_invocation_unknown append_invocation_unknown_outcome
      append_invocation_reconciliation_with_receipt
  perform-Develops l (appended i) =
      transact-Develops l _ (λ l' e h. Extends-Develops l l' (append_body-Extends serde l i l' e h))
  perform-Develops l (batch_appended inputs) = transact-Develops l _ (λ l' events h.
      Extends-Develops l l' (append_batch_transaction-Extends serde l inputs l' events h))
  perform-Develops l (imported e duplicate_ok) =
      transact-Develops l _
        (λ l' u h. Extends-Develops l l' (import_body-Extends serde l e duplicate_ok l' h))
  perform-Develops l (with_receipt i r) = transact-Develops l _ (
      command-Develops l r replayed_one _ (get_command_receipt serde r.command_id l.receipts)
        (append_one_new-Develops serde l i r))
  perform-Develops l (batch_with_receipt inputs r) = transact-Develops l _ (
      command-Develops l r replayed_batch _ (get_command_receipt serde r.command_id l.receipts)
        (append_batch_new-Develops serde l inputs r))
  perform-Develops l (receipt_recorded r) = transact-Develops l _ (
      command-Develops l r (λ existing. existing) _
        (get_command_receipt serde r.command_id l.receipts)
        (insert_command_receipt-Develops serde l r))
  perform-Develops l (outcome_appended o) =
      after_checks-Develops l _ _ (λ (invocation, expected, final).
        checked_append-Develops l (outcome_events o) invocation expected final)
  perform-Develops l (reconciliation_appended o) =
      after_checks-Develops l _ _ (λ (invocation, expected, final).
        checked_append-Develops l (outcome_events o) invocation InvocationState.unknown final)
  perform-Develops l (unknown_appended u) = after_checks-Develops l _ _ (λ invocation.
      checked_append-Develops l (u.state ∷ []) invocation InvocationState.started
        InvocationState.unknown)
  perform-Develops l (unknown_outcome_appended u) = after_checks-Develops l _ _ (λ invocation.
      checked_append-Develops l (u.unknown_state ∷ u.tool_result ∷ []) invocation
        InvocationState.started InvocationState.unknown)
  perform-Develops l (reconciled_with_receipt o r) = after_checks-Develops l _ _ (λ precondition.
      transact-Develops l _ (
        command-Develops l r replayed_batch _ (get_command_receipt serde r.command_id l.receipts)
          (reconcile_new-Develops serde l o r precondition)))

  pub perform_all-Develops : (l : Ledger) (writes : List Write) → Develops l (perform_all l writes)
  unfolding perform_all
  perform_all-Develops l [] = Develops-refl l
  perform_all-Develops l (w ∷ writes) =
      Develops-trans (perform-Develops l w) (perform_all-Develops (perform l w) writes)

  -- The ledger that calls have written.
  abbrev pub written : List Write → Ledger
  written writes = perform_all empty_ledger writes

  pub written-IsWellFormed : (writes : List Write) → IsWellFormed (written writes).rows
  written-IsWellFormed writes = Grows-IsWellFormed (perform_all-Develops empty_ledger writes).0 tt

  -- Whatever calls are made on a new ledger, failed ones included: every row had, when it was added,
  -- an id that was new, the next sequence number of its thread and the next number of the table, both
  -- within an `i64`; and further calls only add rows, so the rows before them stay unchanged and in
  -- their order.
  pub ledger_append_only :
      (before after : List Write)
      → IsWellFormed (written before).rows
        × ((news : List Row) × ((perform_all (written before) after).rows
              ≡ news ++ (written before).rows))
  ledger_append_only before after =
      (written-IsWellFormed before, Grows-append (perform_all-Develops (written before) after).0)
