-- ===== src/Ledger/Receipts.antt =====
-- Writes that leave a command receipt.
use yeu_xharness.Base.{
  Bool, true, false, ◌&&◌, not, List, [], ◌∷◌, Option, none, some, Str, str_ord, bytes, nat_ord,
  ◌==◌, is_empty, if◌then◌else◌,
}
use yeu_xharness.Base.Map.{is_some}
use yeu_xharness.Base.Set
use yeu_xharness.Base.Results.{ok, err, ◌>>=◌, ◌>>◌, require, ok_or}
use yeu_xharness.Ledger.Types.{
  NewLedgerEvent, CommandReceipt, NewCommandReceipt, CommandAppendResult, CommandBatchAppendResult,
}
use yeu_xharness.Ledger.Errors.{event_id_conflict, command_id_conflict, empty_event_batch, panicked}
use yeu_xharness.Ledger.Serde.{Serde}
use yeu_xharness.Ledger.Store.{
  Ledger, Row, Outcome, get_event_by_id, max_seq, max_append_order, next_sqlite_sequence,
  insert_event, get_command_receipt, insert_command_receipt, transact,
}
use yeu_xharness.Ledger.Append.{sequenced, thread_scope, global_scope, append_all}

-- The command is the one of the receipt.
abbrev pub same_command : CommandReceipt → NewCommandReceipt → Bool
same_command existing receipt =
    existing.method == receipt.method && existing.params_digest == receipt.params_digest

-- What all four writes do first: the answer of a command that was committed, an error for another
-- command under its id, or the write itself.
unfoldable pub once :
    {A : Type 0}
    → Ledger
    → NewCommandReceipt
    → (CommandReceipt → A)
    → Outcome (Ledger × A)
    → Option CommandReceipt
    → Outcome (Ledger × A)
once l receipt replayed write (some existing) =
    if same_command existing receipt
    then ok (l, replayed existing)
    else err (command_id_conflict receipt.command_id)
once l receipt replayed write none = write

abbrev pub replayed_one : CommandReceipt → CommandAppendResult
replayed_one existing = record { event = none; response = existing.response; replayed = true }

abbrev pub replayed_batch : CommandReceipt → CommandBatchAppendResult
replayed_batch existing = record { events = []; response = existing.response; replayed = true }

unfoldable pub append_one_new :
    Serde → Ledger → NewLedgerEvent → NewCommandReceipt → Outcome (Ledger × CommandAppendResult)
append_one_new serde l input receipt = do
  existing ← get_event_by_id serde input.event_id l.rows
  require (not (is_some existing)) (event_id_conflict input.event_id)
  seq ← next_sqlite_sequence (max_seq input.thread_id l.rows) (thread_scope input.thread_id)
  order ← next_sqlite_sequence (max_append_order l.rows) global_scope
  l1 ← insert_event serde l (sequenced input seq) order
  (l2, kept) ← insert_command_receipt serde l1 receipt
  found ← get_event_by_id serde input.event_id l2.rows
  event ← ok_or found (panicked (bytes "inserted event exists"))
  ok (l2, record { event = some event; response = receipt.response; replayed = false })

unfoldable pub append_with_receipt_body :
    Serde → Ledger → NewLedgerEvent → NewCommandReceipt → Outcome (Ledger × CommandAppendResult)
unfolding once
append_with_receipt_body serde l input receipt =
    get_command_receipt serde receipt.command_id l.receipts
    >>= once l receipt replayed_one (append_one_new serde l input receipt)

unfoldable pub append_with_receipt :
    Serde → Ledger → NewLedgerEvent → NewCommandReceipt → Ledger × Outcome CommandAppendResult
append_with_receipt serde l input receipt =
    transact l (append_with_receipt_body serde l input receipt)

-- The whole batch is looked at before its first insertion.
unfoldable pub preflight : Serde → List Row → List Str → List NewLedgerEvent → Outcome (Unit {0})
preflight serde rows seen [] = ok tt
preflight serde rows seen (i ∷ inputs) = do
  require (not (Set.contains i.event_id seen)) (event_id_conflict i.event_id)
  found ← get_event_by_id serde i.event_id rows
  require (not (is_some found)) (event_id_conflict i.event_id)
  preflight serde rows (Set.insert i.event_id seen) inputs

unfoldable pub append_batch_new :
    Serde
    → Ledger
    → List NewLedgerEvent
    → NewCommandReceipt
    → Outcome (Ledger × CommandBatchAppendResult)
append_batch_new serde l inputs receipt = do
  require (not (is_empty inputs)) empty_event_batch
  preflight serde l.rows [] inputs
  (l1, events) ← append_all serde l inputs
  (l2, kept) ← insert_command_receipt serde l1 receipt
  ok (l2, record { events = events; response = kept.response; replayed = false })

unfoldable pub append_batch_with_receipt_body :
    Serde
    → Ledger
    → List NewLedgerEvent
    → NewCommandReceipt
    → Outcome (Ledger × CommandBatchAppendResult)
unfolding once
append_batch_with_receipt_body serde l inputs receipt =
    get_command_receipt serde receipt.command_id l.receipts
    >>= once l receipt replayed_batch (append_batch_new serde l inputs receipt)

unfoldable pub append_batch_with_receipt :
    Serde
    → Ledger
    → List NewLedgerEvent
    → NewCommandReceipt
    → Ledger × Outcome CommandBatchAppendResult
append_batch_with_receipt serde l inputs receipt =
    transact l (append_batch_with_receipt_body serde l inputs receipt)

unfoldable pub command_receipt : Serde → Ledger → Str → Outcome (Option CommandReceipt)
command_receipt serde l id = get_command_receipt serde id l.receipts

unfoldable pub record_command_receipt_body :
    Serde → Ledger → NewCommandReceipt → Outcome (Ledger × CommandReceipt)
unfolding once
record_command_receipt_body serde l receipt =
    get_command_receipt serde receipt.command_id l.receipts
    >>= once l receipt (λ existing. existing) (insert_command_receipt serde l receipt)

unfoldable pub record_command_receipt :
    Serde → Ledger → NewCommandReceipt → Ledger × Outcome CommandReceipt
record_command_receipt serde l receipt = transact l (record_command_receipt_body serde l receipt)
