-- ===== src/Ledger/Commands.antt =====
-- A committed command: its receipt answers it from then on.
use yeu_xharness.Base.{
  Str, true, ◌&&◌, not, ◌≡◌, refl, ◌∙◌, subst, inl, inr, List, [], ◌∷◌, Option, none, some, str_ord,
  ◌==◌, ==_iff, arith, Bool-cases, is_empty, if◌then◌else◌,
}
use yeu_xharness.Base.Results.{ok, err, bind-eq_ok, ok-injective, require-eq_ok, seq-eq_ok}
use yeu_xharness.Protocol.Json.{Value}
use yeu_xharness.Ledger.Types.{
  NewLedgerEvent, CommandReceipt, NewCommandReceipt, CommandBatchAppendResult,
}
use yeu_xharness.Ledger.Errors.{command_id_conflict}
use yeu_xharness.Ledger.Store.{
  Ledger, get_command_receipt, find_receipt, receipt_of, row_to_receipt, insert_command_receipt,
  stored, transact,
}
use yeu_xharness.Ledger.Append.{append_all}
use yeu_xharness.Ledger.Receipts.{
  once, same_command, replayed_batch, append_batch_new, append_batch_with_receipt,
  append_batch_with_receipt_body, preflight,
}
use yeu_xharness.Ledger.Serde.{Serde}
use yeu_xharness.Ledger.Committed.{Kept, Kept-finds, transact-eq_ok, insert_command_receipt-eq_ok}
use yeu_xharness.Ledger.Journal.{Write, perform_all, perform_all-Develops}

-- The response and the time of a receipt are read back as they were written.
abbrev pub IsKeptReceipt : Serde → NewCommandReceipt → Type 0
IsKeptReceipt serde n =
    (serde.reread_json n.response ≡ ok n.response)
    × (serde.reread_time n.created_at ≡ ok n.created_at)

module _ (serde : Serde) where
  -- A receipt that was read is read again later.
  Kept-reads :
      {a b : List CommandReceipt} (id : Str) (r : CommandReceipt) (found : Option CommandReceipt)
      → Kept a b
      → find_receipt id a ≡ found
      → receipt_of serde found ≡ ok (some r)
      → get_command_receipt serde id b ≡ ok (some r)
  unfolding get_command_receipt
  Kept-reads id r none k h e = ground arith
  Kept-reads id r (some raw) k h e = rw (Kept-finds id raw k h) e

  -- The receipt, as it is read, of a command that gave this response.
  record Recorded (l : Ledger) (n : NewCommandReceipt) (response : Value) : Type 0 where
    receipt : CommandReceipt
    found : get_command_receipt serde n.command_id l.receipts ≡ ok (some receipt)
    same_method : receipt.method ≡ n.method
    same_digest : receipt.params_digest ≡ n.params_digest
    same_response : receipt.response ≡ response

  insert_command_receipt-Recorded :
      (l : Ledger) (n : NewCommandReceipt) (l' : Ledger) (kept : CommandReceipt)
      → IsKeptReceipt serde n
      → insert_command_receipt serde l n ≡ ok (l', kept)
      → Recorded l' n kept.response
  unfolding get_command_receipt find_receipt row_to_receipt
  insert_command_receipt-Recorded l n l' kept (response, time) h =
      let (new, inserted, same) = insert_command_receipt-eq_ok serde l n l' kept h in
      let here : (n.command_id == n.command_id) ≡ true =
        ground (arith, ==_iff n.command_id n.command_id) in
      subst (λ k. Recorded k n kept.response) inserted
        (subst
          (λ (r : CommandReceipt).
            Recorded (record l { receipts = stored n ∷ l.receipts }) n r.response)
          same
          (record {
            receipt = stored n;
            found = rw (here, response, time) refl;
            same_method = refl;
            same_digest = refl;
            same_response = refl;
          }))

  append_batch_new-Recorded :
      (l : Ledger) (inputs : List NewLedgerEvent) (n : NewCommandReceipt) (l' : Ledger)
      (a : CommandBatchAppendResult)
      → IsKeptReceipt serde n
      → append_batch_new serde l inputs n ≡ ok (l', a)
      → Recorded l' n a.response
  unfolding append_batch_new
  append_batch_new-Recorded l inputs n l' a k h =
      let (given, h1) = require-eq_ok (not (is_empty inputs)) _ _ h in
      let (new, h2) = seq-eq_ok (preflight serde l.rows [] inputs) _ h1 in
      let ((l1, events), appended, h3) = bind-eq_ok (append_all serde l inputs) _ _ h2 in
      let ((l2, kept), recorded, h4) = bind-eq_ok (insert_command_receipt serde l1 n) _ _ h3 in
      subst (λ r. Recorded r.0 n r.1.response) (ok-injective _ _ h4)
        (insert_command_receipt-Recorded l1 n l2 kept k recorded)

  once-Recorded :
      (l : Ledger) (inputs : List NewLedgerEvent) (n : NewCommandReceipt)
      (o : Option CommandReceipt) (l' : Ledger) (a : CommandBatchAppendResult)
      → IsKeptReceipt serde n
      → get_command_receipt serde n.command_id l.receipts ≡ ok o
      → once l n replayed_batch (append_batch_new serde l inputs n) o ≡ ok (l', a)
      → Recorded l' n a.response
  unfolding once
  once-Recorded l inputs n none l' a k found h = append_batch_new-Recorded l inputs n l' a k h
  once-Recorded l inputs n (some existing) l' a k found h =
      elim (Bool-cases (same_command existing n)) [
        | inl same ↦
            subst (λ r. Recorded r.0 n r.1.response)
              (ok-injective (l, replayed_batch existing) (l', a) (rw same at h))
              (record {
                receipt = existing;
                found = found;
                same_method = ground (arith, ==_iff existing.method n.method);
                same_digest = ground (arith, ==_iff existing.params_digest n.params_digest);
                same_response = refl;
              })
        | inr other ↦ absurd (ground arith)
      ]

  answered :
      (l : Ledger) (inputs : List NewLedgerEvent) (n : NewCommandReceipt) (r : CommandReceipt)
      → get_command_receipt serde n.command_id l.receipts ≡ ok (some r)
      → append_batch_with_receipt serde l inputs n ≡ (
        l,
        if same_command r n then ok (replayed_batch r) else err (command_id_conflict n.command_id),
      )
  unfolding append_batch_with_receipt append_batch_with_receipt_body once transact
  answered l inputs n r found = elim (Bool-cases (same_command r n)) [
    | inl same ↦ rw (found, same) refl
    | inr other ↦ rw (found, other) refl
  ]

  -- If a batch with a receipt has succeeded, the receipt's response and time being ones that are read
  -- back as they were written, then, whatever calls follow: a batch under the same command id leaves
  -- the ledger as it is, whatever its events are. With the same method and digest of the parameters it
  -- is answered, as replayed, by the first response; else it is a command id conflict.
  pub command_applied_once :
      (l : Ledger) (inputs : List NewLedgerEvent) (n : NewCommandReceipt) (l' : Ledger)
      (a : CommandBatchAppendResult)
      → IsKeptReceipt serde n
      → append_batch_with_receipt serde l inputs n ≡ (l', ok a)
      → (writes : List Write) (again : List NewLedgerEvent) (m : NewCommandReceipt)
      → m.command_id ≡ n.command_id
      → append_batch_with_receipt serde (perform_all serde l' writes) again m ≡ (
        perform_all serde l' writes,
        if n.method == m.method && n.params_digest == m.params_digest
            then ok (record { events = []; response = a.response; replayed = true })
            else err (command_id_conflict m.command_id),
      )
  unfolding append_batch_with_receipt append_batch_with_receipt_body get_command_receipt
  command_applied_once l inputs n l' a k h writes again m same_id =
      let (o, found, h1) =
        bind-eq_ok (get_command_receipt serde n.command_id l.receipts) _ _
          (transact-eq_ok l _ l' a h) in
      let r = once-Recorded l inputs n o l' a k found h1 in
      let later =
        Kept-reads n.command_id r.receipt _ (perform_all-Develops serde l' writes).1 refl r.found in
      answered (perform_all serde l' writes) again m r.receipt (rw same_id later)
      ∙ rw (r.same_method, r.same_digest, r.same_response) refl
