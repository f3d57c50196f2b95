-- ===== src/Ledger/Guarded.antt =====
-- A checked write that succeeds: its conditions held, and it appended its batch.
use yeu_xharness.Base.{Bool, ◌≡◌, refl, ◌∙◌, ap, subst, List, Option, none, some, arith, same}
use yeu_xharness.Base.Map.{is_some}
use yeu_xharness.Base.Results.{ok, bind-eq_ok, ok-injective, require-eq_ok, seq-eq_ok}
use yeu_xharness.Protocol.Ids.{InvocationId}
use yeu_xharness.Protocol.Tool.{InvocationState}
use yeu_xharness.Ledger.Types.{
  LedgerEvent, NewLedgerEvent, NewInvocationOutcome, NewCommandReceipt, CommandBatchAppendResult,
}
use yeu_xharness.Ledger.Store.{Ledger, insert_command_receipt}
use yeu_xharness.Ledger.Append.{append_batch_transaction}
use yeu_xharness.Ledger.Serde.{Serde}
use yeu_xharness.Ledger.History.{invocation_state_in}
use yeu_xharness.Ledger.Scope.{InvocationScope, invocation_scope_in}
use yeu_xharness.Ledger.Checked.{
  InvocationState_Option-discrete, fully_existing, due, check_scope,
  append_invocation_events_checked_transaction, reconcile_new, outcome_events,
}
use yeu_xharness.Ledger.Writes.{append_batch_transaction-Extends}
use yeu_xharness.Ledger.Committed.{
  Develops, Develops-trans, Extends-Develops, insert_command_receipt-Develops,
}

module _ (serde : Serde) (l : Ledger) (inputs : List NewLedgerEvent) (invocation : InvocationId)
    (expected final : InvocationState) (l' : Ledger) (events : List LedgerEvent) where
  -- What a checked write found, and that the batch itself succeeded.
  pub record Went : Type 0 where
    pub stored : Bool
    pub stored_read : fully_existing serde l.rows inputs ≡ ok stored
    pub found_due :
        invocation_state_in serde l.rows (serde.uuid_text invocation)
        ≡ ok (some (due stored expected final))
    pub scope : InvocationScope
    pub scope_found :
        invocation_scope_in serde l.rows (serde.uuid_text invocation) ≡ ok (some scope)
    pub scope_checked : check_scope serde inputs (some scope) ≡ ok tt
    pub appended : append_batch_transaction serde l inputs ≡ ok (l', events)

  -- A proposal was found.
  scope_given :
      (scope : Option InvocationScope)
      → check_scope serde inputs scope ≡ ok tt
      → (s : InvocationScope) × (scope ≡ some s)
  unfolding check_scope
  scope_given none h = ground arith
  scope_given (some s) h = (s, refl)

  pub checked-Went :
      append_invocation_events_checked_transaction serde l inputs invocation expected final
        ≡ ok (l', events)
      → Went
  unfolding append_invocation_events_checked_transaction
  checked-Went h =
      let (stored, all_read, h0) = bind-eq_ok (fully_existing serde l.rows inputs) _ _ h in
      let (found, in_state, h1) =
        bind-eq_ok (invocation_state_in serde l.rows (serde.uuid_text invocation)) _ _ h0 in
      let (matched, h2) =
        require-eq_ok
          (same InvocationState_Option-discrete found (some (due stored expected final))) _ _ h1 in
      let (proposed, h3) = require-eq_ok (is_some found) _ _ h2 in
      let (scope, in_scope, h4) =
        bind-eq_ok (invocation_scope_in serde l.rows (serde.uuid_text invocation)) _ _ h3 in
      let (checked, h5) = seq-eq_ok (check_scope serde inputs scope) _ h4 in
      let (s, given) = scope_given scope checked in
      record {
        stored = stored;
        stored_read = all_read;
        found_due = in_state ∙ ap (λ f. ok f) (ground arith);
        scope = s;
        scope_found = in_scope ∙ ap (λ f. ok f) given;
        scope_checked = rw given at checked;
        appended = h5;
      }

  pub checked-Develops :
      append_invocation_events_checked_transaction serde l inputs invocation expected final
        ≡ ok (l', events)
      → Develops l l'
  checked-Develops h =
      Extends-Develops l l'
        (append_batch_transaction-Extends serde l inputs l' events (checked-Went h).appended)

pub reconcile_new-Develops :
    (serde : Serde) (l : Ledger) (input : NewInvocationOutcome) (receipt : NewCommandReceipt)
    (precondition : InvocationId × InvocationState × InvocationState) (l' : Ledger)
    (a : CommandBatchAppendResult)
    → reconcile_new serde l input receipt precondition ≡ ok (l', a)
    → Develops l l'
unfolding reconcile_new
reconcile_new-Develops serde l input receipt (invocation, expected, final) l' a h =
    let ((l1, events), appended, h1) =
      bind-eq_ok
        (append_invocation_events_checked_transaction serde l (outcome_events input) invocation
          expected final)
        _ _ h in
    let ((l2, kept), recorded, h2) = bind-eq_ok (insert_command_receipt serde l1 receipt) _ _ h1 in
    subst (λ r. Develops l r.0) (ok-injective _ _ h2)
      (Develops-trans
        (checked-Develops serde l (outcome_events input) invocation expected final l1 events
          appended)
        (insert_command_receipt-Develops serde l1 receipt l2 kept recorded))
