-- ===== src/Ledger/Settlement.antt =====
-- `append_invocation_outcome`, as a whole.
use yeu_xharness.Base.{
  Bool, true, false, ◌≡◌, refl, sym, ap, ◌∙◌, subst, ◌⊎◌, inl, inr, List, [], ◌∷◌, ◌++◌, some, Str,
  arith,
}
use yeu_xharness.Base.Results.{ok, err, ◌>>◌, seq-eq_ok, ok-injective}
use yeu_xharness.Protocol.Ids.{InvocationId}
use yeu_xharness.Protocol.Tool.{InvocationState}
use yeu_xharness.Ledger.Types.{LedgerEvent, NewLedgerEvent, NewInvocationOutcome}
use yeu_xharness.Ledger.Store.{Ledger, Outcome}
use yeu_xharness.Ledger.Serde.{Serde}
use yeu_xharness.Ledger.Growth.{IsWellFormed, Grows-IsWellFormed}
use yeu_xharness.Ledger.Writes.{append_all-Extends}
use yeu_xharness.Ledger.Outcomes.{validate_invocation_outcome, invocation_outcome_precondition}
use yeu_xharness.Ledger.History.{invocation_state_in}
use yeu_xharness.Ledger.Checked.{
  append_invocation_outcome, append_invocation_events_checked, after_checks, outcome_events,
  fully_existing, due,
}
use yeu_xharness.Ledger.Committed.{transact-eq_ok}
use yeu_xharness.Ledger.Guarded.{Went, checked-Went}
use yeu_xharness.Ledger.Journal.{Write, written, written-IsWellFormed}
use yeu_xharness.Ledger.Batches.{stored_events, Sequenced, append_all-adds, batch_cases}
use yeu_xharness.Ledger.Settled.{IsTagged}
use yeu_xharness.Ledger.Finished.{
  IsReadable, Validated, validate_invocation_outcome-Validated, follow_all-outcome, state-known,
  state-later,
}

-- Checks in front of a write that succeeds passed.
after_checks-eq_ok :
    {A B : Type 0} (l : Ledger) (checks : Outcome A) (write : A → Ledger × Outcome B) (l' : Ledger)
    (b : B)
    → after_checks l checks write ≡ (l', ok b)
    → (a : A) × (checks ≡ ok a) × (write a ≡ (l', ok b))
after_checks-eq_ok l (ok a) write l' b h = (a, refl, h)
after_checks-eq_ok l (err e) write l' b h = ground arith

-- The state that a checked write found, by what the look-up of its events gave.
found-as :
    (serde : Serde) {l : Ledger} {inputs : List NewLedgerEvent} {id : InvocationId}
    {expected final : InvocationState} {l' : Ledger} {events : List LedgerEvent}
    (went : Went serde l inputs id expected final l' events) (stored : Bool)
    → fully_existing serde l.rows inputs ≡ ok stored
    → invocation_state_in serde l.rows (serde.uuid_text id) ≡ ok (some (due stored expected final))
found-as serde {l} {inputs} {id} {expected} {final} went stored h =
    subst
      (λ b.
        invocation_state_in serde l.rows (serde.uuid_text id) ≡ ok (some (due b expected final)))
      (ok-injective went.stored stored (sym went.stored_read ∙ h)) went.found_due

module _ (serde : Serde) where
  -- What a successful outcome did: nothing, or both of its events were added, in their order, to a
  -- ledger in which the invocation was in the state that the terminal event starts from.
  abbrev pub Committed :
      Ledger
      → NewInvocationOutcome
      → Ledger
      → List LedgerEvent
      → (id : Str) → InvocationState
      → Type 0
  Committed l o l' events id expected =
      (l ≡ l')
      ⊎ ((invocation_state_in serde l.rows id ≡ ok (some expected))
          × (stored_events l'.rows ≡ stored_events l.rows ++ events)
          × Sequenced (o.tool_result ∷ o.terminal_state ∷ []) events)

  went-Committed :
      (tagged : IsTagged serde) (l : Ledger) (o : NewInvocationOutcome) (l' : Ledger)
      (events : List LedgerEvent) (id : InvocationId) (expected final : InvocationState)
      → IsWellFormed l.rows
      → Validated serde o
      → IsReadable serde o.terminal_state
      → invocation_outcome_precondition serde o ≡ ok (id, expected, final)
      → Went serde l (outcome_events o) id expected final l' events
      → (invocation_state_in serde l'.rows (serde.uuid_text id) ≡ ok (some final))
        × Committed l o l' events (serde.uuid_text id) expected
  went-Committed tagged l o l' events id expected final w v k p went =
      elim (batch_cases serde l (outcome_events o) l' events went.appended) [
        | inl (same, stored) ↦ (
          subst (λ k. invocation_state_in serde k.rows (serde.uuid_text id) ≡ ok (some final)) same
              (found-as serde went true stored),
          inl same,
        )
        | inr (appended, new) ↦
            let before : invocation_state_in serde l.rows (serde.uuid_text id)
                ≡ ok (some expected) =
              found-as serde went false new in
            let (added, sequenced) =
              append_all-adds serde l (outcome_events o) l' events appended in
            let (grown, receipts) =
              append_all-Extends serde l (outcome_events o) l' events appended in
            let (known, followed, state) =
              state-known serde l.rows (serde.uuid_text id) expected before in
            let (next, after, ends) =
              follow_all-outcome serde tagged o known events id expected final v k p sequenced
                state in
            (
              state-later serde l.rows l'.rows events (serde.uuid_text id) known next w
                    (Grows-IsWellFormed grown w) added followed after
                  ∙ ap (λ s. ok s) ends,
              inr (before, added, sequenced),
            )
      ]

  -- If serde tags events as documented, the payload of the terminal event reads back as JSON that
  -- decodes to the same event, and `append_invocation_outcome` succeeds after any calls on a
  -- new ledger, then the terminal event names an invocation, a state before and a state after; the
  -- state of that invocation read from the ledger is now the state after; and either the ledger is as
  -- it was, or the invocation was in the state before and exactly the result and the terminal event
  -- were added to the table, in this order, with sequence numbers.
  pub outcome-Committed :
      (writes : List Write) (o : NewInvocationOutcome) (l' : Ledger) (events : List LedgerEvent)
      → IsTagged serde
      → IsReadable serde o.terminal_state
      → append_invocation_outcome serde (written serde writes) o ≡ (l', ok events)
      → (id : InvocationId) × (expected : InvocationState) × (final : InvocationState)
        × (invocation_outcome_precondition serde o ≡ ok (id, expected, final))
        × (invocation_state_in serde l'.rows (serde.uuid_text id) ≡ ok (some final))
        × Committed (written serde writes) o l' events (serde.uuid_text id) expected
  unfolding append_invocation_outcome append_invocation_events_checked
  outcome-Committed writes o l' events tagged readable h =
      let l = written serde writes in
      let ((id, expected, final), checked, h1) =
        after_checks-eq_ok l
          (validate_invocation_outcome serde o >> invocation_outcome_precondition serde o) _ l'
          events h in
      let (valid, precondition) = seq-eq_ok (validate_invocation_outcome serde o) _ checked in
      let went =
        checked-Went serde l (outcome_events o) id expected final l' events
          (transact-eq_ok l _ l' events h1) in
      let (state, committed) =
        went-Committed tagged l o l' events id expected final (written-IsWellFormed serde writes)
          (validate_invocation_outcome-Validated serde o valid) readable precondition went in
      (id, expected, final, precondition, state, committed)
