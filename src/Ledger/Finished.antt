-- ===== src/Ledger/Finished.antt =====
-- An invocation outcome that was appended, and the state it leaves.
use yeu_xharness.Base.{
  ℕ, true, ◌≡◌, refl, sym, ap, ◌∙◌, List, [], ◌∷◌, ◌++◌, some, Str, str_ord, nat_ord, arith, filter,
}
use yeu_xharness.Base.Results.{Result, ok, err, bind-eq_ok, ok-injective, require-eq_ok}
use yeu_xharness.Base.Map.{is_some}
use yeu_xharness.Protocol.Ids.{InvocationId}
use yeu_xharness.Protocol.Json.{Value}
use yeu_xharness.Protocol.Domain.{Item}
use yeu_xharness.Protocol.Tool.{InvocationState}
use yeu_xharness.Protocol.Event.{Event, item_added}
use yeu_xharness.Ledger.Types.{LedgerEvent, NewLedgerEvent, NewInvocationOutcome}
use yeu_xharness.Ledger.Errors
use yeu_xharness.Ledger.Errors.{LedgerError, OutcomeFault}
use yeu_xharness.Ledger.Store.{Row}
use yeu_xharness.Ledger.Append.{sequenced}
use yeu_xharness.Ledger.Serde.{Serde}
use yeu_xharness.Ledger.Growth.{IsWellFormed}
use yeu_xharness.Ledger.Outcomes.{
  or_fault, same_scope, terminal_of, tool_result_of, precondition_of, decode_new_event,
  validate_invocation_outcome, invocation_outcome_precondition,
}
use yeu_xharness.Ledger.History.{
  Known, unseen, is_invocation_kind, follow_all, invocation_events, invocation_state_in,
}
use yeu_xharness.Ledger.Checked.{outcome_events}
use yeu_xharness.Ledger.Core.{order_by-stored_order}
use yeu_xharness.Ledger.Batches.{stored_events, Sequenced}
use yeu_xharness.Ledger.Settled.{
  IsTagged, IsEnding, changes, reconciles, filter-append, follow_all-append, follow-terminal,
  precondition_of-IsEnding, tool_result_of-eq_ok,
}

module _ (serde : Serde) where
  -- What a validated outcome says.
  pub record Validated (o : NewInvocationOutcome) : Type 0 where
    pub item : Item
    pub ended : InvocationId × InvocationState
    pub terminal_event : Event
    pub result_read : decode_new_event serde o.tool_result ≡ ok (item_added item)
    pub terminal_read : decode_new_event serde o.terminal_state ≡ ok terminal_event
    pub terminal_ends : terminal_of serde terminal_event ≡ ok ended

  pub validate_invocation_outcome-Validated :
      (o : NewInvocationOutcome) → validate_invocation_outcome serde o ≡ ok tt → Validated o
  unfolding validate_invocation_outcome
  validate_invocation_outcome-Validated o h =
      let (scope, h1) = require-eq_ok (same_scope o.tool_result o.terminal_state) _ _ h in
      let (version, h2) = require-eq_ok _ _ _ h1 in
      let (turn, h3) = require-eq_ok (is_some o.tool_result.turn_id) _ _ h2 in
      let (result_event, result_read, h4) =
        bind-eq_ok (decode_new_event serde o.tool_result) _ _ h3 in
      let (terminal_event, terminal_read, h5) =
        bind-eq_ok (decode_new_event serde o.terminal_state) _ _ h4 in
      let (ended, ends, h6) = bind-eq_ok (terminal_of serde terminal_event) _ _ h5 in
      let (item, given, h7) = bind-eq_ok (tool_result_of serde result_event) _ _ h6 in
      record {
        item = item;
        ended = ended;
        terminal_event = terminal_event;
        result_read =
            result_read ∙ ap (λ e. ok e) (tool_result_of-eq_ok serde result_event item given);
        terminal_read = terminal_read;
        terminal_ends = ends;
      }

  or_fault-eq_ok :
      {A : Type 0} (f : Str → OutcomeFault) (r : Result Str A) (a : A)
      → or_fault f r ≡ ok a
      → r ≡ ok a
  or_fault-eq_ok f (ok b) a h = ap (λ x. ok x) (ok-injective b a h)
  or_fault-eq_ok f (err m) a h = ground arith

  -- The terminal event is among the events that the state is read from.
  ending-kind :
      (tagged : IsTagged serde) (i : NewLedgerEvent) (event : Event) (seq : ℕ)
      → IsEnding event
      → decode_new_event serde i ≡ ok event
      → is_invocation_kind (sequenced i seq) ≡ true
  unfolding decode_new_event str_ord
  ending-kind tagged i _ seq (changes id from to reason) d =
      rw
        (tagged.change_tagged i.kind i.payload id from to reason
          (or_fault-eq_ok (λ m. Errors.invalid_event m) (serde.decode_event i.kind i.payload) _ d))
        refl
  ending-kind tagged i _ seq (reconciles id outcome evidence) d =
      rw
        (tagged.reconciliation_tagged i.kind i.payload id outcome evidence
          (or_fault-eq_ok (λ m. Errors.invalid_event m) (serde.decode_event i.kind i.payload) _ d))
        refl

  invocation_events-stored :
      (rows : List Row)
      → IsWellFormed rows
      → invocation_events serde rows ≡ filter is_invocation_kind (stored_events rows)
  unfolding invocation_events
  invocation_events-stored rows w = rw (order_by-stored_order rows w) refl

  -- A result is no event that the state is read from.
  follow_all-result :
      (tagged : IsTagged serde) (id : Str) (known : Known) (i : NewLedgerEvent) (item : Item)
      (seq : ℕ) (later : List LedgerEvent)
      → decode_new_event serde i ≡ ok (item_added item)
      → follow_all serde id known (filter is_invocation_kind (sequenced i seq ∷ later))
        ≡ follow_all serde id known (filter is_invocation_kind later)
  unfolding decode_new_event str_ord
  follow_all-result tagged id known i item seq later d =
      rw
        (tagged.item_tagged i.kind i.payload item
          (or_fault-eq_ok (λ m. Errors.invalid_event m) (serde.decode_event i.kind i.payload) _ d))
        refl

  -- The payload reads back as JSON that decodes to the same event.
  abbrev pub IsReadable : NewLedgerEvent → Type 0
  IsReadable i =
      (payload : Value) × (serde.reread_json i.payload ≡ ok payload)
      × (serde.decode_event i.kind payload ≡ serde.decode_event i.kind i.payload)

  follow_all-ending :
      (tagged : IsTagged serde) (known : Known) (i : NewLedgerEvent) (event : Event) (seq : ℕ)
      (ended : InvocationId × InvocationState) (id : InvocationId)
      (expected final : InvocationState)
      → IsReadable i
      → decode_new_event serde i ≡ ok event
      → terminal_of serde event ≡ ok ended
      → precondition_of serde event ≡ ok (id, expected, final)
      → known.state ≡ some expected
      → (next : Known) × (follow_all serde
            (serde.uuid_text id)
            known
            (filter is_invocation_kind (sequenced i seq ∷ []))
          ≡ ok next)
        × (next.state ≡ some final)
  unfolding follow_all decode_new_event
  follow_all-ending tagged known i event seq ended id expected final (payload, reread, decodes) d t
        p s =
      let ending = precondition_of-IsEnding serde event (id, expected, final) p in
      let selected = ending-kind tagged i event seq ending d in
      let (next, followed, ends) =
        follow-terminal serde known event ended (id, expected, final) ending t p s in
      (next, rw (selected, reread, decodes, d, followed) refl, ends)

  -- The state after the events of a validated outcome.
  pub follow_all-outcome :
      (tagged : IsTagged serde) (o : NewInvocationOutcome) (known : Known)
      (events : List LedgerEvent) (id : InvocationId) (expected final : InvocationState)
      → Validated o
      → IsReadable o.terminal_state
      → invocation_outcome_precondition serde o ≡ ok (id, expected, final)
      → Sequenced (outcome_events o) events
      → known.state ≡ some expected
      → (next : Known) × (follow_all serde
            (serde.uuid_text id)
            known
            (filter is_invocation_kind events)
          ≡ ok next)
        × (next.state ≡ some final)
  unfolding invocation_outcome_precondition
  follow_all-outcome tagged o known [] id expected final v k p q s = absurd q
  follow_all-outcome tagged o known (e ∷ []) id expected final v k p q s = absurd q.1
  follow_all-outcome tagged o known (e ∷ f ∷ g ∷ events) id expected final v k p q s = absurd q.1.1
  follow_all-outcome tagged o known (e ∷ f ∷ []) id expected final v k p
        ((n, first), ((m, second), end)) s =
      let (next, followed, ends) =
        follow_all-ending tagged known o.terminal_state v.terminal_event m v.ended id expected final
          k v.terminal_read v.terminal_ends (rw v.terminal_read at p) s in
      (
        next,
        rw (first, second)
            (follow_all-result tagged (serde.uuid_text id) known o.tool_result v.item n
                (sequenced o.terminal_state m ∷ []) v.result_read
              ∙ followed),
        ends,
      )

  pub state-known :
      (rows : List Row) (id : Str) (state : InvocationState)
      → invocation_state_in serde rows id ≡ ok (some state)
      → (known : Known) × (follow_all serde id unseen (invocation_events serde rows) ≡ ok known)
        × (known.state ≡ some state)
  unfolding invocation_state_in
  state-known rows id state h =
      let (known, followed, h1) =
        bind-eq_ok (follow_all serde id unseen (invocation_events serde rows))
          (λ known. ok known.state) (some state) h in
      (known, followed, ok-injective known.state (some state) h1)

  -- Events after the table's, in the state.
  pub state-later :
      (rows later : List Row) (events : List LedgerEvent) (id : Str) (known next : Known)
      → IsWellFormed rows
      → IsWellFormed later
      → stored_events later ≡ stored_events rows ++ events
      → follow_all serde id unseen (invocation_events serde rows) ≡ ok known
      → follow_all serde id known (filter is_invocation_kind events) ≡ ok next
      → invocation_state_in serde later id ≡ ok next.state
  unfolding invocation_state_in
  state-later rows later events id known next w v added before after =
      let all =
        invocation_events-stored later v
        ∙ ap (λ es. filter is_invocation_kind es) added
        ∙ filter-append is_invocation_kind (stored_events rows) events in
      let known_before =
        ap (λ es. follow_all serde id unseen es) (sym (invocation_events-stored rows w)) ∙ before in
      rw
        (
          all,
          follow_all-append serde id unseen (filter is_invocation_kind (stored_events rows))
              (filter is_invocation_kind events) known known_before,
          after,
        )
        refl
