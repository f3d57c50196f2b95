-- ===== src/Ledger/Batches.antt =====
-- What a batch that succeeds adds: its inputs, sequenced, in their order; or nothing, if every input
-- is stored.
use yeu_xharness.Ledger.Serde.{Serde}
use yeu_xharness.Base.{
  ℕ, suc, ◌≤◌, true, false, not, ◌≡◌, refl, sym, ap, ◌∙◌, subst, ◌⊎◌, inl, inr, List, [], ◌∷◌, ◌++◌,
  Option, none, some, Str, str_ord, nat_ord, ◌==◌, ==_iff, arith, length, append-nil, append_assoc,
  Bool-cases,
}
use yeu_xharness.Base.Map.{get}
use yeu_xharness.Base.Set
use yeu_xharness.Base.Results.{ok, bind-eq_ok, ok-injective, require-eq_ok}
use yeu_xharness.Ledger.Types.{LedgerEvent, NewLedgerEvent}
use yeu_xharness.Ledger.Store.{Ledger, Row, get_event_by_id, insert_event, next_sqlite_sequence}
use yeu_xharness.Ledger.Append.{
  sequenced, thread_scope, global_scope, look_up, existing_count, replay_batch, append_after,
  append_each, append_all, append_counted, append_batch_transaction, Cursor, start,
}
use yeu_xharness.Ledger.Growth.{insert_event-eq_ok}
use yeu_xharness.Ledger.History.{events_of}
use yeu_xharness.Ledger.Core.{stored_order}
use yeu_xharness.Ledger.Checked.{fully_existing}

-- Every event is its input with a sequence number.
abbrev pub Sequenced : List NewLedgerEvent → List LedgerEvent → Type 0
Sequenced [] [] = Unit
Sequenced (i ∷ inputs) (e ∷ events) = ((seq : ℕ) × (e ≡ sequenced i seq)) × Sequenced inputs events
Sequenced _ _ = ⊥

-- The events of a table in the order in which they were stored.
abbrev pub stored_events : List Row → List LedgerEvent
stored_events rows = events_of (stored_order rows)

events_of-append : (xs ys : List Row) → events_of (xs ++ ys) ≡ events_of xs ++ events_of ys
events_of-append [] ys = refl
events_of-append (x ∷ xs) ys = ap (λ events. x.event ∷ events) (events_of-append xs ys)

append_after-adds :
    (serde : Serde) (c : Cursor) (i : NewLedgerEvent) (o : Option ℕ) (c' : Cursor) (e : LedgerEvent)
    → append_after serde c i o ≡ ok (c', e)
    → (stored_events c'.ledger.rows ≡ stored_events c.ledger.rows ++ (e ∷ []))
      × ((seq : ℕ) × (e ≡ sequenced i seq))
unfolding append_after stored_order
append_after-adds serde c i none c' e h = ground arith
append_after-adds serde c i (some last) c' e h =
    let (seq, n, h1) = bind-eq_ok (next_sqlite_sequence last (thread_scope i.thread_id)) _ _ h in
    let (order, o, h2) = bind-eq_ok (next_sqlite_sequence c.append_order global_scope) _ _ h1 in
    let (l, inserted, h3) =
      bind-eq_ok (insert_event serde c.ledger (sequenced i seq) order) _ _ h2 in
    let (added, fresh, seq_fits, order_fits) =
      insert_event-eq_ok serde c.ledger (sequenced i seq) order l inserted in
    subst
      (λ r.
        (stored_events r.0.ledger.rows ≡ stored_events c.ledger.rows ++ (r.1 ∷ []))
        × ((s : ℕ) × (r.1 ≡ sequenced i s)))
      (ok-injective _ _ h3)
      (rw added (events_of-append (stored_order c.ledger.rows) _), (seq, refl))

append_each-adds :
    (serde : Serde) (c : Cursor) (inputs : List NewLedgerEvent) (c' : Cursor)
    (events : List LedgerEvent)
    → append_each serde c inputs ≡ ok (c', events)
    → (stored_events c'.ledger.rows ≡ stored_events c.ledger.rows ++ events)
      × Sequenced inputs events
unfolding append_each
append_each-adds serde c [] c' events h =
    subst
      (λ r. (stored_events r.0.ledger.rows ≡ stored_events c.ledger.rows ++ r.1) × Sequenced [] r.1)
      (ok-injective _ _ h) (sym (append-nil (stored_events c.ledger.rows)), tt)
append_each-adds serde c (i ∷ inputs) c' events h =
    let ((next, event), first, h1) =
      bind-eq_ok (append_after serde c i (get i.thread_id c.last_seq_by_thread)) _ _ h in
    let ((last, later), rest, h2) = bind-eq_ok (append_each serde next inputs) _ _ h1 in
    let (here, seq) = append_after-adds serde c i _ next event first in
    let (there, seqs) = append_each-adds serde next inputs last later rest in
    subst
      (λ r.
        (stored_events r.0.ledger.rows ≡ stored_events c.ledger.rows ++ r.1)
        × Sequenced (i ∷ inputs) r.1)
      (ok-injective _ _ h2)
      (
        there
            ∙ ap (λ events. events ++ later) here
            ∙ append_assoc (stored_events c.ledger.rows) (event ∷ []) later,
        (seq, seqs),
      )

pub append_all-adds :
    (serde : Serde) (l : Ledger) (inputs : List NewLedgerEvent) (l' : Ledger)
    (events : List LedgerEvent)
    → append_all serde l inputs ≡ ok (l', events)
    → (stored_events l'.rows ≡ stored_events l.rows ++ events) × Sequenced inputs events
unfolding append_all
append_all-adds serde l inputs l' events h =
    let ((last, later), looped, h1) =
      bind-eq_ok (append_each serde (start l inputs) inputs) _ _ h in
    subst (λ r. (stored_events r.0.rows ≡ stored_events l.rows ++ r.1) × Sequenced inputs r.1)
      (ok-injective _ _ h1) (append_each-adds serde (start l inputs) inputs last later looped)

-- The count says whether every input is stored.
abbrev Counts : Serde → List Row → List NewLedgerEvent → List (Option LedgerEvent) → Type 0
Counts serde rows inputs existing =
    (existing_count existing ≤ length inputs)
    × (fully_existing serde rows inputs ≡ ok (existing_count existing == length inputs))

Counts-cons :
    (serde : Serde) (rows : List Row) (i : NewLedgerEvent) (inputs : List NewLedgerEvent)
    (rest : List (Option LedgerEvent)) (found : Option LedgerEvent)
    → get_event_by_id serde i.event_id rows ≡ ok found
    → Counts serde rows inputs rest
    → Counts serde rows (i ∷ inputs) (found ∷ rest)
unfolding existing_count fully_existing
Counts-cons serde rows i inputs rest none absent (bound, counted) =
    let less : (existing_count rest == suc (length inputs)) ≡ false =
      ground (arith, ==_iff (existing_count rest) (suc (length inputs))) in
    (omega arith, rw (absent, less) refl)
Counts-cons serde rows i inputs rest (some e) present (bound, counted) =
    let same : (suc (existing_count rest) == suc (length inputs))
        ≡ (existing_count rest == length inputs) =
      ground (
        arith,
        ==_iff (suc (existing_count rest)) (suc (length inputs)),
        ==_iff (existing_count rest) (length inputs),
      ) in
    (omega arith, rw (present, same) counted)

look_up-Counts :
    (serde : Serde) (rows : List Row) (inputs : List NewLedgerEvent) (seen : List Str)
    (existing : List (Option LedgerEvent))
    → look_up serde rows seen inputs ≡ ok existing
    → Counts serde rows inputs existing
unfolding look_up existing_count fully_existing
look_up-Counts serde rows [] seen existing h =
    subst (Counts serde rows []) (ok-injective [] existing h) (omega arith, refl)
look_up-Counts serde rows (i ∷ inputs) seen existing h =
    let (new, h1) = require-eq_ok (not (Set.contains i.event_id seen)) _ _ h in
    let (found, read, h2) = bind-eq_ok (get_event_by_id serde i.event_id rows) _ _ h1 in
    let (rest, looked, h3) =
      bind-eq_ok (look_up serde rows (Set.insert i.event_id seen) inputs) _ _ h2 in
    subst (Counts serde rows (i ∷ inputs)) (ok-injective _ _ h3) (
      Counts-cons serde rows i inputs rest found read
        (look_up-Counts serde rows inputs (Set.insert i.event_id seen) rest looked))

pub batch_cases :
    (serde : Serde) (l : Ledger) (inputs : List NewLedgerEvent) (l' : Ledger)
    (events : List LedgerEvent)
    → append_batch_transaction serde l inputs ≡ ok (l', events)
    → ((l ≡ l') × (fully_existing serde l.rows inputs ≡ ok true))
      ⊎ ((append_all serde l inputs ≡ ok (l', events))
          × (fully_existing serde l.rows inputs ≡ ok false))
unfolding append_batch_transaction append_counted
batch_cases serde l [] l' events h = ground arith
batch_cases serde l (i ∷ inputs) l' events h =
    let (existing, looked, h1) = bind-eq_ok (look_up serde l.rows [] (i ∷ inputs)) _ _ h in
    let (bound, counted) = look_up-Counts serde l.rows (i ∷ inputs) [] existing looked in
    elim (Bool-cases (existing_count existing == length (i ∷ inputs))) [
      | inl all_stored ↦
          let (replayed, matched, h2) =
            bind-eq_ok (replay_batch (i ∷ inputs) existing) (λ replayed. ok (l, replayed))
              (l', events) (rw all_stored at h1) in
          inl (
            ap (λ r. r.0) (ok-injective (l, replayed) (l', events) h2),
            counted ∙ ap (λ b. ok b) all_stored,
          )
      | inr missing ↦ elim (Bool-cases (existing_count existing == 0)) [
        | inl all_new ↦ inr (ground arith, counted ∙ ap (λ b. ok b) missing)
        | inr partial ↦ absurd (ground arith)
      ]
    ]
