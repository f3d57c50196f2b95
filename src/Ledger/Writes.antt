-- ===== src/Ledger/Writes.antt =====
-- A write that succeeds grows the table.
use yeu_xharness.Base.{
  ℕ, ◌+◌, Bool, ◌≡◌, refl, ◌∙◌, ap, subst, inl, inr, List, [], ◌∷◌, Option, none, some, Str,
  str_ord, nat_ord, ◌==◌, ==_iff, arith, length, Bool-cases, if◌then◌else◌,
}
use yeu_xharness.Base.Map.{Map, get, insert, get-insert, get-nil, contains_key}
use yeu_xharness.Base.Results.{ok, bind-eq_ok, ok-injective, require-eq_ok}
use yeu_xharness.Ledger.Types.{LedgerEvent, NewLedgerEvent}
use yeu_xharness.Ledger.Serde.{Serde}
use yeu_xharness.Ledger.Store.{
  Ledger, Row, get_event_by_id, max_seq, max_append_order, next_sqlite_sequence, insert_event,
}
use yeu_xharness.Ledger.Append.{
  sequenced, thread_scope, global_scope, append_new, append_onto, import_onto, append_body, look_up,
  existing_count, preload, append_after, append_each, append_all, Cursor, start, append_counted,
  append_batch_transaction, import_new, import_body,
}
use yeu_xharness.Ledger.Growth.{
  Grows, stays, Grows-trans, next-eq_ok, insert_event-Grows, insert_event-eq_ok,
}

-- The table grew, and the receipts are as they were.
abbrev pub Extends : Ledger → Ledger → Type 0
Extends l l' = Grows l.rows l'.rows × (l'.receipts ≡ l.receipts)

unchanged : (l : Ledger) (l' : Ledger) → l' ≡ l → Extends l l'
unchanged l l' e = rw e (stays, refl)

pub append_new-Extends :
    (serde : Serde) (l : Ledger) (i : NewLedgerEvent) (l' : Ledger) (e : LedgerEvent)
    → append_new serde l i ≡ ok (l', e)
    → Extends l l'
unfolding append_new
append_new-Extends serde l i l' e h =
    let (next, n, h1) = bind-eq_ok _ _ _ h in
    let (order, o, h2) = bind-eq_ok _ _ _ h1 in
    let (l1, inserted, h3) = bind-eq_ok _ _ _ h2 in
    let same_ledger : l1 ≡ l' = ground arith in
    subst (Extends l) same_ledger (
      insert_event-Grows serde l (sequenced i next) order l1 inserted (next-eq_ok _ _ next n)
        (next-eq_ok _ _ order o))

append_onto-Extends :
    (serde : Serde) (l : Ledger) (i : NewLedgerEvent) (found : Option LedgerEvent) (l' : Ledger)
    (e : LedgerEvent)
    → append_onto serde l i found ≡ ok (l', e)
    → Extends l l'
append_onto-Extends serde l i none l' e h = append_new-Extends serde l i l' e h
append_onto-Extends serde l i (some existing) l' e h = unchanged l l' (ground arith)

pub append_body-Extends :
    (serde : Serde) (l : Ledger) (i : NewLedgerEvent) (l' : Ledger) (e : LedgerEvent)
    → append_body serde l i ≡ ok (l', e)
    → Extends l l'
unfolding append_body
append_body-Extends serde l i l' e h =
    let (found, read, h1) = bind-eq_ok (get_event_by_id serde i.event_id l.rows) _ _ h in
    append_onto-Extends serde l i found l' e h1

-- What the loop of a batch carries: the largest numbers of the table.
pub record IsCurrent (c : Cursor) : Type 0 where
  pub seqs_current :
      (t : Str) (n : ℕ) → get t c.last_seq_by_thread ≡ some n → n ≡ max_seq t c.ledger.rows
  pub order_current : c.append_order ≡ max_append_order c.ledger.rows

-- The largest numbers after an insertion.
max_seq-insert :
    (serde : Serde) (l l' : Ledger) (event : LedgerEvent) (order : ℕ) (t : Str)
    → insert_event serde l event order ≡ ok l'
    → event.seq ≡ max_seq event.thread_id l.rows + 1
    → max_seq t l'.rows ≡ (if event.thread_id == t then event.seq else max_seq t l.rows)
unfolding max_seq
max_seq-insert serde l l' event order t h s =
    let (e, fresh, seq_fits, order_fits) = insert_event-eq_ok serde l event order l' h in
    rw e (ground (arith, ==_iff event.thread_id t))

max_order-insert :
    (serde : Serde) (l l' : Ledger) (event : LedgerEvent) (order : ℕ)
    → insert_event serde l event order ≡ ok l'
    → order ≡ max_append_order l.rows + 1
    → order ≡ max_append_order l'.rows
unfolding max_append_order
max_order-insert serde l l' event order h o =
    let (e, fresh, seq_fits, order_fits) = insert_event-eq_ok serde l event order l' h in
    rw e (ground arith)

pub append_after-Extends :
    (serde : Serde) (c : Cursor) (i : NewLedgerEvent) (o : Option ℕ) (c' : Cursor) (e : LedgerEvent)
    → IsCurrent c
    → get i.thread_id c.last_seq_by_thread ≡ o
    → append_after serde c i o ≡ ok (c', e)
    → Extends c.ledger c'.ledger × IsCurrent c'
unfolding append_after
append_after-Extends serde c i none c' e w g h = ground arith
append_after-Extends serde c i (some last) c' e w g h =
    let (seq, n, h1) = bind-eq_ok (next_sqlite_sequence last (thread_scope i.thread_id)) _ _ h in
    let (order, o, h2) = bind-eq_ok (next_sqlite_sequence c.append_order global_scope) _ _ h1 in
    let (l, inserted, h3) =
      bind-eq_ok (insert_event serde c.ledger (sequenced i seq) order) _ _ h2 in
    let seq_next : seq ≡ max_seq i.thread_id c.ledger.rows + 1 =
      omega (arith, next-eq_ok _ _ seq n, w.seqs_current i.thread_id last g) in
    let order_next : order ≡ max_append_order c.ledger.rows + 1 =
      omega (arith, next-eq_ok _ _ order o, w.order_current) in
    subst (λ r. Extends c.ledger r.0.ledger × IsCurrent r.0) (ok-injective _ _ h3)
      (
        insert_event-Grows serde c.ledger (sequenced i seq) order l inserted seq_next order_next,
        record {
          seqs_current = λ t k found. ground (
            arith,
            max_seq-insert serde c.ledger l (sequenced i seq) order t inserted seq_next,
            get-insert t i.thread_id seq c.last_seq_by_thread,
            w.seqs_current t k,
            ==_iff t i.thread_id,
            ==_iff i.thread_id t,
          );
          order_current =
              max_order-insert serde c.ledger l (sequenced i seq) order inserted order_next;
        },
      )

pub append_each-Extends :
    (serde : Serde) (c : Cursor) (inputs : List NewLedgerEvent) (c' : Cursor)
    (events : List LedgerEvent)
    → IsCurrent c
    → append_each serde c inputs ≡ ok (c', events)
    → Extends c.ledger c'.ledger
unfolding append_each
append_each-Extends serde c [] c' events w h =
    subst (λ r. Extends c.ledger r.0.ledger) (ok-injective _ _ h) (stays, refl)
append_each-Extends serde c (i ∷ inputs) c' events w h =
    let ((next, event), first, h1) = bind-eq_ok _ _ _ h in
    let ((last, later), rest, h2) = bind-eq_ok _ _ _ h1 in
    let ((grown, kept), w') = append_after-Extends serde c i _ next event w refl first in
    let (grown', kept') = append_each-Extends serde next inputs last later w' rest in
    subst (λ r. Extends c.ledger r.0.ledger) (ok-injective _ _ h2)
      (Grows-trans grown grown', kept' ∙ kept)

preload-current :
    (rows : List Row) (inputs : List NewLedgerEvent) (seqs : Map Str ℕ)
    → ((t : Str) (n : ℕ) → get t seqs ≡ some n → n ≡ max_seq t rows)
    → (t : Str) (n : ℕ) → get t (preload rows inputs seqs) ≡ some n
    → n ≡ max_seq t rows
unfolding preload
preload-current rows [] seqs c t n g = c t n g
preload-current rows (i ∷ inputs) seqs c t n g =
    preload-current rows inputs _
      (λ u m h. elim (Bool-cases (contains_key i.thread_id seqs)) [
        | inl known ↦ c u m (rw known at h)
        | inr new ↦ loaded u m (rw new at h)
      ])
      t n g
  where
    loaded :
        (u : Str) (m : ℕ)
        → get u (insert i.thread_id (max_seq i.thread_id rows) seqs) ≡ some m
        → m ≡ max_seq u rows
    loaded u m h = ground (
      arith,
      get-insert u i.thread_id (max_seq i.thread_id rows) seqs,
      ==_iff u i.thread_id,
      c u m,
    )

pub start-IsCurrent : (l : Ledger) (inputs : List NewLedgerEvent) → IsCurrent (start l inputs)
start-IsCurrent l inputs = record {
  seqs_current = preload-current l.rows inputs [] (λ t n g. absurd (cc (get-nil t, g)));
  order_current = refl;
}

pub append_all-Extends :
    (serde : Serde) (l : Ledger) (inputs : List NewLedgerEvent) (l' : Ledger)
    (events : List LedgerEvent)
    → append_all serde l inputs ≡ ok (l', events)
    → Extends l l'
unfolding append_all
append_all-Extends serde l inputs l' events h =
    let ((last, later), looped, h1) =
      bind-eq_ok (append_each serde (start l inputs) inputs) _ _ h in
    subst (λ r. Extends l r.0) (ok-injective _ _ h1)
      (append_each-Extends serde (start l inputs) inputs last later (start-IsCurrent l inputs)
        looped)

pub append_counted-Extends :
    (serde : Serde) (l : Ledger) (inputs : List NewLedgerEvent)
    (existing : List (Option LedgerEvent)) (l' : Ledger) (events : List LedgerEvent)
    → append_counted serde l inputs existing ≡ ok (l', events)
    → Extends l l'
unfolding append_counted
append_counted-Extends serde l inputs existing l' events h =
    elim (Bool-cases (existing_count existing == length inputs)) [
      | inl all_stored ↦ unchanged l l' (ground arith)
      | inr missing ↦ elim (Bool-cases (existing_count existing == 0)) [
        | inl all_new ↦ append_all-Extends serde l inputs l' events (ground arith)
        | inr partial ↦ absurd (ground arith)
      ]
    ]

pub append_batch_transaction-Extends :
    (serde : Serde) (l : Ledger) (inputs : List NewLedgerEvent) (l' : Ledger)
    (events : List LedgerEvent)
    → append_batch_transaction serde l inputs ≡ ok (l', events)
    → Extends l l'
unfolding append_batch_transaction
append_batch_transaction-Extends serde l [] l' events h = ground arith
append_batch_transaction-Extends serde l (i ∷ inputs) l' events h =
    let (existing, looked_up, h1) = bind-eq_ok (look_up serde l.rows [] (i ∷ inputs)) _ _ h in
    append_counted-Extends serde l (i ∷ inputs) existing l' events h1

-- An import that succeeds inserts its event under the next numbers.
pub import_new-inserts :
    (serde : Serde) (l : Ledger) (event : LedgerEvent) (l' : Ledger)
    → import_new serde l event ≡ ok (l', tt)
    → (order : ℕ) × (insert_event serde l event order ≡ ok l')
      × (event.seq ≡ max_seq event.thread_id l.rows + 1)
      × (order ≡ max_append_order l.rows + 1)
unfolding import_new
import_new-inserts serde l event l' h =
    let (expected, n, h1) =
      bind-eq_ok
        (next_sqlite_sequence (max_seq event.thread_id l.rows) (thread_scope event.thread_id)) _ _
        h in
    let (in_place, h2) = require-eq_ok (event.seq == expected) _ _ h1 in
    let (order, o, h3) =
      bind-eq_ok (next_sqlite_sequence (max_append_order l.rows) global_scope) _ _ h2 in
    let (l1, inserted, h4) = bind-eq_ok (insert_event serde l event order) _ _ h3 in
    let done : l1 ≡ l' = ground arith in
    (
      order,
      inserted ∙ ap (λ k. ok k) done,
      ground (arith, next-eq_ok _ _ expected n, ==_iff event.seq expected),
      next-eq_ok _ _ order o,
    )

import_new-Extends :
    (serde : Serde) (l : Ledger) (event : LedgerEvent) (l' : Ledger)
    → import_new serde l event ≡ ok (l', tt)
    → Extends l l'
import_new-Extends serde l event l' h =
    let (order, inserted, s, o) = import_new-inserts serde l event l' h in
    insert_event-Grows serde l event order l' inserted s o

import_onto-Extends :
    (serde : Serde) (l : Ledger) (event : LedgerEvent) (duplicate_ok : Bool)
    (found : Option LedgerEvent) (l' : Ledger)
    → import_onto serde l event duplicate_ok found ≡ ok (l', tt)
    → Extends l l'
import_onto-Extends serde l event duplicate_ok none l' h = import_new-Extends serde l event l' h
import_onto-Extends serde l event duplicate_ok (some existing) l' h = unchanged l l' (ground arith)

pub import_body-Extends :
    (serde : Serde) (l : Ledger) (event : LedgerEvent) (duplicate_ok : Bool) (l' : Ledger)
    → import_body serde l event duplicate_ok ≡ ok (l', tt)
    → Extends l l'
unfolding import_body
import_body-Extends serde l event duplicate_ok l' h =
    let (found, read, h1) = bind-eq_ok (get_event_by_id serde event.event_id l.rows) _ _ h in
    import_onto-Extends serde l event duplicate_ok found l' h1
