-- ===== src/Ledger/Growth.antt =====
-- The rows that a write adds, one after the other.
use yeu_xharness.Base.{
  ℕ, ◌+◌, ◌≤◌, false, ◌≡◌, refl, ap, List, [], ◌∷◌, ◌++◌, none, Str, str_ord, nat_ord, arith, any,
}
use yeu_xharness.Base.Results.{ok}
use yeu_xharness.Ledger.Types.{LedgerEvent}
use yeu_xharness.Ledger.Serde.{Serde}
use yeu_xharness.Ledger.Store.{
  Ledger, Row, find_event, max_seq, max_append_order, next_sqlite_sequence, insert_event, i64_max,
  conflicts,
}

-- The row continues the table: a new id, the next number of its thread and the next of the table,
-- each an `i64`.
pub record IsNext (r : Row) (rows : List Row) : Type 0 where
  pub fresh : find_event r.event.event_id rows ≡ none
  pub next_seq : r.event.seq ≡ max_seq r.event.thread_id rows + 1
  pub next_order : r.append_order ≡ max_append_order rows + 1
  pub seq_fits : r.event.seq ≤ i64_max
  pub order_fits : r.append_order ≤ i64_max

-- Rows were added, each the next one.
pub data Grows (rows : List Row) : List Row → Type 0 where
  stays : Grows rows rows
  adds : {later : List Row} (r : Row) → Grows rows later → IsNext r later → Grows rows (r ∷ later)

pub Grows-trans : {a b c : List Row} → Grows a b → Grows b c → Grows a c
Grows-trans g stays = g
Grows-trans g (adds r h n) = adds r (Grows-trans g h) n

-- Every row was the next one when it was added.
abbrev pub IsWellFormed : List Row → Type 0
IsWellFormed [] = Unit
IsWellFormed (r ∷ rows) = IsNext r rows × IsWellFormed rows

pub Grows-IsWellFormed : {a b : List Row} → Grows a b → IsWellFormed a → IsWellFormed b
Grows-IsWellFormed stays w = w
Grows-IsWellFormed (adds r g n) w = (n, Grows-IsWellFormed g w)

-- The rows that were there stay, with the new ones in front.
pub Grows-append : {a b : List Row} → Grows a b → (news : List Row) × (b ≡ news ++ a)
Grows-append stays = ([], refl)
Grows-append (adds r g n) = let (news, e) = Grows-append g in (r ∷ news, ap (λ rows. r ∷ rows) e)

pub next-eq_ok :
    (current : ℕ) (scope : Str) (n : ℕ)
    → next_sqlite_sequence current scope ≡ ok n
    → n ≡ current + 1
unfolding next_sqlite_sequence
next-eq_ok current scope n h = ground arith

no_conflict-fresh :
    (event : LedgerEvent) (order : ℕ) (rows : List Row)
    → any (conflicts event order) rows ≡ false
    → find_event event.event_id rows ≡ none
unfolding find_event
no_conflict-fresh event order [] h = refl
no_conflict-fresh event order (r ∷ rows) h = ground (arith, no_conflict-fresh event order rows)

-- An insertion that succeeds adds its row, under a new id and with numbers that fit.
pub insert_event-eq_ok :
    (serde : Serde) (l : Ledger) (event : LedgerEvent) (order : ℕ) (l' : Ledger)
    → insert_event serde l event order ≡ ok l'
    → (l' ≡ record l { rows = record { append_order = order; event = event } ∷ l.rows })
      × (find_event event.event_id l.rows ≡ none)
      × (event.seq ≤ i64_max)
      × (order ≤ i64_max)
unfolding insert_event
insert_event-eq_ok serde l event order l' h = ground (arith, no_conflict-fresh event order l.rows)

-- So it grows the table by one row, if the numbers are the next ones.
pub insert_event-Grows :
    (serde : Serde) (l : Ledger) (event : LedgerEvent) (order : ℕ) (l' : Ledger)
    → insert_event serde l event order ≡ ok l'
    → event.seq ≡ max_seq event.thread_id l.rows + 1
    → order ≡ max_append_order l.rows + 1
    → Grows l.rows l'.rows × (l'.receipts ≡ l.receipts)
insert_event-Grows serde l event order l' h s o =
    let (e, fresh, seq_fits, order_fits) = insert_event-eq_ok serde l event order l' h in
    rw e (
      adds (record { append_order = order; event = event }) stays
          (record {
            fresh = fresh;
            next_seq = s;
            next_order = o;
            seq_fits = seq_fits;
            order_fits = order_fits;
          }),
      refl,
    )
