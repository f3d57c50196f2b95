-- ===== src/Ledger/Read.antt =====
-- `replay`, `replay_page` and `all_events`.
use yeu_xharness.Base.{
  ℕ, zero, suc, ◌+◌, ◌^◌, ◌&&◌, List, [], ◌∷◌, Str, str_ord, nat_ord, ◌==◌, leb, ltb, map,
  if◌then◌else◌,
}
use yeu_xharness.Base.Results.{ok, ◌>>=◌, ◌>>◌, require}
use yeu_xharness.Ledger.Types.{LedgerEvent}
use yeu_xharness.Ledger.Errors.{sequence_gap}
use yeu_xharness.Ledger.Store.{Ledger, Row, Outcome, sql_integer, row_to_event}
use yeu_xharness.Ledger.Serde.{Serde}

-- `ORDER BY key ASC`
module _ {A : Type 0} (key : A → ℕ) where
  unfoldable pub place : A → List A → List A
  place x [] = x ∷ []
  place x (y ∷ ys) = if leb (key x) (key y) then x ∷ y ∷ ys else y ∷ place x ys

  unfoldable pub order_by : List A → List A
  unfolding place
  order_by [] = []
  order_by (x ∷ xs) = place x (order_by xs)

-- `WHERE thread_id = ?1 AND seq > ?2`
unfoldable pub select_after : Str → ℕ → List Row → List LedgerEvent
select_after thread after [] = []
select_after thread after (r ∷ rows) =
    if r.event.thread_id == thread && ltb after r.event.seq
    then r.event ∷ select_after thread after rows
    else select_after thread after rows

-- `LIMIT`
unfoldable pub take : {A : Type 0} → ℕ → List A → List A
take n [] = []
take zero (x ∷ xs) = []
take (suc n) (x ∷ xs) = x ∷ take n xs

-- `saturating_add(1)`
unfoldable pub succ_saturating : ℕ → ℕ
succ_saturating n = if ltb (n + 1) (2 ^ 64) then n + 1 else 18446744073709551615

unfoldable pub validate_sequence : Str → ℕ → List LedgerEvent → Outcome (Unit {0})
unfolding succ_saturating
validate_sequence thread expected [] = ok tt
validate_sequence thread expected (e ∷ events) =
    require (e.seq == expected) (sequence_gap thread expected e.seq)
    >> validate_sequence thread (succ_saturating expected) events

-- `query_map(row_to_event)`, collected up to the first error.
unfoldable pub read_all : Serde → List LedgerEvent → Outcome (List LedgerEvent)
read_all serde [] = ok []
read_all serde (e ∷ rows) = do
  event ← row_to_event serde e
  events ← read_all serde rows
  ok (event ∷ events)

unfoldable pub replay : Serde → Ledger → Str → ℕ → Outcome (List LedgerEvent)
replay serde l thread after_seq = do
  after ← sql_integer after_seq
  events ← read_all serde (order_by (λ e. e.seq) (select_after thread after l.rows))
  validate_sequence thread (succ_saturating after_seq) events
  ok events

unfoldable pub replay_page : Serde → Ledger → Str → ℕ → ℕ → Outcome (List LedgerEvent)
replay_page serde l thread after_seq zero = ok []
replay_page serde l thread after_seq (suc n) = do
  after ← sql_integer after_seq
  limit ← sql_integer (suc n)
  events ← read_all serde (take limit (order_by (λ e. e.seq) (select_after thread after l.rows)))
  validate_sequence thread (succ_saturating after_seq) events
  ok events

unfoldable pub all_events : Serde → Ledger → Outcome (List LedgerEvent)
all_events serde l = read_all serde (map (λ r. r.event) (order_by (λ r. r.append_order) l.rows))
