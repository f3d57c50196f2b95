-- ===== src/Ledger/Append.antt =====
-- `append`, `append_batch` and `import`.
use yeu_xharness.Base.{
  ℕ, suc, Bool, true, ◌&&◌, not, List, [], ◌∷◌, ◌++◌, Option, none, some, Str, str_ord, bytes,
  nat_ord, ◌==◌, length, if◌then◌else◌,
}
use yeu_xharness.Base.Map.{Map, get, insert, contains_key}
use yeu_xharness.Base.Set
use yeu_xharness.Base.Results.{ok, err, ◌>>=◌, ◌>>◌, require, ok_or}
use yeu_xharness.Ledger.Types.{LedgerEvent, NewLedgerEvent}
use yeu_xharness.Ledger.Errors.{event_id_conflict, empty_event_batch, sequence_gap, panicked}
use yeu_xharness.Ledger.Serde.{Serde}
use yeu_xharness.Ledger.Store.{
  Ledger, Row, Outcome, get_event_by_id, max_seq, max_append_order, next_sqlite_sequence,
  insert_event, transact, new_event_matches,
}

-- The input with its sequence number.
abbrev pub sequenced : NewLedgerEvent → ℕ → LedgerEvent
sequenced i seq = record {
  schema_version = i.schema_version;
  event_id = i.event_id;
  thread_id = i.thread_id;
  turn_id = i.turn_id;
  agent_id = i.agent_id;
  seq = seq;
  time = i.time;
  causation_id = i.causation_id;
  kind = i.kind;
  payload = i.payload;
}

abbrev pub thread_scope : Str → Str
thread_scope thread = bytes "thread " ++ thread

abbrev pub global_scope : Str
global_scope = bytes "global append order"

-- The insertion of an event whose id is new, by which `append` ends.
unfoldable pub append_new : Serde → Ledger → NewLedgerEvent → Outcome (Ledger × LedgerEvent)
append_new serde l input = do
  next ← next_sqlite_sequence (max_seq input.thread_id l.rows) (thread_scope input.thread_id)
  order ← next_sqlite_sequence (max_append_order l.rows) global_scope
  l' ← insert_event serde l (sequenced input next) order
  found ← get_event_by_id serde input.event_id l'.rows
  event ← ok_or found (panicked (bytes "inserted event exists"))
  ok (l', event)

abbrev pub append_onto :
    Serde → Ledger → NewLedgerEvent → Option LedgerEvent → Outcome (Ledger × LedgerEvent)
append_onto serde l input (some existing) =
    if new_event_matches input existing
    then ok (l, existing)
    else err (event_id_conflict input.event_id)
append_onto serde l input none = append_new serde l input

unfoldable pub append_body : Serde → Ledger → NewLedgerEvent → Outcome (Ledger × LedgerEvent)
append_body serde l input =
    get_event_by_id serde input.event_id l.rows >>= append_onto serde l input

unfoldable pub append : Serde → Ledger → NewLedgerEvent → Ledger × Outcome LedgerEvent
append serde l input = transact l (append_body serde l input)

-- The first loop of a batch: distinct ids, and what is stored under each.
unfoldable pub look_up :
    Serde → List Row → List Str → List NewLedgerEvent → Outcome (List (Option LedgerEvent))
look_up serde rows seen [] = ok []
look_up serde rows seen (i ∷ inputs) = do
  require (not (Set.contains i.event_id seen)) (event_id_conflict i.event_id)
  found ← get_event_by_id serde i.event_id rows
  rest ← look_up serde rows (Set.insert i.event_id seen) inputs
  ok (found ∷ rest)

unfoldable pub existing_count : List (Option LedgerEvent) → ℕ
existing_count [] = 0
existing_count (none ∷ existing) = existing_count existing
existing_count (some e ∷ existing) = suc (existing_count existing)

-- Every input is stored: each must match.
unfoldable pub replay_batch :
    List NewLedgerEvent → List (Option LedgerEvent) → Outcome (List LedgerEvent)
replay_batch [] existing = ok []
replay_batch (i ∷ inputs) [] = ok []
replay_batch (i ∷ inputs) (none ∷ existing) =
    err (panicked (bytes "every event was counted as existing"))
replay_batch (i ∷ inputs) (some e ∷ existing) = do
  require (new_event_matches i e) (event_id_conflict i.event_id)
  rest ← replay_batch inputs existing
  ok (e ∷ rest)

unfoldable pub first_existing : List NewLedgerEvent → List (Option LedgerEvent) → Outcome Str
first_existing (i ∷ inputs) (some e ∷ existing) = ok i.event_id
first_existing (i ∷ inputs) (none ∷ existing) = first_existing inputs existing
first_existing _ _ = err (panicked (bytes "a partial batch contains an existing event"))

-- The last sequence number of every thread of the batch.
unfoldable pub preload : List Row → List NewLedgerEvent → Map Str ℕ → Map Str ℕ
preload rows [] seqs = seqs
preload rows (i ∷ inputs) seqs = preload rows inputs (
    if contains_key i.thread_id seqs
    then seqs
    else insert i.thread_id (max_seq i.thread_id rows) seqs)

-- The variables of the loop that inserts a batch.
pub record Cursor : Type 0 where
  pub ledger : Ledger
  pub last_seq_by_thread : Map Str ℕ
  pub append_order : ℕ

-- The body of the loop, from the number that `get_mut` finds.
unfoldable pub append_after :
    Serde → Cursor → NewLedgerEvent → Option ℕ → Outcome (Cursor × LedgerEvent)
append_after serde c i none = err (panicked (bytes "every input thread was preloaded"))
append_after serde c i (some last) = do
  seq ← next_sqlite_sequence last (thread_scope i.thread_id)
  order ← next_sqlite_sequence c.append_order global_scope
  ledger ← insert_event serde c.ledger (sequenced i seq) order
  ok (
    record {
      ledger = ledger;
      last_seq_by_thread = insert i.thread_id seq c.last_seq_by_thread;
      append_order = order;
    },
    sequenced i seq,
  )

unfoldable pub append_each :
    Serde → Cursor → List NewLedgerEvent → Outcome (Cursor × List LedgerEvent)
append_each serde c [] = ok (c, [])
append_each serde c (i ∷ inputs) = do
  (next, event) ← append_after serde c i (get i.thread_id c.last_seq_by_thread)
  (last, events) ← append_each serde next inputs
  ok (last, event ∷ events)

-- The cursor in front of the loop.
abbrev pub start : Ledger → List NewLedgerEvent → Cursor
start l inputs = record {
  ledger = l;
  last_seq_by_thread = preload l.rows inputs [];
  append_order = max_append_order l.rows;
}

unfoldable pub append_all :
    Serde → Ledger → List NewLedgerEvent → Outcome (Ledger × List LedgerEvent)
append_all serde l inputs = do
  (last, events) ← append_each serde (start l inputs) inputs
  ok (last.ledger, events)

-- What follows the first loop.
unfoldable pub append_counted :
    Serde
    → Ledger
    → List NewLedgerEvent
    → List (Option LedgerEvent)
    → Outcome (Ledger × List LedgerEvent)
append_counted serde l inputs existing =
    if existing_count existing == length inputs
    then replay_batch inputs existing >>= (λ replayed. ok (l, replayed))
    else if existing_count existing == 0
    then append_all serde l inputs
    else first_existing inputs existing >>= (λ id. err (event_id_conflict id))

unfoldable pub append_batch_transaction :
    Serde → Ledger → List NewLedgerEvent → Outcome (Ledger × List LedgerEvent)
append_batch_transaction serde l [] = err empty_event_batch
append_batch_transaction serde l (i ∷ inputs) =
    look_up serde l.rows [] (i ∷ inputs) >>= append_counted serde l (i ∷ inputs)

unfoldable pub append_batch :
    Serde → Ledger → List NewLedgerEvent → Ledger × Outcome (List LedgerEvent)
append_batch serde l inputs = transact l (append_batch_transaction serde l inputs)

-- `existing == event`
unfoldable pub same_event : LedgerEvent → LedgerEvent → Bool
same_event existing event =
    new_event_matches
      (record {
        schema_version = existing.schema_version;
        event_id = existing.event_id;
        thread_id = existing.thread_id;
        turn_id = existing.turn_id;
        agent_id = existing.agent_id;
        time = existing.time;
        causation_id = existing.causation_id;
        kind = existing.kind;
        payload = existing.payload;
      })
      event
    && existing.seq == event.seq

unfoldable pub import_new : Serde → Ledger → LedgerEvent → Outcome (Ledger × Unit {0})
import_new serde l event = do
  expected ← next_sqlite_sequence (max_seq event.thread_id l.rows) (thread_scope event.thread_id)
  require (event.seq == expected) (sequence_gap event.thread_id expected event.seq)
  order ← next_sqlite_sequence (max_append_order l.rows) global_scope
  l' ← insert_event serde l event order
  ok (l', tt)

abbrev pub import_onto :
    Serde → Ledger → LedgerEvent → Bool → Option LedgerEvent → Outcome (Ledger × Unit {0})
import_onto serde l event duplicate_ok (some existing) =
    if duplicate_ok && same_event existing event
    then ok (l, tt)
    else err (event_id_conflict event.event_id)
import_onto serde l event duplicate_ok none = import_new serde l event

unfoldable pub import_body : Serde → Ledger → LedgerEvent → Bool → Outcome (Ledger × Unit {0})
import_body serde l event duplicate_ok =
    get_event_by_id serde event.event_id l.rows >>= import_onto serde l event duplicate_ok

unfoldable pub import_with_duplicate_policy :
    Serde → Ledger → LedgerEvent → Bool → Ledger × Outcome (Unit {0})
import_with_duplicate_policy serde l event duplicate_ok =
    transact l (import_body serde l event duplicate_ok)

unfoldable pub import : Serde → Ledger → LedgerEvent → Ledger × Outcome (Unit {0})
import serde l event = import_with_duplicate_policy serde l event true
