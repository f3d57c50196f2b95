-- ===== src/Ledger/Store.antt =====
-- The tables and the statements on them, as SQL gives them: a table has no order of its own, and an
-- insertion that breaks a constraint is an error. The newest row stands first. A row is kept as the
-- values that were written to it; reading it gives what serde and chrono make of their texts.
use yeu_xharness.Base.{
  ℕ, ◌+◌, Bool, ◌&&◌, ◌||◌, not, List, [], ◌∷◌, Option, none, some, Str, str_ord, bytes, nat_ord,
  ◌==◌, leb, ltb, any, same, if◌then◌else◌,
}
use yeu_xharness.Base.Results.{Result, ok, err, ◌>>=◌, ◌>>◌, require}
use yeu_xharness.Ledger.Types.{
  LedgerEvent, NewLedgerEvent, CommandReceipt, NewCommandReceipt, Value-discrete,
  Option_Str-discrete,
}
use yeu_xharness.Ledger.Errors.{LedgerError, database, json, invalid_envelope, sequence_overflow}
use yeu_xharness.Ledger.Serde.{Serde}
use yeu_xharness.Base.Map.{is_some}

pub record Row : Type 0 where
  pub append_order : ℕ
  pub event : LedgerEvent

pub record Ledger : Type 0 where
  pub rows : List Row
  pub receipts : List CommandReceipt

abbrev pub Outcome : Type 0 → Type 0
Outcome A = Result LedgerError A

-- `initialize_schema` on a new database.
abbrev pub empty_ledger : Ledger
empty_ledger = record { rows = []; receipts = [] }

-- `WHERE event_id = ?1`
unfoldable pub find_event : Str → List Row → Option LedgerEvent
find_event id [] = none
find_event id (r ∷ rows) = if r.event.event_id == id then some r.event else find_event id rows

-- `map_err` to an error.
abbrev pub or_error : {A : Type 0} → (Str → LedgerError) → Result Str A → Outcome A
or_error f (ok a) = ok a
or_error f (err message) = err (f message)

unfoldable pub row_to_event : Serde → LedgerEvent → Outcome LedgerEvent
row_to_event serde e = do
  version ← or_error database (serde.reread_version e.schema_version)
  time ← or_error database (serde.reread_time e.time)
  payload ← or_error database (serde.reread_json e.payload)
  ok (record e { schema_version = version; time = time; payload = payload })

-- `optional`
abbrev pub read_optional : Serde → Option LedgerEvent → Outcome (Option LedgerEvent)
read_optional serde none = ok none
read_optional serde (some e) = row_to_event serde e >>= (λ read. ok (some read))

unfoldable pub get_event_by_id : Serde → Str → List Row → Outcome (Option LedgerEvent)
unfolding find_event row_to_event
get_event_by_id serde id rows = read_optional serde (find_event id rows)

abbrev pub largest : ℕ → ℕ → ℕ
largest a b = if leb a b then b else a

-- `SELECT COALESCE(MAX(seq), 0) FROM events WHERE thread_id = ?1`
unfoldable pub max_seq : Str → List Row → ℕ
max_seq thread [] = 0
max_seq thread (r ∷ rows) =
    if r.event.thread_id == thread
    then largest r.event.seq (max_seq thread rows)
    else max_seq thread rows

-- `SELECT COALESCE(MAX(append_order), 0) FROM events`
unfoldable pub max_append_order : List Row → ℕ
max_append_order [] = 0
max_append_order (r ∷ rows) = largest r.append_order (max_append_order rows)

-- `i64::MAX`
abbrev pub i64_max : ℕ
i64_max = 9223372036854775807

unfoldable pub next_sqlite_sequence : ℕ → Str → Outcome ℕ
next_sqlite_sequence current scope =
    if leb i64_max current then err (sequence_overflow scope) else ok (current + 1)

-- A `u64` as an SQL integer, which has 64 bits with a sign.
unfoldable pub sql_integer : ℕ → Outcome ℕ
sql_integer n = if leb n i64_max then ok n else err (database (bytes "integer out of range"))

-- The constraints of the table: UNIQUE(event_id), UNIQUE(append_order), PRIMARY KEY(thread_id, seq),
-- both numbers positive, and a payload that SQLite accepts as JSON.
abbrev pub conflicts : LedgerEvent → ℕ → Row → Bool
conflicts event order r =
    r.event.event_id == event.event_id
    || (r.append_order == order
        || (r.event.thread_id == event.thread_id && r.event.seq == event.seq))

unfoldable pub insert_event : Serde → Ledger → LedgerEvent → ℕ → Outcome Ledger
unfolding sql_integer
insert_event serde l event order = do
  number ← sql_integer order
  seq ← sql_integer event.seq
  require (ltb 0 number && (ltb 0 seq && serde.json_valid event.payload))
      (database (bytes "CHECK constraint failed"))
  require (not (any (conflicts event number) l.rows)) (database (bytes "UNIQUE constraint failed"))
  ok (record l { rows = record { append_order = number; event = event } ∷ l.rows })

-- `WHERE command_id = ?1`
unfoldable pub find_receipt : Str → List CommandReceipt → Option CommandReceipt
find_receipt id [] = none
find_receipt id (r ∷ receipts) = if r.command_id == id then some r else find_receipt id receipts

unfoldable pub row_to_receipt : Serde → CommandReceipt → Outcome CommandReceipt
row_to_receipt serde r = do
  response ← or_error json (serde.reread_json r.response)
  created_at ← or_error invalid_envelope (serde.reread_time r.created_at)
  ok (record r { response = response; created_at = created_at })

-- `transpose`
abbrev pub receipt_of : Serde → Option CommandReceipt → Outcome (Option CommandReceipt)
receipt_of serde none = ok none
receipt_of serde (some r) = row_to_receipt serde r >>= (λ read. ok (some read))

unfoldable pub get_command_receipt :
    Serde → Str → List CommandReceipt → Outcome (Option CommandReceipt)
unfolding find_receipt row_to_receipt
get_command_receipt serde id receipts = receipt_of serde (find_receipt id receipts)

abbrev pub stored : NewCommandReceipt → CommandReceipt
stored r = record {
  command_id = r.command_id;
  method = r.method;
  params_digest = r.params_digest;
  response = r.response;
  created_at = r.created_at;
}

unfoldable pub insert_command_receipt :
    Serde → Ledger → NewCommandReceipt → Outcome (Ledger × CommandReceipt)
unfolding find_receipt
insert_command_receipt serde l receipt = do
  require (serde.json_valid receipt.response) (database (bytes "CHECK constraint failed"))
  require (not (is_some (find_receipt receipt.command_id l.receipts)))
      (database (bytes "UNIQUE constraint failed"))
  ok (record l { receipts = stored receipt ∷ l.receipts }, stored receipt)

-- A transaction: what its body did stays if it succeeds, and is rolled back if it fails.
unfoldable pub transact : {A : Type 0} → Ledger → Outcome (Ledger × A) → Ledger × Outcome A
transact l (ok (l', a)) = (l', ok a)
transact l (err e) = (l, err e)

abbrev pub same_version : NewLedgerEvent → LedgerEvent → Bool
same_version input existing =
    input.schema_version.major == existing.schema_version.major
    && input.schema_version.minor == existing.schema_version.minor

unfoldable pub new_event_matches : NewLedgerEvent → LedgerEvent → Bool
unfolding Value-discrete Option_Str-discrete
new_event_matches input existing =
    same_version input existing
    && (input.event_id == existing.event_id
        && (input.thread_id == existing.thread_id
            && (same Option_Str-discrete input.turn_id existing.turn_id
                && (input.agent_id == existing.agent_id
                    && (input.time == existing.time
                        && (same Option_Str-discrete input.causation_id existing.causation_id
                            && (input.kind == existing.kind
                                && same Value-discrete input.payload existing.payload)))))))
