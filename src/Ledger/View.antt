-- ===== src/Ledger/View.antt =====
-- The untyped projection of a ledger: threads with their turns and their other events.
use yeu_xharness.Base.{
  ℕ, Bool, true, false, ◌&&◌, List, [], ◌∷◌, ◌++◌, Option, none, some, Str, str_ord, bytes, ◌==◌,
  ◌≡◌, refl, arith, any, same, if◌then◌else◌,
}
use yeu_xharness.Base.Map.{Map, get, insert}
use yeu_xharness.Base.Results.{ok, ◌>>=◌}
use yeu_xharness.Protocol.Json.{Value, member, as_str}
use yeu_xharness.Ledger.Types.{LedgerEvent, Option_Str-discrete}
use yeu_xharness.Ledger.Store.{Ledger, Outcome}
use yeu_xharness.Ledger.Read.{replay, all_events, read_all}
use yeu_xharness.Ledger.Serde.{Serde}
use yeu_xharness.Ledger.Journal.{Write, written}
use yeu_xharness.Ledger.Threads.{history, replay_complete}

pub record ProjectionTurn : Type 0 where
  pub turn_id : Str
  pub status : Str
  pub started_seq : ℕ
  pub finished_seq : Option ℕ

pub record ProjectionItem : Type 0 where
  pub seq : ℕ
  pub turn_id : Option Str
  pub kind : Str
  pub payload : Value

pub record ProjectionThread : Type 0 where
  pub thread_id : Str
  pub last_seq : ℕ
  pub archived : Bool
  pub active_turn_id : Option Str
  pub turns : Map Str ProjectionTurn
  pub items : List ProjectionItem

pub record LedgerProjection : Type 0 where
  pub threads : Map Str ProjectionThread

unfoldable pub new_thread : Str → ProjectionThread
new_thread thread_id = record {
  thread_id = thread_id;
  last_seq = 0;
  archived = false;
  active_turn_id = none;
  turns = [];
  items = [];
}

-- `get(key).and_then(Value::as_str)`
abbrev text_at : Option Value → Option Str
text_at none = none
text_at (some v) = as_str v

unfoldable pub payload_id : Value → Option Str
payload_id payload = text_at (member (bytes "turn_id") payload)

abbrev or_else : Option Str → Option Str → Option Str
or_else none other = other
or_else (some s) other = some s

-- The turn that an event is about.
unfoldable pub turn_of : LedgerEvent → Option Str
unfolding payload_id
turn_of e = or_else e.turn_id (payload_id e.payload)

abbrev is_finished : Str → Bool
is_finished status =
    any (λ s. s == status) (bytes "completed" ∷ bytes "failed" ∷ bytes "cancelled" ∷ [])

abbrev or_unknown : Option Str → Str
or_unknown none = bytes "unknown"
or_unknown (some s) = s

unfoldable pub start_turn : ProjectionThread → LedgerEvent → Option Str → ProjectionThread
start_turn t e none = t
start_turn t e (some id) = record t {
  active_turn_id = some id;
  turns =
      insert id
        (record { turn_id = id; status = bytes "active"; started_seq = e.seq; finished_seq = none })
        t.turns;
}

-- The new status of a turn.
abbrev restate : ProjectionTurn → (status : Str) → (seq : ℕ) → ProjectionTurn
restate turn status seq = record turn {
  status = status;
  finished_seq = if is_finished status then some seq else turn.finished_seq;
}

abbrev update_turn : Map Str ProjectionTurn → (id status : Str) → (seq : ℕ) → Map Str ProjectionTurn
update_turn turns id status seq = elim (get id turns) [
  | none ↦ turns
  | some turn ↦ insert id (restate turn status seq) turns
]

-- A status that is given and ends the turn.
abbrev ends : Option Str → Bool
ends none = false
ends (some status) = is_finished status

unfoldable pub change_turn : ProjectionThread → LedgerEvent → Option Str → ProjectionThread
unfolding Option_Str-discrete
change_turn t e none = t
change_turn t e (some id) =
    let to = text_at (member (bytes "to") e.payload) in
    record t {
      turns = update_turn t.turns id (or_unknown to) e.seq;
      active_turn_id =
          if ends to && same Option_Str-discrete t.active_turn_id (some id)
          then none
          else t.active_turn_id;
    }

-- The arms of the `match` on the kind.
unfoldable pub apply_kind : ProjectionThread → LedgerEvent → ProjectionThread
unfolding start_turn change_turn turn_of
apply_kind t e =
    if e.kind == bytes "thread/archived"
    then record t { archived = true }
    else if e.kind == bytes "thread/resumed"
    then record t { archived = false }
    else if e.kind == bytes "turn/started"
    then start_turn t e (turn_of e)
    else if e.kind == bytes "turn/state_changed"
    then change_turn t e (turn_of e)
    else record t {
      items =
          t.items
          ++ (record { seq = e.seq; turn_id = e.turn_id; kind = e.kind; payload = e.payload } ∷ []);
    }

unfoldable pub apply_thread : ProjectionThread → LedgerEvent → ProjectionThread
unfolding apply_kind
apply_thread t e = apply_kind (record t { last_seq = e.seq }) e

unfoldable pub apply_threads : ProjectionThread → List LedgerEvent → ProjectionThread
apply_threads t [] = t
apply_threads t (e ∷ events) = apply_threads (apply_thread t e) events

abbrev or_new : Str → Option ProjectionThread → ProjectionThread
or_new id none = new_thread id
or_new id (some t) = t

unfoldable pub apply : LedgerProjection → LedgerEvent → LedgerProjection
apply p e = record {
  threads =
      insert e.thread_id (apply_thread (or_new e.thread_id (get e.thread_id p.threads)) e)
        p.threads;
}

unfoldable pub apply_all : LedgerProjection → List LedgerEvent → LedgerProjection
apply_all p [] = p
apply_all p (e ∷ events) = apply_all (apply p e) events

unfoldable pub project_thread : Serde → Ledger → Str → Outcome ProjectionThread
project_thread serde l thread =
    replay serde l thread 0 >>= (λ events. ok (apply_threads (new_thread thread) events))

unfoldable pub project_all : Serde → Ledger → Outcome LedgerProjection
project_all serde l =
    all_events serde l >>= (λ events. ok (apply_all (record { threads = [] }) events))

module _ (serde : Serde) where
  -- After any calls on a new ledger, the projection of a thread is that of its events as they are read
  -- back, in the order in which they were stored, or the first error of reading them.
  pub project_thread-history :
      (writes : List Write) (thread : Str)
      → project_thread serde (written serde writes) thread ≡ (
          read_all serde (history thread (written serde writes).rows)
          >>= (λ events. ok (apply_threads (new_thread thread) events)))
  unfolding project_thread
  project_thread-history writes thread =
      let (numbered, replayed, paged) =
        replay_complete serde writes thread 0 0 (omega arith) (omega arith) in
      rw replayed refl
