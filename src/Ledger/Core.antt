-- ===== src/Ledger/Core.antt =====
-- The core projection of a ledger that the event store filled.
use yeu_xharness.Base.{
  ℕ, true, false, ◌≡◌, refl, sym, ap, subst, List, [], ◌∷◌, ◌++◌, arith, ◌∙◌, all, map, length,
  nat_ord, str_ord, and_parts, append-nil, append_assoc, Option, none, some,
}
use yeu_xharness.Base.Results.{ok, err, ◌>>◌, bind-eq_ok, ok-injective, seq-eq_ok, ◌>>=◌}
use yeu_xharness.Protocol.Event.{EventEnvelope, accepts}
use yeu_xharness.Projection.Apply.{protocol_version}
use yeu_xharness.Ledger.Types.{LedgerEvent}
use yeu_xharness.Ledger.Store.{
  row_to_event, get_event_by_id, Outcome, Ledger, Row, empty_ledger, max_append_order, transact,
}
use yeu_xharness.Ledger.Append.{import_onto, import_body, import_with_duplicate_policy}
use yeu_xharness.Ledger.Read.{read_all, order_by, all_events}
use yeu_xharness.Ledger.Serde.{Serde}
use yeu_xharness.Ledger.Committed.{transact-committed}
use yeu_xharness.Ledger.Growth.{insert_event-eq_ok, IsWellFormed, Grows-IsWellFormed}
use yeu_xharness.Ledger.Writes.{import_body-Extends, import_new-inserts}
use yeu_xharness.Ledger.Numbered.{IsNumbered, IsNumbered-snoc, place-last, length-snoc}
use yeu_xharness.Ledger.Envelope.{
  ledger_event, event_envelope, event_envelopes, store_append, store_row, replay_core, project_core,
}
use yeu_xharness.Ledger.Roundtrip.{IsFaithful, event_envelope-ledger_event}

-- The rows in the order in which they were stored.
unfoldable pub stored_order : List Row → List Row
stored_order [] = []
stored_order (r ∷ rows) = stored_order rows ++ (r ∷ [])

-- The numbers of the table count its rows.
pub order-IsNumbered :
    (rows : List Row)
    → IsWellFormed rows
    → (max_append_order rows ≡ length (stored_order rows))
      × IsNumbered (λ (r : Row). r.append_order) 1 (stored_order rows)
unfolding stored_order max_append_order
order-IsNumbered [] w = (refl, tt)
order-IsNumbered (r ∷ rows) (n, w) =
    let (count, numbered) = order-IsNumbered rows w in
    (
      ground (arith, length-snoc (stored_order rows) r, n.next_order),
      IsNumbered-snoc (λ (s : Row). s.append_order) 1 (stored_order rows) r numbered
          (omega (arith, n.next_order, count)),
    )

pub order_by-stored_order :
    (rows : List Row)
    → IsWellFormed rows
    → order_by (λ (r : Row). r.append_order) rows ≡ stored_order rows
unfolding stored_order order_by
order_by-stored_order [] w = refl
order_by-stored_order (r ∷ rows) (n, w) =
    let (count, numbered) = order-IsNumbered rows w in
    rw (order_by-stored_order rows w) (
      place-last (λ (s : Row). s.append_order) 1 (stored_order rows) r numbered
        (omega (arith, n.next_order, count)))

-- An import that refuses duplicates adds its event.
import_onto-adds :
    (serde : Serde) (l : Ledger) (event : LedgerEvent) (found : Option LedgerEvent) (l' : Ledger)
    → import_onto serde l event false found ≡ ok (l', tt)
    → (order : ℕ) × (l'.rows ≡ record { append_order = order; event = event } ∷ l.rows)
import_onto-adds serde l event (some existing) l' h = ground arith
import_onto-adds serde l event none l' h =
    let (order, inserted, s, o) = import_new-inserts serde l event l' h in
    let (e, fresh, seq_fits, order_fits) = insert_event-eq_ok serde l event order l' inserted in
    (order, ap (λ (k : Ledger). k.rows) e)

pub import_body-adds :
    (serde : Serde) (l : Ledger) (event : LedgerEvent) (l' : Ledger)
    → import_body serde l event false ≡ ok (l', tt)
    → (order : ℕ) × (l'.rows ≡ record { append_order = order; event = event } ∷ l.rows)
unfolding import_body
import_body-adds serde l event l' h =
    let (found, read, h1) = bind-eq_ok (get_event_by_id serde event.event_id l.rows) _ _ h in
    import_onto-adds serde l event found l' h1

map_event-snoc :
    (rows : List Row) (r : Row)
    → map (λ (s : Row). s.event) (rows ++ (r ∷ []))
      ≡ map (λ (s : Row). s.event) rows ++ (r.event ∷ [])
map_event-snoc [] r = refl
map_event-snoc (s ∷ rows) r = ap (λ events. s.event ∷ events) (map_event-snoc rows r)

read_all-snoc :
    (serde : Serde) (rows events : List LedgerEvent) (row event : LedgerEvent)
    → read_all serde rows ≡ ok events
    → row_to_event serde row ≡ ok event
    → read_all serde (rows ++ (row ∷ [])) ≡ ok (events ++ (event ∷ []))
unfolding read_all
read_all-snoc serde [] events row event h r =
    rw r (ap (λ es. ok (es ++ (event ∷ []))) (ok-injective [] events h))
read_all-snoc serde (first ∷ rows) events row event h r =
    let (f, one, h1) = bind-eq_ok (row_to_event serde first) _ _ h in
    let (rest, more, h2) = bind-eq_ok (read_all serde rows) _ _ h1 in
    rw (one, read_all-snoc serde rows rest row event more r)
      (ap (λ es. ok (es ++ (event ∷ []))) (ok-injective (f ∷ rest) events h2))

-- A new row ends the list of all events.
pub all_events-adds :
    (serde : Serde) (l l' : Ledger) (r : Row) (events : List LedgerEvent) (event : LedgerEvent)
    → IsWellFormed l.rows
    → IsWellFormed l'.rows
    → l'.rows ≡ r ∷ l.rows
    → all_events serde l ≡ ok events
    → row_to_event serde r.event ≡ ok event
    → all_events serde l' ≡ ok (events ++ (event ∷ []))
unfolding all_events stored_order
all_events-adds serde l l' r events event w w' e before read =
    let rows = rw (order_by-stored_order l.rows w) at before in
    rw (order_by-stored_order l'.rows w', e, map_event-snoc (stored_order l.rows) r)
      (read_all-snoc serde (map (λ (s : Row). s.event) (stored_order l.rows)) events r.event event
        rows read)

-- A row that converts is read back as it was written.
abbrev pub IsKeptRow : Serde → Outcome LedgerEvent → Type 0
IsKeptRow serde (ok row) = row_to_event serde row ≡ ok row
IsKeptRow serde (err x) = Unit

module _ (serde : Serde) where
  -- Envelopes appended one after the other, up to the first failure.
  unfoldable pub store_all : Ledger → List EventEnvelope → Outcome Ledger
  unfolding store_append
  store_all l [] = ok l
  store_all l (e ∷ events) =
      let (next, result) = store_append serde l e in result >> store_all next events

  pub event_envelopes-snoc :
      (rows : List LedgerEvent) (events : List EventEnvelope) (row : LedgerEvent)
      (e : EventEnvelope)
      → event_envelopes serde rows ≡ ok events
      → event_envelope serde row ≡ ok e
      → event_envelopes serde (rows ++ (row ∷ [])) ≡ ok (events ++ (e ∷ []))
  unfolding event_envelopes
  event_envelopes-snoc [] events row e h r =
      rw r (ap (λ es. ok (es ++ (e ∷ []))) (ok-injective [] events h))
  event_envelopes-snoc (first ∷ rows) events row e h r =
      let (f, one, h1) = bind-eq_ok (event_envelope serde first) _ _ h in
      let (rest, more, h2) = bind-eq_ok (event_envelopes serde rows) _ _ h1 in
      rw (one, event_envelopes-snoc rows rest row e more r)
        (ap (λ es. ok (es ++ (e ∷ []))) (ok-injective (f ∷ rest) events h2))

  -- The rows of the envelopes are read back as they were written.
  abbrev pub AreKept : List EventEnvelope → Type 0
  AreKept [] = Unit
  AreKept (e ∷ events) = IsKeptRow serde (ledger_event serde e) × AreKept events

  -- What the store holds: a well-formed table whose events are these envelopes, in this order.
  record Holds (l : Ledger) (events : List EventEnvelope) : Type 0 where
    well_formed : IsWellFormed l.rows
    rows : List LedgerEvent
    all_read : all_events serde l ≡ ok rows
    converted : event_envelopes serde rows ≡ ok events

  Holds-import :
      (l : Ledger) (events : List EventEnvelope) (e : EventEnvelope) (row : LedgerEvent)
      (l' : Ledger)
      → Holds l events
      → row_to_event serde row ≡ ok row
      → event_envelope serde row ≡ ok e
      → import_body serde l row false ≡ ok (l', tt)
      → Holds l' (events ++ (e ∷ []))
  Holds-import l events e row l' held kept read h =
      let (order, added) = import_body-adds serde l row l' h in
      let w = Grows-IsWellFormed (import_body-Extends serde l row false l' h).0 held.well_formed in
      record {
        well_formed = w;
        rows = held.rows ++ (row ∷ []);
        all_read =
            all_events-adds serde l l' (record { append_order = order; event = row }) held.rows row
              held.well_formed w added held.all_read kept;
        converted = event_envelopes-snoc held.rows events row e held.converted read;
      }

  Holds-store_row :
      (l : Ledger) (events : List EventEnvelope) (e : EventEnvelope) (row : Outcome LedgerEvent)
      → IsFaithful serde
      → accepts protocol_version e.schema_version ≡ true
      → Holds l events
      → IsKeptRow serde row
      → ledger_event serde e ≡ row
      → (store_row serde l row).1 ≡ ok tt
      → Holds (store_row serde l row).0 (events ++ (e ∷ []))
  unfolding import_with_duplicate_policy
  Holds-store_row l events e (err x) faithful accepted held kept h s = ground arith
  Holds-store_row l events e (ok row) faithful accepted held kept h s =
      Holds-import l events e row (transact l (import_body serde l row false)).0 held kept
        (event_envelope-ledger_event serde faithful e row accepted h)
        (transact-committed l (import_body serde l row false) tt s)

  Holds-store_all :
      (l : Ledger) (events more : List EventEnvelope) (l' : Ledger)
      → IsFaithful serde
      → all (λ e. accepts protocol_version e.schema_version) more ≡ true
      → AreKept more
      → Holds l events
      → store_all l more ≡ ok l'
      → Holds l' (events ++ more)
  unfolding store_all store_append
  Holds-store_all l events [] l' faithful accepted kept held h =
      subst (λ k. Holds k (events ++ [])) (ok-injective l l' h)
        (subst (Holds l) (sym (append-nil events)) held)
  Holds-store_all l events (e ∷ more) l' faithful accepted (k, kept) held h =
      let (stored, rest) = seq-eq_ok (store_append serde l e).1 _ h in
      let (here, later) = and_parts (accepts protocol_version e.schema_version) _ accepted in
      let next =
        Holds-store_row l events e (ledger_event serde e) faithful here held k refl stored in
      subst (Holds l') (append_assoc events (e ∷ []) more) (
        Holds-store_all (store_append serde l e).0 (events ++ (e ∷ [])) more l' faithful later kept
          next rest)

  -- If serde and uuid are faithful, and envelopes of accepted protocol versions, whose rows are read
  -- back as they were written, were appended to a new ledger through the event store, one after the
  -- other and each with success, then the projection of the ledger is the core's replay of those
  -- envelopes: the same projection, or the same error.
  pub project_core-store_all :
      (events : List EventEnvelope) (l : Ledger)
      → IsFaithful serde
      → all (λ e. accepts protocol_version e.schema_version) events ≡ true
      → AreKept events
      → store_all empty_ledger events ≡ ok l
      → project_core serde l ≡ replay_core serde (ok events)
  unfolding project_core all_events order_by event_envelopes read_all
  project_core-store_all events l faithful accepted kept h =
      let held =
        Holds-store_all empty_ledger [] events l faithful accepted kept
          (record { well_formed = tt; rows = []; all_read = refl; converted = refl }) h in
      ap (λ m. replay_core serde (m >>= event_envelopes serde)) held.all_read
      ∙ ap (replay_core serde) held.converted
