-- ===== src/Ledger/Stored.antt =====
-- Events that are stored, and the inputs that they match.
use yeu_xharness.Base.{
  ℕ, Bool, true, ◌&&◌, ◌≡◌, refl, subst, List, [], ◌∷◌, Option, none, some, Str, str_ord, nat_ord,
  ◌==◌, ==_iff, arith, same,
}
use yeu_xharness.Base.Map.{get}
use yeu_xharness.Base.Results.{ok, bind-eq_ok, ok-injective}
use yeu_xharness.Ledger.Types.{LedgerEvent, NewLedgerEvent, Value-discrete, Option_Str-discrete}
use yeu_xharness.Ledger.Serde.{Serde}
use yeu_xharness.Ledger.Store.{
  Row, find_event, row_to_event, read_optional, get_event_by_id, insert_event, next_sqlite_sequence,
  new_event_matches,
}
use yeu_xharness.Ledger.Append.{
  sequenced, thread_scope, global_scope, append_after, append_each, Cursor,
}
use yeu_xharness.Ledger.Growth.{Grows, stays, adds, insert_event-eq_ok}
use yeu_xharness.Ledger.Writes.{IsCurrent, append_after-Extends, append_each-Extends}

-- A stored row stays stored.
Grows-find_event :
    {rows later : List Row} (id : Str) (e : LedgerEvent)
    → Grows rows later
    → find_event id rows ≡ some e
    → find_event id later ≡ some e
unfolding find_event
Grows-find_event id e stays found = found
Grows-find_event id e (adds r grown next) found =
    ground (arith, Grows-find_event id e grown found, next.fresh, ==_iff r.event.event_id id)

-- The version, the time and the payload of an input are read back as they were written.
abbrev pub IsKeptInput : Serde → NewLedgerEvent → Type 0
IsKeptInput serde i =
    (serde.reread_version i.schema_version ≡ ok i.schema_version)
    × (serde.reread_time i.time ≡ ok i.time)
    × (serde.reread_json i.payload ≡ ok i.payload)

abbrev pub AreKeptInputs : Serde → List NewLedgerEvent → Type 0
AreKeptInputs serde [] = Unit
AreKeptInputs serde (i ∷ inputs) = IsKeptInput serde i × AreKeptInputs serde inputs

same_refl : {A : Type 0} (d : Discrete A) (a : A) → same d a a ≡ true
same_refl d a = ground arith

==_refl : (a : Str) → (a == a) ≡ true
==_refl a = ground (arith, ==_iff a a)

pub ℕ_same_refl : (n : ℕ) → (n == n) ≡ true
ℕ_same_refl n = ground (arith, ==_iff n n)

-- Tests that pass, together.
both : (a b : Bool) → a ≡ true → b ≡ true → (a && b) ≡ true
both a b p q = ground arith

-- An event matches the input that it was made of.
new_event_matches-sequenced :
    (i : NewLedgerEvent) (seq : ℕ) → new_event_matches i (sequenced i seq) ≡ true
unfolding new_event_matches Value-discrete Option_Str-discrete
new_event_matches-sequenced i seq =
    both _ _ (both _ _ (ℕ_same_refl i.schema_version.major) (ℕ_same_refl i.schema_version.minor)) (
      both _ _ (==_refl i.event_id) (
        both _ _ (==_refl i.thread_id) (
          both _ _ (same_refl Option_Str-discrete i.turn_id) (
            both _ _ (==_refl i.agent_id) (
              both _ _ (ℕ_same_refl i.time) (
                both _ _ (same_refl Option_Str-discrete i.causation_id)
                  (both _ _ (==_refl i.kind) (same_refl Value-discrete i.payload))))))))

module _ (serde : Serde) where
  reads_later :
      {rows later : List Row} (id : Str) (e : LedgerEvent) (found : Option LedgerEvent)
      → Grows rows later
      → find_event id rows ≡ found
      → read_optional serde found ≡ ok (some e)
      → get_event_by_id serde id later ≡ ok (some e)
  unfolding get_event_by_id
  reads_later id e none g h r = ground arith
  reads_later id e (some raw) g h r = rw (Grows-find_event id raw g h) r

  -- An event that is read is read later.
  Grows-get_event_by_id :
      {rows later : List Row} (id : Str) (e : LedgerEvent)
      → Grows rows later
      → get_event_by_id serde id rows ≡ ok (some e)
      → get_event_by_id serde id later ≡ ok (some e)
  unfolding get_event_by_id
  Grows-get_event_by_id {rows} id e g found = reads_later id e (find_event id rows) g refl found

  -- Every input is stored, and is read as this event, which matches it.
  abbrev pub AreStored : List Row → List NewLedgerEvent → List LedgerEvent → Type 0
  AreStored rows [] [] = Unit
  AreStored rows (i ∷ inputs) (e ∷ events) =
      (get_event_by_id serde i.event_id rows ≡ ok (some e))
      × (new_event_matches i e ≡ true)
      × AreStored rows inputs events
  AreStored rows _ _ = ⊥

  pub Grows-AreStored :
      {rows later : List Row} (inputs : List NewLedgerEvent) (events : List LedgerEvent)
      → Grows rows later
      → AreStored rows inputs events
      → AreStored later inputs events
  Grows-AreStored [] [] g s = tt
  Grows-AreStored [] (e ∷ events) g s = s
  Grows-AreStored (i ∷ inputs) [] g s = s
  Grows-AreStored (i ∷ inputs) (e ∷ events) g (found, matches, s) =
      (Grows-get_event_by_id i.event_id e g found, matches, Grows-AreStored inputs events g s)

  append_after-stores :
      (c : Cursor) (i : NewLedgerEvent) (o : Option ℕ) (c' : Cursor) (e : LedgerEvent)
      → IsKeptInput serde i
      → append_after serde c i o ≡ ok (c', e)
      → (get_event_by_id serde i.event_id c'.ledger.rows ≡ ok (some e))
        × (new_event_matches i e ≡ true)
  unfolding append_after get_event_by_id find_event row_to_event
  append_after-stores c i none c' e k h = ground arith
  append_after-stores c i (some last) c' e (version, time, payload) h =
      let (seq, n, h1) = bind-eq_ok (next_sqlite_sequence last (thread_scope i.thread_id)) _ _ h in
      let (order, o, h2) = bind-eq_ok (next_sqlite_sequence c.append_order global_scope) _ _ h1 in
      let (l, inserted, h3) =
        bind-eq_ok (insert_event serde c.ledger (sequenced i seq) order) _ _ h2 in
      let (added, fresh, seq_fits, order_fits) =
        insert_event-eq_ok serde c.ledger (sequenced i seq) order l inserted in
      subst
        (λ r.
          (get_event_by_id serde i.event_id r.0.ledger.rows ≡ ok (some r.1))
          × (new_event_matches i r.1 ≡ true))
        (ok-injective _ _ h3)
        (
          rw (added, ==_refl i.event_id, version, time, payload) refl,
          new_event_matches-sequenced i seq,
        )

  pub append_each-stores :
      (c : Cursor) (inputs : List NewLedgerEvent) (c' : Cursor) (events : List LedgerEvent)
      → IsCurrent c
      → AreKeptInputs serde inputs
      → append_each serde c inputs ≡ ok (c', events)
      → AreStored c'.ledger.rows inputs events
  unfolding append_each
  append_each-stores c [] c' events w k h =
      subst (λ r. AreStored r.0.ledger.rows [] r.1) (ok-injective _ _ h) tt
  append_each-stores c (i ∷ inputs) c' events w (k, ks) h =
      let ((next, event), first, h1) =
        bind-eq_ok (append_after serde c i (get i.thread_id c.last_seq_by_thread)) _ _ h in
      let ((last, later), rest, h2) = bind-eq_ok (append_each serde next inputs) _ _ h1 in
      let (found, matches) = append_after-stores c i _ next event k first in
      let (grown, w') = append_after-Extends serde c i _ next event w refl first in
      let (grown', receipts) = append_each-Extends serde next inputs last later w' rest in
      subst (λ r. AreStored r.0.ledger.rows (i ∷ inputs) r.1) (ok-injective _ _ h2)
        (
          Grows-get_event_by_id i.event_id event grown' found,
          matches,
          append_each-stores next inputs last later w' ks rest,
        )
