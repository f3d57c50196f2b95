-- ===== src/Ledger/Repeats.antt =====
-- A batch that was appended, appended again.
use yeu_xharness.Base.{
  suc, true, not, ◌≡◌, refl, ap, ◌∙◌, subst, inl, inr, List, [], ◌∷◌, Option, none, some, Str,
  str_ord, nat_ord, ◌==◌, arith, length, map, Bool-cases,
}
use yeu_xharness.Base.Set
use yeu_xharness.Base.Results.{ok, bind-eq_ok, ok-injective, require-eq_ok}
use yeu_xharness.Ledger.Types.{LedgerEvent, NewLedgerEvent}
use yeu_xharness.Ledger.Store.{Ledger, Row, get_event_by_id, new_event_matches, transact}
use yeu_xharness.Ledger.Append.{
  look_up, existing_count, replay_batch, append_each, append_all, append_counted, append_batch,
  append_batch_transaction, start,
}
use yeu_xharness.Ledger.Serde.{Serde}
use yeu_xharness.Ledger.Writes.{start-IsCurrent}
use yeu_xharness.Ledger.Committed.{transact-eq_ok}
use yeu_xharness.Ledger.Journal.{Write, perform_all, perform_all-Develops}
use yeu_xharness.Ledger.Stored.{
  AreKeptInputs, AreStored, Grows-AreStored, ℕ_same_refl, append_each-stores,
}

module _ (serde : Serde) where
  -- One step of the replay of a batch.
  replay_one :
      (i : NewLedgerEvent) (inputs : List NewLedgerEvent) (found : Option LedgerEvent)
      (rest : List (Option LedgerEvent)) (events : List LedgerEvent)
      → replay_batch (i ∷ inputs) (found ∷ rest) ≡ ok events
      → (e : LedgerEvent) × (later : List LedgerEvent) × (found ≡ some e)
        × (new_event_matches i e ≡ true)
        × (replay_batch inputs rest ≡ ok later)
        × (e ∷ later ≡ events)
  unfolding replay_batch
  replay_one i inputs none rest events r = ground arith
  replay_one i inputs (some e) rest events r =
      let (matches, r1) = require-eq_ok (new_event_matches i e) _ _ r in
      let (later, replayed, r2) = bind-eq_ok (replay_batch inputs rest) _ _ r1 in
      (e, later, refl, matches, replayed, ok-injective (e ∷ later) events r2)

  -- What a batch replays is what the table has.
  replay_batch-stores :
      (rows : List Row) (inputs : List NewLedgerEvent) (seen : List Str)
      (existing : List (Option LedgerEvent)) (events : List LedgerEvent)
      → look_up serde rows seen inputs ≡ ok existing
      → replay_batch inputs existing ≡ ok events
      → AreStored serde rows inputs events
  unfolding look_up replay_batch
  replay_batch-stores rows [] seen existing events h r =
      subst (AreStored serde rows []) (ok-injective _ _ r) tt
  replay_batch-stores rows (i ∷ inputs) seen existing events h r =
      let (new, h1) = require-eq_ok (not (Set.contains i.event_id seen)) _ _ h in
      let (found, read, h2) = bind-eq_ok (get_event_by_id serde i.event_id rows) _ _ h1 in
      let (rest, looked, h3) =
        bind-eq_ok (look_up serde rows (Set.insert i.event_id seen) inputs) _ _ h2 in
      let (e, later, given, matches, replayed, same_events) =
        replay_one i inputs found rest events (rw (ok-injective (found ∷ rest) existing h3) r) in
      subst (AreStored serde rows (i ∷ inputs)) same_events (
        read ∙ ap (λ f. ok f) given,
        matches,
        replay_batch-stores rows inputs (Set.insert i.event_id seen) rest later looked replayed,
      )

  -- The first loop of the batch, once its inputs are stored.
  look_up-stored :
      (rows later : List Row) (inputs : List NewLedgerEvent) (seen : List Str)
      (existing : List (Option LedgerEvent)) (events : List LedgerEvent)
      → look_up serde rows seen inputs ≡ ok existing
      → AreStored serde later inputs events
      → look_up serde later seen inputs ≡ ok (map some events)
  unfolding look_up
  look_up-stored rows later [] seen existing [] h s = refl
  look_up-stored rows later [] seen existing (e ∷ events) h s = absurd s
  look_up-stored rows later (i ∷ inputs) seen existing [] h s = absurd s
  look_up-stored rows later (i ∷ inputs) seen existing (e ∷ events) h (found, matches, s) =
      let (new, h1) = require-eq_ok (not (Set.contains i.event_id seen)) _ _ h in
      let (before, read, h2) = bind-eq_ok (get_event_by_id serde i.event_id rows) _ _ h1 in
      let (rest, looked, h3) =
        bind-eq_ok (look_up serde rows (Set.insert i.event_id seen) inputs) _ _ h2 in
      rw
        (
          new,
          found,
          look_up-stored rows later inputs (Set.insert i.event_id seen) rest events looked s,
        )
        refl

  all_stored :
      (rows : List Row) (inputs : List NewLedgerEvent) (events : List LedgerEvent)
      → AreStored serde rows inputs events
      → (existing_count (map some events) ≡ length inputs)
        × (replay_batch inputs (map some events) ≡ ok events)
  unfolding existing_count replay_batch
  all_stored rows [] [] s = (refl, refl)
  all_stored rows [] (e ∷ events) s = absurd s
  all_stored rows (i ∷ inputs) [] s = absurd s
  all_stored rows (i ∷ inputs) (e ∷ events) (found, matches, s) =
      let (count, replayed) = all_stored rows inputs events s in
      (ap (λ n. suc n) count, rw (matches, replayed) refl)

  -- A batch that succeeded: its inputs are stored, and are distinct.
  batch-stores :
      (l : Ledger) (inputs : List NewLedgerEvent) (l' : Ledger) (events : List LedgerEvent)
      → AreKeptInputs serde inputs
      → append_batch_transaction serde l inputs ≡ ok (l', events)
      → AreStored serde l'.rows inputs events
        × ((existing : List (Option LedgerEvent)) × (look_up serde l.rows [] inputs ≡ ok existing))
  unfolding append_batch_transaction append_counted append_all
  batch-stores l [] l' events k h = ground arith
  batch-stores l (i ∷ inputs) l' events k h =
      let (existing, looked, h1) = bind-eq_ok (look_up serde l.rows [] (i ∷ inputs)) _ _ h in
      (
        elim (Bool-cases (existing_count existing == length (i ∷ inputs))) [
          | inl every ↦
              let (replayed, r, h2) =
                bind-eq_ok (replay_batch (i ∷ inputs) existing) (λ replayed. ok (l, replayed))
                  (l', events) (rw every at h1) in
              subst (λ p. AreStored serde p.0.rows (i ∷ inputs) p.1)
                (ok-injective (l, replayed) (l', events) h2)
                (replay_batch-stores l.rows (i ∷ inputs) [] existing replayed looked r)
          | inr missing ↦ elim (Bool-cases (existing_count existing == 0)) [
            | inl all_new ↦
                let added : append_all serde l (i ∷ inputs) ≡ ok (l', events) = ground arith in
                let ((last, later), looped, h2) =
                  bind-eq_ok (append_each serde (start l (i ∷ inputs)) (i ∷ inputs)) _ _ added in
                subst (λ p. AreStored serde p.0.rows (i ∷ inputs) p.1) (ok-injective _ _ h2)
                  (append_each-stores serde (start l (i ∷ inputs)) (i ∷ inputs) last later
                    (start-IsCurrent l (i ∷ inputs)) k looped)
            | inr partial ↦ absurd (ground arith)
          ]
        ],
        (existing, looked),
      )

  -- Once a batch was appended whose versions, times and payloads are read back as they were written,
  -- and whatever calls follow: appending the same batch again succeeds,
  -- returns the same events, with the same sequence numbers, and leaves the ledger as it is.
  pub append_batch_again :
      (l : Ledger) (inputs : List NewLedgerEvent) (l' : Ledger) (events : List LedgerEvent)
      (writes : List Write)
      → AreKeptInputs serde inputs
      → append_batch serde l inputs ≡ (l', ok events)
      → append_batch serde (perform_all serde l' writes) inputs
        ≡ (perform_all serde l' writes, ok events)
  unfolding append_batch append_batch_transaction append_counted transact
  append_batch_again l [] l' events writes k h = ground arith
  append_batch_again l (i ∷ inputs) l' events writes k h =
      let (stored, (existing, looked)) =
        batch-stores l (i ∷ inputs) l' events k (transact-eq_ok l _ l' events h) in
      let later = perform_all serde l' writes in
      let kept =
        Grows-AreStored serde (i ∷ inputs) events (perform_all-Develops serde l' writes).0 stored in
      let (count, replayed) = all_stored later.rows (i ∷ inputs) events kept in
      rw
        (
          look_up-stored l.rows later.rows (i ∷ inputs) [] existing events looked kept,
          count,
          ℕ_same_refl (length (i ∷ inputs)),
          replayed,
        )
        refl
