-- ===== src/Projection/Accepted.antt =====
-- What an accepted event tells: its checks passed, its arm succeeded, and it was recorded.
use yeu_xharness.Base.{
  false, ◌≡◌, refl, sym, ap, subst, List, [], ◌∷◌, ◌++◌, Str, arith, nat_ord, ==_iff,
}
use yeu_xharness.Base.Set
use yeu_xharness.Base.Results.{Result, ok, err, ok-injective}
use yeu_xharness.Protocol.Tool.{EffectSet}
use yeu_xharness.Protocol.Event.{EventEnvelope}
use yeu_xharness.Projection.State.{Projection, ReplayError}
use yeu_xharness.Projection.Apply.{
  apply, apply_event, check_envelope, checked, recorded, record_event, replay_from, expected_seq,
}

fresh_of_check :
    (p : Projection) (e : EventEnvelope)
    → check_envelope p e ≡ ok tt
    → (Set.contains e.event_id p.seen_events ≡ false) × (e.seq ≡ expected_seq p e.thread_id)
unfolding check_envelope
fresh_of_check p e h = ground (arith, ==_iff e.seq (expected_seq p e.thread_id))

module _ (d : EffectSet → Result Str Str) where
  abbrev pub Accepted : Projection → EventEnvelope → Projection → Type 0
  Accepted p e q = apply d p e ≡ (q, ok tt)

  recorded-ok :
      (e : EventEnvelope) (r : Projection × Result ReplayError (Unit {0})) (q : Projection)
      → recorded e r ≡ (q, ok tt)
      → (r ≡ (r.0, ok tt)) × (q ≡ record_event r.0 e)
  recorded-ok e (r, ok done) q h = (refl, sym (ap (λ t. t.0) h))
  recorded-ok e (r, err x) q h = ground arith

  checked-ok :
      (p : Projection) (e : EventEnvelope) (c : Result ReplayError (Unit {0})) (q : Projection)
      → checked d p e c ≡ (q, ok tt)
      → (c ≡ ok tt) × (recorded e (apply_event d p e e.event) ≡ (q, ok tt))
  checked-ok p e (ok done) q h = (refl, h)
  checked-ok p e (err x) q h = ground arith

  -- The parts of an accepted event.
  pub apply-parts :
      (p : Projection) (e : EventEnvelope) (q : Projection)
      → Accepted p e q
      → (check_envelope p e ≡ ok tt)
        × (apply_event d p e e.event ≡ ((apply_event d p e e.event).0, ok tt))
        × (q ≡ record_event (apply_event d p e e.event).0 e)
  unfolding apply
  apply-parts p e q h =
      let (passed, rest) = checked-ok p e (check_envelope p e) q h in
      let (done, last) = recorded-ok e (apply_event d p e e.event) q rest in (passed, done, last)

  step_replay :
      (p : Projection) (e : EventEnvelope) (events : List EventEnvelope) (q : Projection)
      (o : Result ReplayError (Unit {0}))
      → (apply d p e).1 ≡ o
      → replay_from d p (e ∷ events) ≡ ok q
      → Accepted p e (apply d p e).0 × (replay_from d (apply d p e).0 events ≡ ok q)
  unfolding replay_from
  step_replay p e events q (ok done) s h = (λ i. ((apply d p e).0, s i), rw (s, replay_from) at h)
  step_replay p e events q (err x) s h = absurd (cc (rw (s, replay_from) at h))

  -- A replay that succeeds has accepted its first event and replayed the others.
  pub replay-parts :
      (p : Projection) (e : EventEnvelope) (events : List EventEnvelope) (q : Projection)
      → replay_from d p (e ∷ events) ≡ ok q
      → Accepted p e (apply d p e).0 × (replay_from d (apply d p e).0 events ≡ ok q)
  replay-parts p e events q h = step_replay p e events q (apply d p e).1 refl h

  -- The other way around, one event at a time.
  pub replay-Accepted :
      (p : Projection) (e : EventEnvelope) (events : List EventEnvelope) (q : Projection)
      → Accepted p e q
      → replay_from d p (e ∷ events) ≡ replay_from d q events
  unfolding replay_from
  replay-Accepted p e events q h = rw (ap (λ t. t.1) h, ap (λ t. t.0) h, replay_from) refl

  -- What every accepted event keeps, a successful replay keeps.
  pub replay_inv :
      (P : Projection → Type 0)
      → ((p : Projection) (e : EventEnvelope) (q : Projection) → Accepted p e q → P p → P q)
      → (p : Projection) (events : List EventEnvelope) (q : Projection) → P p
      → replay_from d p events ≡ ok q
      → P q
  unfolding replay_from
  replay_inv P keep p [] q start h = subst P (ok-injective p q h) start
  replay_inv P keep p (e ∷ events) q start h =
      let (first, rest) = replay-parts p e events q h in
      replay_inv P keep (apply d p e).0 events q (keep p e (apply d p e).0 first start) rest

  -- A replay of two parts replays the first and then the second.
  pub replay-append :
      (p : Projection) (xs ys : List EventEnvelope) (q : Projection)
      → replay_from d p (xs ++ ys) ≡ ok q
      → (r : Projection) × (replay_from d p xs ≡ ok r) × (replay_from d r ys ≡ ok q)
  unfolding replay_from
  replay-append p [] ys q h = (p, refl, h)
  replay-append p (e ∷ xs) ys q h =
      let (first, rest) = replay-parts p e (xs ++ ys) q h in
      let (r, left, right) = replay-append (apply d p e).0 xs ys q rest in
      (r, rw (ap (λ t. t.1) first, replay_from) left, right)

  -- The checks of an accepted event: a new id and the next number of its thread.
  pub Accepted-fresh :
      (p : Projection) (e : EventEnvelope) (q : Projection)
      → Accepted p e q
      → (Set.contains e.event_id p.seen_events ≡ false) × (e.seq ≡ expected_seq p e.thread_id)
  Accepted-fresh p e q h = fresh_of_check p e (apply-parts p e q h).0
