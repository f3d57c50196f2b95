-- ===== src/Projection/Executions.antt =====
-- How often a log starts an invocation.
use yeu_xharness.Base.{
  ℕ, ◌+◌, ◌≤◌, true, false, ◌≡◌, refl, sym, ◌∙◌, ap, inl, inr, List, [], ◌∷◌, Option, none, some,
  Str, arith, Bool-cases, Option-cases, nat_ord, ◌==◌, ==_iff, if◌then◌else◌,
}
use yeu_xharness.Base.Map.{get, get-insert}
use yeu_xharness.Base.Results.{Result, ok}
use yeu_xharness.Protocol.Ids.{InvocationId}
use yeu_xharness.Protocol.Tool.{EffectSet, InvocationState}
use yeu_xharness.Protocol.Event.{Event, EventEnvelope, invocation_state_changed}
use yeu_xharness.Invocation.Machine.{
  can_transition_invocation_with_idempotency, can_reconcile_invocation, is_retryable,
}
use yeu_xharness.Invocation.Traces.{has_started}
use yeu_xharness.Projection.State.{Projection, ProjectedInvocation, empty}
use yeu_xharness.Projection.Apply.{apply, apply_event, record_event, replay, replay_from}
use yeu_xharness.Projection.Accepted.{Accepted, apply-parts, replay-parts, replay_inv}
use yeu_xharness.Projection.TurnChange.{settle-ok}
use yeu_xharness.Projection.Invocations.{change_invocation}
use yeu_xharness.Projection.InvocationChange.{change-facts, change-none}
use yeu_xharness.Projection.InvocationHistory.{
  Develops, unchanged, moves, settles, Accepted-Develops,
}

abbrev when_started : InvocationState → ℕ
when_started InvocationState.started = 1
when_started _ = 0

-- Whether an event moves the invocation to `started`.
abbrev pub start_of : InvocationId → Event → ℕ
start_of x (invocation_state_changed id from to reason) = if id == x then when_started to else 0
start_of x _ = 0

-- How many events of the log move the invocation to `started`.
unfoldable pub starts_of : InvocationId → List EventEnvelope → ℕ
starts_of x [] = 0
starts_of x (e ∷ events) = start_of x e.event + starts_of x events

abbrev pot : Option ProjectedInvocation → ℕ
pot none = 0
pot (some i) = has_started i.state

Develops-idempotency : (i j : ProjectedInvocation) → Develops i j → j.idempotency ≡ i.idempotency
Develops-idempotency i j (unchanged e) = ap (λ u. u.idempotency) e
Develops-idempotency i j (moves to reason legal e) = ap (λ u. u.idempotency) e
Develops-idempotency i j (settles outcome evidence legal e) = ap (λ u. u.idempotency) e

Develops-started :
    (i j : ProjectedInvocation)
    → is_retryable i.idempotency ≡ false
    → Develops i j
    → has_started i.state ≤ has_started j.state
unfolding can_transition_invocation_with_idempotency can_reconcile_invocation
Develops-started i j h (unchanged e) = rw e (omega arith)
Develops-started i j h (moves to reason legal e) = rw e (ground arith)
Develops-started i j h (settles outcome evidence legal e) = rw e (ground arith)

moved_start :
    (i j : ProjectedInvocation) (to : InvocationState) (reason : Option Str)
    → is_retryable i.idempotency ≡ false
    → can_transition_invocation_with_idempotency i.state to i.idempotency ≡ true
    → j ≡ record i { state = to; reason = reason }
    → when_started to + has_started i.state ≤ has_started j.state
unfolding can_transition_invocation_with_idempotency
moved_start i j to reason h legal e = rw e (ground arith)

module _ (d : EffectSet → Result Str Str) where
  absent_start :
      (p : Projection) (e : EventEnvelope) (ev : Event) (r : Projection) (x : InvocationId)
      → apply_event d p e ev ≡ (r, ok tt)
      → get x p.invocations ≡ none
      → start_of x ev ≡ 0
  unfolding apply_event
  absent_start p e (invocation_state_changed id from to reason) r x h g =
      elim (Bool-cases (id == x)) [
        | inl here ↦ absurd (
            change-none p e id from to reason r (ground (arith, ==_iff id x))
              (settle-ok p r (change_invocation p e id from to reason) h))
        | inr there ↦ rw there refl
      ]
  absent_start p e ev r x h g = refl

  present_start :
      (p : Projection) (e : EventEnvelope) (ev : Event) (r : Projection) (x : InvocationId)
      (i j : ProjectedInvocation)
      → apply_event d p e ev ≡ (r, ok tt)
      → get x p.invocations ≡ some i
      → get x r.invocations ≡ some j
      → is_retryable i.idempotency ≡ false
      → Develops i j
      → start_of x ev + has_started i.state ≤ has_started j.state
  unfolding apply_event
  present_start p e (invocation_state_changed id from to reason) r x i j h g g' once evolves =
      elim (Bool-cases (id == x)) [
        | inl here ↦
            let (legal, entries) =
              change-facts p e id from to reason i r (ground (arith, ==_iff id x))
                (settle-ok p r (change_invocation p e id from to reason) h) in
            rw here (
              moved_start i j to reason once legal (
                ground (
                  arith,
                  entries,
                  ==_iff id x,
                  get-insert x id (record i { state = to; reason = reason }) p.invocations,
                )))
        | inr there ↦ rw there (omega (arith, Develops-started i j once evolves))
      ]
  present_start p e ev r x i j h g g' once evolves =
      omega (arith, Develops-started i j once evolves)

  idempotency_kept :
      (p : Projection) (events : List EventEnvelope) (q : Projection) (x : InvocationId)
      (i : ProjectedInvocation)
      → get x p.invocations ≡ some i
      → replay_from d p events ≡ ok q
      → (j : ProjectedInvocation) × (get x q.invocations ≡ some j) × (j.idempotency ≡ i.idempotency)
  idempotency_kept p events q x i g h =
      replay_inv d
        (λ s.
          (j : ProjectedInvocation) × (get x s.invocations ≡ some j)
          × (j.idempotency ≡ i.idempotency))
        (λ s e s' accepted (j, found, same_kind).
          let (k, found', evolves) = Accepted-Develops d s e s' x j accepted found in
          (k, found', Develops-idempotency j k evolves ∙ same_kind))
        p events q (i, g, refl) h

  Accepted-start :
      (p : Projection) (e : EventEnvelope) (q : Projection) (x : InvocationId)
      (i j : ProjectedInvocation)
      → Accepted d p e q
      → get x p.invocations ≡ some i
      → get x q.invocations ≡ some j
      → is_retryable i.idempotency ≡ false
      → Develops i j
      → start_of x e.event + has_started i.state ≤ has_started j.state
  unfolding record_event
  Accepted-start p e q x i j h g g' once evolves =
      let (passed, done, last) = apply-parts d p e q h in
      present_start p e e.event (apply_event d p e e.event).0 x i j done g
        (sym (ap (λ s. get x s.invocations) last) ∙ g') once evolves

  starts_bounded :
      (p : Projection) (events : List EventEnvelope) (q : Projection) (x : InvocationId)
      (last : ProjectedInvocation)
      → replay_from d p events ≡ ok q
      → get x q.invocations ≡ some last
      → is_retryable last.idempotency ≡ false
      → starts_of x events + pot (get x p.invocations) ≤ 1
  unfolding starts_of
  starts_bounded p [] q x last h g once = ground arith
  starts_bounded p (e ∷ events) q x last h g once =
      let (first, rest) = replay-parts d p e events q h in
      let later = starts_bounded (apply d p e).0 events q x last rest g once in
      let (passed, done, recorded) = apply-parts d p e (apply d p e).0 first in
      elim (Option-cases (get x p.invocations)) [
        | inl absent ↦
            let none_now = absent_start p e e.event (apply_event d p e e.event).0 x done absent in
            rw absent (omega (arith, none_now, later))
        | inr (i, found) ↦
            let (j, found', evolves) = Accepted-Develops d p e (apply d p e).0 x i first found in
            let (k, found'', same_kind) = idempotency_kept p (e ∷ events) q x i found h in
            let once' : is_retryable i.idempotency ≡ false = cc in
            let now = Accepted-start p e (apply d p e).0 x i j first found found' once' evolves in
            rw found (omega (arith, now, rw found' at later))
      ]

  -- In a log that replays, at most one event moves an invocation to `started` whose idempotency, as
  -- projected at the end, allows no retry.
  pub starts_at_most_once :
      (events : List EventEnvelope) (q : Projection) (x : InvocationId) (last : ProjectedInvocation)
      → replay d events ≡ ok q
      → get x q.invocations ≡ some last
      → is_retryable last.idempotency ≡ false
      → starts_of x events ≤ 1
  unfolding replay
  starts_at_most_once events q x last h g once =
      omega (arith, starts_bounded empty events q x last h g once)
