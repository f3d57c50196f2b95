-- ===== src/Projection/InvocationHistory.antt =====
-- Invocations over the events of a log.
use yeu_xharness.Base.{
  true, ◌≡◌, refl, ◌∙◌, subst, inl, inr, List, [], Option, some, Str, arith, Bool-cases, nat_ord,
  ◌==◌, ==_iff, if◌then◌else◌,
}
use yeu_xharness.Base.Map.{Map, get, insert, get-insert, get-nil}
use yeu_xharness.Base.Results.{Result, ok}
use yeu_xharness.Protocol.Ids.{InvocationId}
use yeu_xharness.Protocol.Tool.{
  EffectSet, InvocationState, ReconciliationEvidence, ReconciliationOutcome, outcome_state,
}
use yeu_xharness.Protocol.Event.{EventEnvelope}
use yeu_xharness.Invocation.Machine.{
  can_transition_invocation_with_idempotency, can_reconcile_invocation,
}
use yeu_xharness.Projection.State.{Projection, ProjectedInvocation, empty}
use yeu_xharness.Projection.Apply.{replay}
use yeu_xharness.Projection.Accepted.{Accepted, replay_inv}
use yeu_xharness.Projection.InvocationChange.{
  InvocationChange, kept, proposed, moved_on, settled, accepted-InvocationChange,
}

-- The digest that is stored is the one of the effects, and the idempotency is theirs.
abbrev pub IsHonest : (EffectSet → Result Str Str) → ProjectedInvocation → Type 0
IsHonest d i = (i.idempotency ≡ i.effects.idempotency) × (d i.effects ≡ ok i.effect_digest)

-- The invocation keeps what was proposed, and its state stays, takes a legal transition or is
-- reconciled.
pub data Develops (i : ProjectedInvocation) : ProjectedInvocation → Type 0 where
  unchanged : {j : ProjectedInvocation} → j ≡ i → Develops i j
  moves :
      {j : ProjectedInvocation} (to : InvocationState) (reason : Option Str)
      → can_transition_invocation_with_idempotency i.state to i.idempotency ≡ true
      → j ≡ record i { state = to; reason = reason }
      → Develops i j
  settles :
      {j : ProjectedInvocation} (outcome : ReconciliationOutcome)
      (evidence : ReconciliationEvidence)
      → can_reconcile_invocation i.state outcome ≡ true
      → j ≡ record i {
        state = outcome_state outcome;
        reason = some evidence.summary;
        reconciliation = some evidence;
      }
      → Develops i j

inserted-Develops :
    (before : Map InvocationId ProjectedInvocation) (x id : InvocationId)
    (i k j : ProjectedInvocation)
    → get id before ≡ some k
    → Develops k j
    → get x before ≡ some i
    → (h : ProjectedInvocation) × (get x (insert id j before) ≡ some h) × Develops i h
inserted-Develops before x id i k j found evolves g = elim (Bool-cases (x == id)) [
  | inl hit ↦
      (j, get-insert x id j before ∙ rw hit, subst (λ u. Develops u j) (same_value hit) evolves)
  | inr miss ↦ (i, get-insert x id j before ∙ rw miss g, unchanged refl)
]
  where
    same_value : (x == id) ≡ true → k ≡ i
    same_value hit = ground (arith, ==_iff x id)

module _ (d : EffectSet → Result Str Str) where
  change-Develops :
      (before after : Map InvocationId ProjectedInvocation) (x : InvocationId)
      (i : ProjectedInvocation)
      → InvocationChange d before after
      → get x before ≡ some i
      → (j : ProjectedInvocation) × (get x after ≡ some j) × Develops i j
  change-Develops before after x i (kept e) g = (i, rw e g, unchanged refl)
  change-Develops before after x i (proposed n fresh initial declared digested e) g =
      (i, rw e (get-insert x n.invocation_id n before ∙ other), unchanged refl)
    where
      other : (if x == n.invocation_id then some n else get x before) ≡ some i
      other = ground (arith, ==_iff x n.invocation_id)
  change-Develops before after x i (moved_on id k to reason found legal e) g = rw e (
      inserted-Develops before x id i k (record k { state = to; reason = reason }) found
        (moves to reason legal refl) g)
  change-Develops before after x i (settled id k outcome evidence found legal e) g = rw e (
      inserted-Develops before x id i k
        (record k {
          state = outcome_state outcome;
          reason = some evidence.summary;
          reconciliation = some evidence;
        })
        found (settles outcome evidence legal refl) g)

  -- An accepted event keeps every invocation with all that was proposed; its state stays, takes a
  -- transition that its idempotency allows, or is reconciled from `unknown`.
  pub Accepted-Develops :
      (p : Projection) (e : EventEnvelope) (q : Projection) (x : InvocationId)
      (i : ProjectedInvocation)
      → Accepted d p e q
      → get x p.invocations ≡ some i
      → (j : ProjectedInvocation) × (get x q.invocations ≡ some j) × Develops i j
  Accepted-Develops p e q x i h g =
      change-Develops p.invocations q.invocations x i (accepted-InvocationChange d p e q h) g

  abbrev AllHonest : Map InvocationId ProjectedInvocation → Type 0
  AllHonest entries =
      (x : InvocationId) (i : ProjectedInvocation) → get x entries ≡ some i → IsHonest d i

  insert-AllHonest :
      (entries : Map InvocationId ProjectedInvocation) (id : InvocationId) (j : ProjectedInvocation)
      → AllHonest entries
      → IsHonest d j
      → AllHonest (insert id j entries)
  insert-AllHonest entries id j all_honest new x i g = elim (Bool-cases (x == id)) [
    | inl hit ↦ subst (IsHonest d) (stored hit) new
    | inr miss ↦ all_honest x i (ground (arith, get-insert x id j entries))
  ]
    where
      stored : (x == id) ≡ true → j ≡ i
      stored hit = ground (arith, get-insert x id j entries)

  change-AllHonest :
      (before after : Map InvocationId ProjectedInvocation)
      → InvocationChange d before after
      → AllHonest before
      → AllHonest after
  change-AllHonest before after (kept e) honest = rw e honest
  change-AllHonest before after (proposed n fresh initial declared digested e) honest =
      rw e (insert-AllHonest before n.invocation_id n honest (declared, digested))
  change-AllHonest before after (moved_on id k to reason found legal e) honest = rw e (
      insert-AllHonest before id (record k { state = to; reason = reason }) honest
        (honest id k found))
  change-AllHonest before after (settled id k outcome evidence found legal e) honest = rw e (
      insert-AllHonest before id
        (record k {
          state = outcome_state outcome;
          reason = some evidence.summary;
          reconciliation = some evidence;
        })
        honest (honest id k found))

  no_entry : (x : InvocationId) (i : ProjectedInvocation) → get x [] ≡ some i → IsHonest d i
  no_entry x i h = absurd (cc (get-nil x, h))

  replay-AllHonest :
      (events : List EventEnvelope) (q : Projection)
      → replay d events ≡ ok q
      → AllHonest q.invocations
  unfolding replay
  replay-AllHonest events q h =
      replay_inv d (λ p. AllHonest p.invocations)
        (λ p e r accepted honest.
          change-AllHonest p.invocations r.invocations (accepted-InvocationChange d p e r accepted)
            honest)
        empty events q (λ x i g. no_entry x i g) h

  -- After any successful replay every invocation has the idempotency of its effects and a digest
  -- that is the digest of its effects.
  pub invocation_honest :
      (events : List EventEnvelope) (q : Projection) (x : InvocationId) (i : ProjectedInvocation)
      → replay d events ≡ ok q
      → get x q.invocations ≡ some i
      → (i.idempotency ≡ i.effects.idempotency) × (d i.effects ≡ ok i.effect_digest)
  invocation_honest events q x i h g = replay-AllHonest events q h x i g
