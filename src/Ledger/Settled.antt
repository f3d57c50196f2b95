-- ===== src/Ledger/Settled.antt =====
-- The state of an invocation after its outcome was appended.
use yeu_xharness.Base.{
  Bool, true, false, ◌≡◌, refl, ap, subst, List, [], ◌∷◌, ◌++◌, Option, some, Str, str_ord, bytes,
  nat_ord, ==_iff, arith, filter,
}
use yeu_xharness.Base.Blank.{is_blank}
use yeu_xharness.Base.Results.{ok, bind-eq_ok, ok-injective}
use yeu_xharness.Protocol.Ids.{InvocationId}
use yeu_xharness.Protocol.Json.{Value}
use yeu_xharness.Protocol.Domain.{Item}
use yeu_xharness.Protocol.Tool.{
  Idempotency, InvocationState, ReconciliationOutcome, ReconciliationEvidence, is_terminal,
  outcome_state,
}
use yeu_xharness.Protocol.Event.{
  Event, workspace_opened, workspace_trust_changed, thread_started, thread_forked, thread_archived,
  turn_started, turn_state_changed, turn_steered, item_added, model_requested, model_stream_event,
  invocation_proposed, invocation_state_changed, invocation_reconciled, job_created,
  job_state_changed, agent_spawned, agent_completed, runtime_diagnostic,
}
use yeu_xharness.Invocation.Machine.{
  can_transition_invocation, can_transition_invocation_with_idempotency, can_reconcile_invocation,
  is_retry,
}
use yeu_xharness.Ledger.Types.{LedgerEvent}
use yeu_xharness.Ledger.Errors
use yeu_xharness.Ledger.Errors.{LedgerError}
use yeu_xharness.Ledger.Serde.{Serde}
use yeu_xharness.Ledger.Outcomes.{or_fault, terminal_of, precondition_of, tool_result_of}
use yeu_xharness.Ledger.History.{Known, change, resolve, follow, follow_all, or_unknown}

-- The tags that serde documents for three variants: their kinds, in events that are read.
pub record IsTagged (serde : Serde) : Type 0 where
  pub change_tagged :
      (kind : Str) (payload : Value) (id : InvocationId) (from to : InvocationState)
      (reason : Option Str)
      → serde.decode_event kind payload ≡ ok (invocation_state_changed id from to reason)
      → kind ≡ bytes "tool/state_changed"
  pub reconciliation_tagged :
      (kind : Str) (payload : Value) (id : InvocationId) (outcome : ReconciliationOutcome)
      (evidence : ReconciliationEvidence)
      → serde.decode_event kind payload ≡ ok (invocation_reconciled id outcome evidence)
      → kind ≡ bytes "tool/reconciled"
  pub item_tagged :
      (kind : Str) (payload : Value) (item : Item)
      → serde.decode_event kind payload ≡ ok (item_added item)
      → kind ≡ bytes "item/added"

-- A retry does not end an invocation.
retry-ends_nothing : (from to : InvocationState) → is_terminal to ≡ true → is_retry from to ≡ false
retry-ends_nothing InvocationState.unknown InvocationState.started h = ground arith
retry-ends_nothing InvocationState.unknown InvocationState.proposed h = refl
retry-ends_nothing InvocationState.unknown InvocationState.approved h = refl
retry-ends_nothing InvocationState.unknown InvocationState.prepared h = refl
retry-ends_nothing InvocationState.unknown InvocationState.completed h = refl
retry-ends_nothing InvocationState.unknown InvocationState.failed h = refl
retry-ends_nothing InvocationState.unknown InvocationState.cancelled h = refl
retry-ends_nothing InvocationState.unknown InvocationState.unknown h = refl
retry-ends_nothing InvocationState.started to h = refl
retry-ends_nothing InvocationState.proposed to h = refl
retry-ends_nothing InvocationState.approved to h = refl
retry-ends_nothing InvocationState.prepared to h = refl
retry-ends_nothing InvocationState.completed to h = refl
retry-ends_nothing InvocationState.failed to h = refl
retry-ends_nothing InvocationState.cancelled to h = refl

-- So its end does not depend on the idempotency.
end-any_idempotency :
    (from to : InvocationState) (i : Idempotency)
    → is_terminal to ≡ true
    → can_transition_invocation from to ≡ true
    → can_transition_invocation_with_idempotency from to i ≡ true
unfolding can_transition_invocation
end-any_idempotency from to i e h = ground (arith, retry-ends_nothing from to e)

-- The events that may end an invocation.
pub data IsEnding : Event → Type 0 where
  changes :
      (id : InvocationId) (from to : InvocationState) (reason : Option Str)
      → IsEnding (invocation_state_changed id from to reason)
  reconciles :
      (id : InvocationId) (outcome : ReconciliationOutcome) (evidence : ReconciliationEvidence)
      → IsEnding (invocation_reconciled id outcome evidence)

pub filter-append :
    {A : Type 0} (p : A → Bool) (xs ys : List A) → filter p (xs ++ ys) ≡ filter p xs ++ filter p ys
filter-append p [] ys = refl
filter-append p (x ∷ xs) ys = ground (arith, filter-append p xs ys)

module _ (serde : Serde) where
  pub follow_all-append :
      (id : Str) (known : Known) (xs ys : List LedgerEvent) (next : Known)
      → follow_all serde id known xs ≡ ok next
      → follow_all serde id known (xs ++ ys) ≡ follow_all serde id next ys
  unfolding follow_all
  follow_all-append id known [] ys next h =
      ap (λ k. follow_all serde id k ys) (ok-injective known next h)
  follow_all-append id known (e ∷ xs) ys next h =
      let (payload, reread, h0) =
        bind-eq_ok (or_fault Errors.unreadable (serde.reread_json e.payload)) _ _ h in
      let (event, decoded, h1) =
        bind-eq_ok (or_fault Errors.invalid_event (serde.decode_event e.kind payload)) _ _ h0 in
      let (middle, followed, h2) = bind-eq_ok (follow serde id known event) _ _ h1 in
      rw (reread, decoded, followed) (follow_all-append id middle xs ys next h2)

  -- Only those events have a precondition.
  pub precondition_of-IsEnding :
      (event : Event) (precondition : InvocationId × InvocationState × InvocationState)
      → precondition_of serde event ≡ ok precondition
      → IsEnding event
  precondition_of-IsEnding (invocation_state_changed id from to reason) precondition p =
      changes id from to reason
  precondition_of-IsEnding (invocation_reconciled id outcome evidence) precondition p =
      reconciles id outcome evidence
  precondition_of-IsEnding (workspace_opened a) precondition p = absurd (ground arith)
  precondition_of-IsEnding (workspace_trust_changed a b) precondition p = absurd (ground arith)
  precondition_of-IsEnding (thread_started a) precondition p = absurd (ground arith)
  precondition_of-IsEnding (thread_forked a) precondition p = absurd (ground arith)
  precondition_of-IsEnding (thread_archived a) precondition p = absurd (ground arith)
  precondition_of-IsEnding (turn_started a) precondition p = absurd (ground arith)
  precondition_of-IsEnding (turn_state_changed a b c d) precondition p = absurd (ground arith)
  precondition_of-IsEnding (turn_steered a b) precondition p = absurd (ground arith)
  precondition_of-IsEnding (item_added a) precondition p = absurd (ground arith)
  precondition_of-IsEnding (model_requested a) precondition p = absurd (ground arith)
  precondition_of-IsEnding (model_stream_event a b) precondition p = absurd (ground arith)
  precondition_of-IsEnding (invocation_proposed a b c d f g i j) precondition p =
      absurd (ground arith)
  precondition_of-IsEnding (job_created a) precondition p = absurd (ground arith)
  precondition_of-IsEnding (job_state_changed a b c) precondition p = absurd (ground arith)
  precondition_of-IsEnding (agent_spawned a) precondition p = absurd (ground arith)
  precondition_of-IsEnding (agent_completed a) precondition p = absurd (ground arith)
  precondition_of-IsEnding (runtime_diagnostic a b c) precondition p = absurd (ground arith)

  -- A result is an item.
  pub tool_result_of-eq_ok :
      (event : Event) (item : Item) → tool_result_of serde event ≡ ok item → event ≡ item_added item
  unfolding tool_result_of
  tool_result_of-eq_ok (item_added given) item r = ground arith
  tool_result_of-eq_ok (workspace_opened a) item r = absurd (ground arith)
  tool_result_of-eq_ok (workspace_trust_changed a b) item r = absurd (ground arith)
  tool_result_of-eq_ok (thread_started a) item r = absurd (ground arith)
  tool_result_of-eq_ok (thread_forked a) item r = absurd (ground arith)
  tool_result_of-eq_ok (thread_archived a) item r = absurd (ground arith)
  tool_result_of-eq_ok (turn_started a) item r = absurd (ground arith)
  tool_result_of-eq_ok (turn_state_changed a b c d) item r = absurd (ground arith)
  tool_result_of-eq_ok (turn_steered a b) item r = absurd (ground arith)
  tool_result_of-eq_ok (model_requested a) item r = absurd (ground arith)
  tool_result_of-eq_ok (model_stream_event a b) item r = absurd (ground arith)
  tool_result_of-eq_ok (invocation_proposed a b c d f g i j) item r = absurd (ground arith)
  tool_result_of-eq_ok (job_created a) item r = absurd (ground arith)
  tool_result_of-eq_ok (job_state_changed a b c) item r = absurd (ground arith)
  tool_result_of-eq_ok (agent_spawned a) item r = absurd (ground arith)
  tool_result_of-eq_ok (agent_completed a) item r = absurd (ground arith)
  tool_result_of-eq_ok (runtime_diagnostic a b c) item r = absurd (ground arith)
  tool_result_of-eq_ok (invocation_state_changed a b c d) item r = absurd (ground arith)
  tool_result_of-eq_ok (invocation_reconciled a b c) item r = absurd (ground arith)

  change-ends :
      (known : Known) (from to : InvocationState)
      → is_terminal to ≡ true
      → can_transition_invocation from to ≡ true
      → known.state ≡ some from
      → change serde known from to ≡ ok (record known { state = some to })
  unfolding change
  change-ends known from to e c s =
      let legal = end-any_idempotency from to (or_unknown known.idempotency) e c in
      rw (s, legal) (ground arith)

  resolve-ends :
      (known : Known) (outcome : ReconciliationOutcome) (evidence : ReconciliationEvidence)
      → is_blank evidence.source ≡ false
      → is_blank evidence.summary ≡ false
      → known.state ≡ some InvocationState.unknown
      → resolve serde known outcome evidence
        ≡ ok (record known { state = some (outcome_state outcome) })
  unfolding resolve can_reconcile_invocation
  resolve-ends known ReconciliationOutcome.completed evidence b c s = rw (s, b, c) refl
  resolve-ends known ReconciliationOutcome.failed evidence b c s = rw (s, b, c) refl

  -- The terminal event takes the invocation to the state of the precondition.
  abbrev pub Ends : Known → Event → InvocationId × InvocationState × InvocationState → Type 0
  Ends known event (id, expected, final) =
      known.state ≡ some expected
      → (next : Known) × (follow serde (serde.uuid_text id) known event ≡ ok next)
        × (next.state ≡ some final)

  pub follow-terminal :
      (known : Known) (event : Event) (ended : InvocationId × InvocationState)
      (precondition : InvocationId × InvocationState × InvocationState)
      → IsEnding event
      → terminal_of serde event ≡ ok ended
      → precondition_of serde event ≡ ok precondition
      → Ends known event precondition
  unfolding terminal_of follow
  follow-terminal known _ ended precondition (changes id from to reason) t p =
      let terminal : is_terminal to ≡ true = ground arith in
      let legal : can_transition_invocation from to ≡ true = ground arith in
      let here : ok (id, from, to) ≡ ok precondition = rw terminal at p in
      subst (Ends known (invocation_state_changed id from to reason)) (ok-injective _ _ here) (λ s.
        (
          record known { state = some to },
          ground (
            arith,
            change-ends known from to terminal legal s,
            ==_iff (serde.uuid_text id) (serde.uuid_text id),
          ),
          refl,
        ))
  follow-terminal known _ ended precondition (reconciles id outcome evidence) t p =
      let sourced : is_blank evidence.source ≡ false = ground arith in
      let summed : is_blank evidence.summary ≡ false = ground arith in
      subst (Ends known (invocation_reconciled id outcome evidence)) (ok-injective _ _ p) (λ s. (
        record known { state = some (outcome_state outcome) },
        ground (
          arith,
          resolve-ends known outcome evidence sourced summed s,
          ==_iff (serde.uuid_text id) (serde.uuid_text id),
        ),
        refl,
      ))
