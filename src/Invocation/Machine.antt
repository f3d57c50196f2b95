-- ===== src/Invocation/Machine.antt =====
-- The transitions, `InvocationMachine` and its recovery.
use yeu_xharness.Base.{Bool, true, false, ◌&&◌, ◌||◌, same, if◌then◌else◌}
use yeu_xharness.Base.Results.{Result, ok, err}
use yeu_xharness.Protocol.Ids.{InvocationId}
use yeu_xharness.Protocol.Tool.{
  Idempotency, InvocationState, InvocationState-discrete, is_terminal, ReconciliationOutcome,
  outcome_state,
}

pub data RecoveryDisposition : Type 0 where
  resume_preparation retry_with_same_idempotency_key reconcile_only terminal : RecoveryDisposition

pub data InvocationError : Type 0 where
  invalid_transition : (from to : InvocationState) → InvocationError

-- The transitions that need no idempotency.
unfoldable pub ordinary : InvocationState → InvocationState → Bool
ordinary InvocationState.proposed InvocationState.approved = true
ordinary InvocationState.approved InvocationState.prepared = true
ordinary InvocationState.prepared InvocationState.started = true
ordinary InvocationState.started InvocationState.completed = true
ordinary InvocationState.started InvocationState.failed = true
ordinary InvocationState.started InvocationState.cancelled = true
ordinary InvocationState.started InvocationState.unknown = true
ordinary InvocationState.proposed InvocationState.failed = true
ordinary InvocationState.proposed InvocationState.cancelled = true
ordinary InvocationState.approved InvocationState.failed = true
ordinary InvocationState.approved InvocationState.cancelled = true
ordinary InvocationState.prepared InvocationState.failed = true
ordinary InvocationState.prepared InvocationState.cancelled = true
ordinary _ _ = false

-- `matches!(idempotency, Idempotent | IdempotentWithKey)`
abbrev pub is_retryable : Idempotency → Bool
is_retryable Idempotency.idempotent = true
is_retryable Idempotency.idempotent_with_key = true
is_retryable _ = false

abbrev pub is_retry : InvocationState → InvocationState → Bool
is_retry InvocationState.unknown InvocationState.started = true
is_retry _ _ = false

unfoldable pub can_transition_invocation_with_idempotency :
    InvocationState → InvocationState → Idempotency → Bool
unfolding ordinary InvocationState-discrete
can_transition_invocation_with_idempotency from to idempotency =
    if same InvocationState-discrete from to || is_terminal from
    then false
    else ordinary from to || (is_retry from to && is_retryable idempotency)

unfoldable pub can_transition_invocation : InvocationState → InvocationState → Bool
unfolding can_transition_invocation_with_idempotency
can_transition_invocation from to =
    can_transition_invocation_with_idempotency from to Idempotency.non_idempotent

-- The outcomes that the `matches!` lists are all that there are.
unfoldable pub can_reconcile_invocation : InvocationState → ReconciliationOutcome → Bool
can_reconcile_invocation InvocationState.unknown ReconciliationOutcome.completed = true
can_reconcile_invocation InvocationState.unknown ReconciliationOutcome.failed = true
can_reconcile_invocation _ _ = false

pub record InvocationMachine : Type 0 where
  pub id : InvocationId
  pub state : InvocationState
  pub idempotency : Idempotency

unfoldable pub proposed : InvocationId → Idempotency → InvocationMachine
proposed id idempotency = record {
  id = id;
  state = InvocationState.proposed;
  idempotency = idempotency;
}

unfoldable pub from_parts : InvocationId → InvocationState → Idempotency → InvocationMachine
from_parts id state idempotency = record { id = id; state = state; idempotency = idempotency }

unfoldable pub transition :
    InvocationMachine → InvocationState → InvocationMachine × Result InvocationError (Unit {0})
unfolding can_transition_invocation_with_idempotency
transition m to =
    if can_transition_invocation_with_idempotency m.state to m.idempotency
    then (record m { state = to }, ok tt)
    else (m, err (invalid_transition m.state to))

unfoldable pub reconcile :
    InvocationMachine
    → ReconciliationOutcome
    → InvocationMachine × Result InvocationError (Unit {0})
unfolding can_reconcile_invocation
reconcile m outcome =
    if can_reconcile_invocation m.state outcome
    then (record m { state = outcome_state outcome }, ok tt)
    else (m, err (invalid_transition m.state (outcome_state outcome)))

abbrev retry_or_reconcile : Bool → RecoveryDisposition
retry_or_reconcile true = RecoveryDisposition.retry_with_same_idempotency_key
retry_or_reconcile false = RecoveryDisposition.reconcile_only

abbrev pub disposition : InvocationState → Idempotency → RecoveryDisposition
disposition InvocationState.proposed i = RecoveryDisposition.resume_preparation
disposition InvocationState.approved i = RecoveryDisposition.resume_preparation
disposition InvocationState.prepared i = RecoveryDisposition.resume_preparation
disposition InvocationState.started i = retry_or_reconcile (is_retryable i)
disposition InvocationState.unknown i = retry_or_reconcile (is_retryable i)
disposition InvocationState.completed i = RecoveryDisposition.terminal
disposition InvocationState.failed i = RecoveryDisposition.terminal
disposition InvocationState.cancelled i = RecoveryDisposition.terminal

unfoldable pub recovery_disposition : InvocationMachine → RecoveryDisposition
recovery_disposition m = disposition m.state m.idempotency
