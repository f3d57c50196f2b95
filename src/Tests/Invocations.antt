-- ===== src/Tests/Invocations.antt =====
-- An invocation under concrete requests.
use yeu_xharness.Base.{◌≤◌, true, ◌≡◌, refl, List, [], ◌∷◌}
use yeu_xharness.Protocol.Tool.{Idempotency, InvocationState, ReconciliationOutcome}
use yeu_xharness.Invocation.Machine.{InvocationMachine, proposed, recovery_disposition}
use yeu_xharness.Invocation.Traces.{Request, move, settle, run, executions, executed_at_most_once}
use yeu_xharness.Invocation.Recovery.{
  Keeps, recovery_disposition_sound, is_unresolved, unknown_never_cancelled,
}

abbrev requests : List Request
requests =
    move InvocationState.approved
    ∷ move InvocationState.prepared
    ∷ move InvocationState.started
    ∷ move InvocationState.unknown
    ∷ move InvocationState.started
    ∷ settle ReconciliationOutcome.completed
    ∷ []

abbrev lost : InvocationMachine
lost = record { id = 9; state = InvocationState.unknown; idempotency = Idempotency.non_idempotent }

executed_at_most_once_example : executions (proposed 9 Idempotency.non_idempotent) requests ≤ 1
executed_at_most_once_example = executed_at_most_once 9 Idempotency.non_idempotent requests refl

recovery_disposition_sound_example : Keeps lost (recovery_disposition lost)
recovery_disposition_sound_example = recovery_disposition_sound lost

unknown_never_cancelled_example : is_unresolved (run lost requests).state ≡ true
unknown_never_cancelled_example = unknown_never_cancelled lost requests refl refl
