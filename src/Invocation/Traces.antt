-- ===== src/Invocation/Traces.antt =====
-- An invocation under any sequence of requests, refused ones included.
use yeu_xharness.Base.{ℕ, ◌+◌, ◌≤◌, false, ◌≡◌, List, [], ◌∷◌, arith}
use yeu_xharness.Protocol.Tool.{Idempotency, InvocationState, ReconciliationOutcome}
use yeu_xharness.Protocol.Ids.{InvocationId}
use yeu_xharness.Invocation.Machine.{
  InvocationMachine, is_retryable, proposed, transition, reconcile,
}

-- What a caller may ask of the machine.
pub data Request : Type 0 where
  move : InvocationState → Request
  settle : ReconciliationOutcome → Request

abbrev pub step : InvocationMachine → Request → InvocationMachine
step m (move to) = (transition m to).0
step m (settle outcome) = (reconcile m outcome).0

unfoldable pub run : InvocationMachine → List Request → InvocationMachine
run m [] = m
run m (r ∷ rest) = run (step m r) rest

-- Whether a request starts the execution.
abbrev pub starts : InvocationState → InvocationState → ℕ
starts InvocationState.started after = 0
starts before InvocationState.started = 1
starts before after = 0

-- How often the execution is started over a run.
unfoldable pub executions : InvocationMachine → List Request → ℕ
executions m [] = 0
executions m (r ∷ rest) = starts m.state (step m r).state + executions (step m r) rest

abbrev pub has_started : InvocationState → ℕ
has_started InvocationState.proposed = 0
has_started InvocationState.approved = 0
has_started InvocationState.prepared = 0
has_started _ = 1

starts_once :
    (m : InvocationMachine) (r : Request)
    → is_retryable m.idempotency ≡ false
    → (starts m.state (step m r).state + has_started m.state ≤ has_started (step m r).state)
      × (is_retryable (step m r).idempotency ≡ false)
unfolding transition reconcile
starts_once m (move to) h = ground arith
starts_once m (settle outcome) h = ground arith

executions_bounded :
    (m : InvocationMachine) (rs : List Request)
    → is_retryable m.idempotency ≡ false
    → executions m rs + has_started m.state ≤ 1
unfolding executions
executions_bounded m [] h = ground arith
executions_bounded m (r ∷ rest) h =
    let (now, kept) = starts_once m r h in
    omega (arith, executions_bounded (step m r) rest kept, now)

-- An invocation that is not known to be idempotent is executed at most once, whatever is requested.
pub executed_at_most_once :
    (id : InvocationId) (i : Idempotency) (rs : List Request)
    → is_retryable i ≡ false
    → executions (proposed id i) rs ≤ 1
unfolding proposed
executed_at_most_once id i rs h = omega (arith, executions_bounded (proposed id i) rs h)
