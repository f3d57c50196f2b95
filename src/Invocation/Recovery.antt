-- ===== src/Invocation/Recovery.antt =====
-- What the disposition of an interrupted invocation promises.
use yeu_xharness.Base.{Bool, true, false, ◌≡◌, refl, List, [], ◌∷◌, arith}
use yeu_xharness.Protocol.Tool.{InvocationState, is_terminal}
use yeu_xharness.Invocation.Machine.{
  InvocationMachine, RecoveryDisposition, is_retryable, transition, reconcile, recovery_disposition,
}
use yeu_xharness.Invocation.Traces.{Request, move, settle, step, run, executions, starts}

step_terminal : (m : InvocationMachine) (r : Request) → is_terminal m.state ≡ true → step m r ≡ m
unfolding transition reconcile
step_terminal m (move to) h = ground arith
step_terminal m (settle outcome) h = ground arith

run_terminal :
    (m : InvocationMachine) (rs : List Request) → is_terminal m.state ≡ true → run m rs ≡ m
unfolding run
run_terminal m [] h = refl
run_terminal m (r ∷ rest) h = rw (step_terminal m r h) (run_terminal m rest h)

-- The execution was started, and may not be started again.
abbrev is_spent : InvocationState → Bool
is_spent InvocationState.proposed = false
is_spent InvocationState.approved = false
is_spent InvocationState.prepared = false
is_spent _ = true

step_spent :
    (m : InvocationMachine) (r : Request)
    → is_spent m.state ≡ true
    → is_retryable m.idempotency ≡ false
    → (is_spent (step m r).state ≡ true)
      × (is_retryable (step m r).idempotency ≡ false)
      × (starts m.state (step m r).state ≡ 0)
unfolding transition reconcile
step_spent m (move to) h k = ground arith
step_spent m (settle outcome) h k = ground arith

executions_spent :
    (m : InvocationMachine) (rs : List Request)
    → is_spent m.state ≡ true
    → is_retryable m.idempotency ≡ false
    → executions m rs ≡ 0
unfolding executions
executions_spent m [] h k = refl
executions_spent m (r ∷ rest) h k =
    let (spent, kept, idle) = step_spent m r h k in
    omega (arith, idle, executions_spent (step m r) rest spent kept)

spent_of_reconcile_only :
    (m : InvocationMachine)
    → recovery_disposition m ≡ RecoveryDisposition.reconcile_only
    → (is_spent m.state ≡ true) × (is_retryable m.idempotency ≡ false)
unfolding recovery_disposition
spent_of_reconcile_only m h = ground arith

terminal_of_disposition :
    (m : InvocationMachine)
    → recovery_disposition m ≡ RecoveryDisposition.terminal
    → is_terminal m.state ≡ true
unfolding recovery_disposition
terminal_of_disposition m h = ground arith

retry_executes :
    (m : InvocationMachine)
    → recovery_disposition m ≡ RecoveryDisposition.retry_with_same_idempotency_key
    → executions m (move InvocationState.unknown ∷ move InvocationState.started ∷ []) ≡ 1
unfolding recovery_disposition executions transition
retry_executes m h = ground arith

resume_executes :
    (m : InvocationMachine)
    → recovery_disposition m ≡ RecoveryDisposition.resume_preparation
    → executions m (
        move InvocationState.approved
        ∷ move InvocationState.prepared
        ∷ move InvocationState.started
        ∷ [])
      ≡ 1
unfolding recovery_disposition executions transition
resume_executes m h = ground arith

-- What each disposition promises of the machine.
abbrev pub Keeps : InvocationMachine → RecoveryDisposition → Type 0
Keeps m RecoveryDisposition.terminal = (rs : List Request) → run m rs ≡ m
Keeps m RecoveryDisposition.reconcile_only = (rs : List Request) → executions m rs ≡ 0
Keeps m RecoveryDisposition.retry_with_same_idempotency_key =
    executions m (move InvocationState.unknown ∷ move InvocationState.started ∷ []) ≡ 1
Keeps m RecoveryDisposition.resume_preparation =
    executions m (
      move InvocationState.approved
      ∷ move InvocationState.prepared
      ∷ move InvocationState.started
      ∷ [])
    ≡ 1

Keeps-of :
    (m : InvocationMachine) (r : RecoveryDisposition) → recovery_disposition m ≡ r → Keeps m r
Keeps-of m RecoveryDisposition.terminal h = λ rs. run_terminal m rs (terminal_of_disposition m h)
Keeps-of m RecoveryDisposition.reconcile_only h =
    let (spent, fixed) = spent_of_reconcile_only m h in λ rs. executions_spent m rs spent fixed
Keeps-of m RecoveryDisposition.retry_with_same_idempotency_key h = retry_executes m h
Keeps-of m RecoveryDisposition.resume_preparation h = resume_executes m h

-- A machine at `terminal` never changes again; one to be reconciled only is never executed again,
-- whatever is requested; one to be retried is executed once more by way of `unknown`; and one to be
-- resumed is executed by the three moves that are left of its preparation.
pub recovery_disposition_sound : (m : InvocationMachine) → Keeps m (recovery_disposition m)
recovery_disposition_sound m = Keeps-of m (recovery_disposition m) refl

abbrev pub is_unresolved : InvocationState → Bool
is_unresolved InvocationState.unknown = true
is_unresolved InvocationState.completed = true
is_unresolved InvocationState.failed = true
is_unresolved _ = false

step_unresolved :
    (m : InvocationMachine) (r : Request)
    → is_unresolved m.state ≡ true
    → is_retryable m.idempotency ≡ false
    → (is_unresolved (step m r).state ≡ true) × (is_retryable (step m r).idempotency ≡ false)
unfolding transition reconcile
step_unresolved m (move to) h k = ground arith
step_unresolved m (settle outcome) h k = ground arith

run_unresolved :
    (m : InvocationMachine) (rs : List Request)
    → is_unresolved m.state ≡ true
    → is_retryable m.idempotency ≡ false
    → is_unresolved (run m rs).state ≡ true
unfolding run
run_unresolved m [] h k = h
run_unresolved m (r ∷ rest) h k =
    let (held, kept) = step_unresolved m r h k in run_unresolved (step m r) rest held kept

-- An invocation that is not known to be idempotent and whose outcome is unknown is, whatever is
-- requested, unknown, completed or failed from then on: it is neither started again nor reported as
-- cancelled.
pub unknown_never_cancelled :
    (m : InvocationMachine) (rs : List Request)
    → m.state ≡ InvocationState.unknown
    → is_retryable m.idempotency ≡ false
    → is_unresolved (run m rs).state ≡ true
unknown_never_cancelled m rs h k = run_unresolved m rs (ground arith) k
