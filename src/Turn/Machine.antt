-- ===== src/Turn/Machine.antt =====
-- `can_transition_turn` and `AgentTurnMachine`.
use yeu_xharness.Base.{
  ℕ, Bool, true, false, ◌||◌, Option, none, some, List, [], ◌∷◌, ◌++◌, Str, same, length,
  if◌then◌else◌,
}
use yeu_xharness.Base.Results.{Result, ok, err}
use yeu_xharness.Protocol.Ids.{DateTime}
use yeu_xharness.Protocol.Domain.{Turn, TurnState, TurnState-discrete, is_terminal}

pub data TurnAction : Type 0 where
  begin_context context_built model_accepted model_streaming tools_proposed : TurnAction
  approval_required approval_granted scheduled execution_started : TurnAction
  results_integrated : (continue_model : Bool) → TurnAction
  input_required input_received complete interrupt cancellation_finished : TurnAction
  fail : Str → TurnAction

pub data TurnError : Type 0 where
  invalid_transition : (from to : TurnState) → TurnError
  terminal_steering : TurnState → TurnError

-- The table of `can_transition_turn`.
unfoldable pub edge : TurnState → TurnState → Bool
edge TurnState.accepted TurnState.building_context = true
edge TurnState.building_context TurnState.requesting_model = true
edge TurnState.building_context TurnState.waiting_for_input = true
edge TurnState.requesting_model TurnState.streaming = true
edge TurnState.streaming TurnState.proposed_tools = true
edge TurnState.streaming TurnState.completed = true
edge TurnState.proposed_tools TurnState.waiting_for_approval = true
edge TurnState.proposed_tools TurnState.authorizing = true
edge TurnState.waiting_for_approval TurnState.authorizing = true
edge TurnState.authorizing TurnState.waiting_for_approval = true
edge TurnState.authorizing TurnState.scheduling = true
edge TurnState.scheduling TurnState.executing = true
edge TurnState.executing TurnState.integrating_results = true
edge TurnState.integrating_results TurnState.requesting_model = true
edge TurnState.integrating_results TurnState.completed = true
edge TurnState.integrating_results TurnState.waiting_for_input = true
edge TurnState.waiting_for_input TurnState.building_context = true
edge TurnState.cancelling TurnState.cancelled = true
edge _ _ = false

-- `matches!(to, Cancelling | Failed)`
abbrev pub is_stop : TurnState → Bool
is_stop TurnState.cancelling = true
is_stop TurnState.failed = true
is_stop _ = false

unfoldable pub can_transition_turn : TurnState → TurnState → Bool
unfolding edge TurnState-discrete
can_transition_turn from to =
    if same TurnState-discrete from to || is_terminal from
    then false
    else if is_stop to
    then true
    else edge from to

pub record AgentTurnMachine : Type 0 where
  pub turn : Turn
  pub steering : List Str

unfoldable pub new : Turn → AgentTurnMachine
new turn = record { turn = turn; steering = [] }

unfoldable pub pending_steering : AgentTurnMachine → ℕ
pending_steering m = length m.steering

-- A method that mutates the machine returns the new one with its result.
unfoldable pub steer : AgentTurnMachine → Str → AgentTurnMachine × Result TurnError (Unit {0})
steer m message =
    if is_terminal m.turn.state
    then (m, err (terminal_steering m.turn.state))
    else (record m { steering = m.steering ++ (message ∷ []) }, ok tt)

unfoldable pub take_steering : AgentTurnMachine → AgentTurnMachine × Option Str
take_steering m = elim m.steering [
  | [] ↦ (m, none)
  | message ∷ rest ↦ (record m { steering = rest }, some message)
]

abbrev pub target : TurnAction → TurnState
target begin_context = TurnState.building_context
target input_received = TurnState.building_context
target context_built = TurnState.requesting_model
target model_accepted = TurnState.requesting_model
target model_streaming = TurnState.streaming
target tools_proposed = TurnState.proposed_tools
target approval_required = TurnState.waiting_for_approval
target approval_granted = TurnState.authorizing
target scheduled = TurnState.scheduling
target execution_started = TurnState.executing
target (results_integrated true) = TurnState.requesting_model
target (results_integrated false) = TurnState.completed
target complete = TurnState.completed
target input_required = TurnState.waiting_for_input
target interrupt = TurnState.cancelling
target cancellation_finished = TurnState.cancelled
target (fail message) = TurnState.failed

abbrev pub failure_reason : TurnAction → Option Str
failure_reason (fail message) = some message
failure_reason _ = none

-- The turn in its new state: a failure keeps its reason, and a terminal state its time.
unfoldable pub moved : Turn → TurnState → DateTime → Option Str → Turn
unfolding TurnState-discrete
moved turn to at reason = record turn {
  state = to;
  failure = if same TurnState-discrete to TurnState.failed then reason else turn.failure;
  ended_at = if is_terminal to then some at else turn.ended_at;
}

unfoldable pub transition :
    AgentTurnMachine
    → TurnState
    → DateTime
    → Option Str
    → AgentTurnMachine × Result TurnError (Unit {0})
unfolding can_transition_turn moved
transition m to at reason =
    if can_transition_turn m.turn.state to
    then (record m { turn = moved m.turn to at reason }, ok tt)
    else (m, err (invalid_transition m.turn.state to))

abbrev pub and_state : TurnState → Result TurnError (Unit {0}) → Result TurnError TurnState
and_state to (ok _) = ok to
and_state to (err e) = err e

unfoldable pub apply :
    AgentTurnMachine → TurnAction → DateTime → AgentTurnMachine × Result TurnError TurnState
unfolding transition
apply m action at =
    let (m', outcome) = transition m (target action) at (failure_reason action) in
    (m', and_state (target action) outcome)
