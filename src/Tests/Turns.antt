-- ===== src/Tests/Turns.antt =====
-- A turn under concrete actions.
use yeu_xharness.Base.{true, false, ◌≡◌, refl, List, [], ◌∷◌, none, some, bytes}
use yeu_xharness.Protocol.Domain.{Turn, TurnState}
use yeu_xharness.Protocol.Ids.{DateTime}
use yeu_xharness.Turn.Machine.{
  TurnAction, begin_context, context_built, model_streaming, tools_proposed, approval_granted,
  scheduled, execution_started, interrupt, cancellation_finished, AgentTurnMachine, apply,
}
use yeu_xharness.Turn.Graph.{IsConsistent}
use yeu_xharness.Turn.Traces.{
  run, run-IsConsistent, run-terminal, is_ending, cancelling_sticks, interrupt_cancels,
  authorized_after, executing_authorized,
}

abbrev turn : Turn
turn = record {
  id = 5;
  thread_id = 1;
  agent_id = bytes "main";
  state = TurnState.accepted;
  started_at = 10;
  ended_at = none;
  failure = none;
}

abbrev machine : AgentTurnMachine
machine = record { turn = turn; steering = [] }

abbrev steps : List (TurnAction × DateTime)
steps =
    (begin_context, 11)
    ∷ (context_built, 12)
    ∷ (model_streaming, 13)
    ∷ (tools_proposed, 14)
    ∷ (approval_granted, 15)
    ∷ (scheduled, 16)
    ∷ (execution_started, 17)
    ∷ []

abbrev cancelling : AgentTurnMachine
cancelling = record machine { turn = record turn { state = TurnState.cancelling } }

abbrev ended : AgentTurnMachine
ended = record machine { turn = record turn { state = TurnState.completed; ended_at = some 20 } }

run-IsConsistent_example : IsConsistent (run machine steps).turn
run-IsConsistent_example = run-IsConsistent machine steps (record { ended = refl; reasoned = refl })

run-terminal_example : run ended steps ≡ ended
run-terminal_example = run-terminal ended steps refl

cancelling_sticks_example : is_ending (run cancelling steps).turn.state ≡ true
cancelling_sticks_example = cancelling_sticks cancelling steps refl

interrupt_cancels_example :
    (run machine ((interrupt, 11) ∷ (cancellation_finished, 12) ∷ [])).turn.state
    ≡ TurnState.cancelled
interrupt_cancels_example = interrupt_cancels machine 11 12 refl

executing_authorized_example : authorized_after false machine steps ≡ true
unfolding run apply
executing_authorized_example = executing_authorized machine steps refl refl
