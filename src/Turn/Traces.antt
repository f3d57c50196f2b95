-- ===== src/Turn/Traces.antt =====
-- A turn under any sequence of actions, refused ones included.
use yeu_xharness.Base.{Bool, true, false, ◌≡◌, refl, inl, inr, List, [], ◌∷◌, arith}
use yeu_xharness.Protocol.Ids.{DateTime}
use yeu_xharness.Protocol.Domain.{TurnState, is_terminal}
use yeu_xharness.Turn.Machine.{
  AgentTurnMachine, TurnAction, can_transition_turn, target, moved, apply, failure_reason,
  interrupt, cancellation_finished,
}
use yeu_xharness.Turn.Graph.{
  terminal_stuck, apply-cases, apply-state, IsConsistent, moved-IsConsistent,
}

unfoldable pub run : AgentTurnMachine → List (TurnAction × DateTime) → AgentTurnMachine
run m [] = m
run m ((a, at) ∷ rest) = run (apply m a at).0 rest

-- A turn that has an end exactly when it is terminal, and a failure only when it failed, stays so
-- under every sequence of actions, refused ones included.
pub run-IsConsistent :
    (m : AgentTurnMachine) (steps : List (TurnAction × DateTime))
    → IsConsistent m.turn
    → IsConsistent (run m steps).turn
unfolding run
run-IsConsistent m [] c = c
run-IsConsistent m ((a, at) ∷ rest) c =
    run-IsConsistent (apply m a at).0 rest (elim (apply-cases m a at) [
      | inl (legal, e) ↦ rw e (moved-IsConsistent m.turn (target a) at (failure_reason a) legal c)
      | inr (refused, e) ↦ rw e c
    ])

-- A terminal turn, with its queue of messages, is left as it is by every sequence of actions.
pub run-terminal :
    (m : AgentTurnMachine) (steps : List (TurnAction × DateTime))
    → is_terminal m.turn.state ≡ true
    → run m steps ≡ m
unfolding run
run-terminal m [] h = refl
run-terminal m ((a, at) ∷ rest) h = elim (apply-cases m a at) [
  | inl (legal, e) ↦ cc (legal, terminal_stuck m.turn.state (target a) h)
  | inr (refused, e) ↦ rw e (run-terminal m rest h)
]

abbrev pub is_ending : TurnState → Bool
is_ending TurnState.cancelling = true
is_ending TurnState.cancelled = true
is_ending TurnState.failed = true
is_ending _ = false

ending_step :
    (from to : TurnState)
    → is_ending from ≡ true
    → can_transition_turn from to ≡ true
    → is_ending to ≡ true
unfolding can_transition_turn
ending_step from to h legal = ground arith

-- An interrupted turn is never completed: from `cancelling` on it is cancelling, cancelled or failed.
pub cancelling_sticks :
    (m : AgentTurnMachine) (steps : List (TurnAction × DateTime))
    → is_ending m.turn.state ≡ true
    → is_ending (run m steps).turn.state ≡ true
unfolding run
cancelling_sticks m [] h = h
cancelling_sticks m ((a, at) ∷ rest) h =
    cancelling_sticks (apply m a at).0 rest
      (ground (arith, apply-state m a at, ending_step m.turn.state (target a) h))

-- A turn that has not ended is cancelled by an interrupt and the end of the cancellation.
pub interrupt_cancels :
    (m : AgentTurnMachine) (at later : DateTime)
    → is_terminal m.turn.state ≡ false
    → (run m ((interrupt, at) ∷ (cancellation_finished, later) ∷ [])).turn.state
      ≡ TurnState.cancelled
unfolding run can_transition_turn
interrupt_cancels m at later h = ground (
  arith,
  apply-state m interrupt at,
  apply-state (apply m interrupt at).0 cancellation_finished later,
)

-- Whether the tools proposed last have been authorized, as the states show it.
abbrev pub authorized : TurnState → Bool → Bool
authorized TurnState.authorizing before = true
authorized TurnState.proposed_tools before = false
authorized _ before = before

-- The same over a run, `before` it as given.
unfoldable pub authorized_after : Bool → AgentTurnMachine → List (TurnAction × DateTime) → Bool
authorized_after before m [] = before
authorized_after before m ((a, at) ∷ rest) =
    let next = (apply m a at).0 in authorized_after (authorized next.turn.state before) next rest

-- The states in which the proposed tools may be acted on.
abbrev is_acting : TurnState → Bool
is_acting TurnState.authorizing = true
is_acting TurnState.scheduling = true
is_acting TurnState.executing = true
is_acting _ = false

acting_step :
    (from to : TurnState) (before : Bool)
    → (is_acting from ≡ true → before ≡ true)
    → can_transition_turn from to ≡ true
    → is_acting to ≡ true
    → authorized to before ≡ true
unfolding can_transition_turn
acting_step from to before h legal acts = ground arith

acting_stays :
    (s : TurnState) (before : Bool)
    → (is_acting s ≡ true → before ≡ true)
    → is_acting s ≡ true
    → authorized s before ≡ true
acting_stays s before h acts = ground arith

acting_authorized :
    (m : AgentTurnMachine) (steps : List (TurnAction × DateTime)) (before : Bool)
    → (is_acting m.turn.state ≡ true → before ≡ true)
    → is_acting (run m steps).turn.state ≡ true
    → authorized_after before m steps ≡ true
unfolding run authorized_after
acting_authorized m [] before h acts = h acts
acting_authorized m ((a, at) ∷ rest) before h acts =
    acting_authorized (apply m a at).0 rest (authorized (apply m a at).0.turn.state before)
      (elim (apply-cases m a at) [
        | inl (legal, e) ↦ rw e (unfold moved in acting_step m.turn.state (target a) before h legal)
        | inr (refused, e) ↦ rw e (acting_stays m.turn.state before h)
      ])
      acts

-- Nothing is executed that was not authorized: if a turn that starts as accepted is executing after
-- some actions, then of the states `authorizing` and `proposed_tools` it entered the first last.
pub executing_authorized :
    (m : AgentTurnMachine) (steps : List (TurnAction × DateTime))
    → m.turn.state ≡ TurnState.accepted
    → (run m steps).turn.state ≡ TurnState.executing
    → authorized_after false m steps ≡ true
executing_authorized m steps start end =
    acting_authorized m steps false (λ acts. ground arith) (ground arith)
