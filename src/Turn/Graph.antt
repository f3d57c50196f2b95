-- ===== src/Turn/Graph.antt =====
-- One step of a turn.
use yeu_xharness.Base.{
  true, false, not, ◌||◌, same, ◌≡◌, ◌⊎◌, inl, inr, Option, Str, arith, Bool-cases, if◌then◌else◌,
}
use yeu_xharness.Base.Map.{is_some}
use yeu_xharness.Base.Results.{ok, err}
use yeu_xharness.Protocol.Ids.{DateTime}
use yeu_xharness.Protocol.Domain.{Turn, TurnState, TurnState-discrete, is_terminal}
use yeu_xharness.Turn.Machine.{
  AgentTurnMachine, TurnAction, invalid_transition, can_transition_turn, target, failure_reason,
  moved, apply, transition,
}

pub terminal_stuck :
    (from to : TurnState) → is_terminal from ≡ true → can_transition_turn from to ≡ false
unfolding can_transition_turn
terminal_stuck from to h = ground arith

-- An accepted action brings the turn to the action's state along an edge of the table; a refused one
-- leaves the machine as it was and names the two states.
pub apply-cases :
    (m : AgentTurnMachine) (a : TurnAction) (at : DateTime)
    → ((can_transition_turn m.turn.state (target a) ≡ true)
        × (apply m a at
            ≡ (record m { turn = moved m.turn (target a) at (failure_reason a) }, ok (target a))))
      ⊎ ((can_transition_turn m.turn.state (target a) ≡ false)
          × (apply m a at ≡ (m, err (invalid_transition m.turn.state (target a)))))
unfolding apply transition
apply-cases m a at = elim (Bool-cases (can_transition_turn m.turn.state (target a))) [
  | inl legal ↦ inl (legal, rw legal)
  | inr refused ↦ inr (refused, rw refused)
]

-- The state of a turn after an action.
pub apply-state :
    (m : AgentTurnMachine) (a : TurnAction) (at : DateTime)
    → (apply m a at).0.turn.state
      ≡ (if can_transition_turn m.turn.state (target a) then target a else m.turn.state)
unfolding apply transition moved
apply-state m a at = elim (Bool-cases (can_transition_turn m.turn.state (target a))) [
  | inl legal ↦ rw legal
  | inr refused ↦ rw refused
]

-- What a turn carries besides its state: an end exactly when it is terminal, and a failure's reason
-- only when it failed.
pub record IsConsistent (t : Turn) : Type 0 where
  pub ended : is_some t.ended_at ≡ is_terminal t.state
  pub reasoned :
      (not (is_some t.failure) || same TurnState-discrete t.state TurnState.failed) ≡ true

pub moved-IsConsistent :
    (t : Turn) (to : TurnState) (at : DateTime) (reason : Option Str)
    → can_transition_turn t.state to ≡ true
    → IsConsistent t
    → IsConsistent (moved t to at reason)
unfolding moved can_transition_turn
moved-IsConsistent t to at reason legal c = ground arith
