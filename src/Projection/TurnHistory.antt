-- ===== src/Projection/TurnHistory.antt =====
-- One turn over the events of a log.
use yeu_xharness.Base.{
  true, ◌≡◌, refl, sym, ◌∙◌, ap, subst, inl, inr, List, Option, some, Str, arith, Bool-cases,
  nat_ord, ◌==◌, if◌then◌else◌,
}
use yeu_xharness.Base.Map.{Map, get, get-insert}
use yeu_xharness.Base.Results.{Result, ok}
use yeu_xharness.Protocol.Ids.{DateTime, TurnId}
use yeu_xharness.Protocol.Domain.{Turn, TurnState, is_terminal}
use yeu_xharness.Protocol.Tool.{EffectSet}
use yeu_xharness.Protocol.Event.{EventEnvelope}
use yeu_xharness.Turn.Machine.{can_transition_turn, moved}
use yeu_xharness.Turn.Graph.{terminal_stuck, IsConsistent, moved-IsConsistent}
use yeu_xharness.Projection.State.{Projection}
use yeu_xharness.Projection.Apply.{replay_from}
use yeu_xharness.Projection.Accepted.{Accepted, replay_inv}
use yeu_xharness.Projection.TurnChange.{TurnChange, kept, started, moved_on, accepted-TurnChange}

-- The turn is as it was, or it moved along an edge of the table with its identity.
pub data Evolves (t : Turn) : Turn → Type 0 where
  unchanged : {u : Turn} → u ≡ t → Evolves t u
  moves :
      {u : Turn} (to : TurnState) (at : DateTime) (reason : Option Str)
      → can_transition_turn t.state to ≡ true
      → u ≡ moved t to at reason
      → Evolves t u

change-Evolves :
    (before after : Map TurnId Turn) (x : TurnId) (a : Turn)
    → TurnChange before after
    → get x before ≡ some a
    → (b : Turn) × (get x after ≡ some b) × Evolves a b
change-Evolves before after x a (kept e) g = (a, rw e g, unchanged refl)
change-Evolves before after x a (started t free fresh accepted e) g =
    (a, rw e (get-insert x t.id t before ∙ other), unchanged refl)
  where
    other : (if x == t.id then some t else get x before) ≡ some a
    other = ground arith
change-Evolves before after x a (moved_on id t to at reason found legal e) g =
    elim (Bool-cases (x == id)) [
      | inl hit ↦ (
        moved t to at reason,
        rw e (get-insert x id (moved t to at reason) before ∙ rw hit),
        moves to at reason (legal_for hit) (same_turn hit),
      )
      | inr miss ↦
          (a, rw e (get-insert x id (moved t to at reason) before ∙ rw miss g), unchanged refl)
    ]
  where
    same_value : (x == id) ≡ true → t ≡ a
    same_value hit = ground arith

    legal_for : (x == id) ≡ true → can_transition_turn a.state to ≡ true
    legal_for hit = subst (λ u. can_transition_turn u.state to ≡ true) (same_value hit) legal

    same_turn : (x == id) ≡ true → moved t to at reason ≡ moved a to at reason
    same_turn hit = ap (λ u. moved u to at reason) (same_value hit)

module _ (d : EffectSet → Result Str Str) where
  -- An accepted event keeps every turn, or moves it along one edge of the turn's state table under
  -- the same id, thread and agent, as `AgentTurnMachine::transition` does.
  pub Accepted-Evolves :
      (p : Projection) (e : EventEnvelope) (q : Projection) (x : TurnId) (a : Turn)
      → Accepted d p e q
      → get x p.turns ≡ some a
      → (b : Turn) × (get x q.turns ≡ some b) × Evolves a b
  Accepted-Evolves p e q x a h g =
      change-Evolves p.turns q.turns x a (accepted-TurnChange d p e q h) g

  terminal-Evolves : (a b : Turn) → is_terminal a.state ≡ true → Evolves a b → b ≡ a
  terminal-Evolves a b h (unchanged e) = e
  terminal-Evolves a b h (moves to at reason legal e) =
      absurd (cc (legal, terminal_stuck a.state to h))

  -- A turn that has ended is the same after all later events.
  pub ended_turn_frozen :
      (p : Projection) (events : List EventEnvelope) (q : Projection) (x : TurnId) (a : Turn)
      → get x p.turns ≡ some a
      → is_terminal a.state ≡ true
      → replay_from d p events ≡ ok q
      → get x q.turns ≡ some a
  ended_turn_frozen p events q x a g h r =
      replay_inv d (λ s. get x s.turns ≡ some a)
        (λ s e s' accepted found.
          let (b, found', evolves) = Accepted-Evolves s e s' x a accepted found in
          found' ∙ ap some (terminal-Evolves a b h evolves))
        p events q g r

  IsConsistent-Evolves : (a b : Turn) → IsConsistent a → Evolves a b → IsConsistent b
  IsConsistent-Evolves a b c (unchanged e) = subst IsConsistent (sym e) c
  IsConsistent-Evolves a b c (moves to at reason legal e) =
      subst IsConsistent (sym e) (moved-IsConsistent a to at reason legal c)

  -- A turn that has an end exactly when it is terminal, and a failure only when it failed, stays so
  -- after all later events.
  pub turn-IsConsistent :
      (p : Projection) (events : List EventEnvelope) (q : Projection) (x : TurnId) (a : Turn)
      → get x p.turns ≡ some a
      → IsConsistent a
      → replay_from d p events ≡ ok q
      → (b : Turn) × (get x q.turns ≡ some b) × IsConsistent b
  turn-IsConsistent p events q x a g c r =
      replay_inv d (λ s. (b : Turn) × (get x s.turns ≡ some b) × IsConsistent b)
        (λ s e s' accepted (b, found, fine).
          let (b', found', evolves) = Accepted-Evolves s e s' x b accepted found in
          (b', found', IsConsistent-Evolves b b' fine evolves))
        p events q (a, g, c) r
