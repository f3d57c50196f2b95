-- ===== src/Projection/TurnChange.antt =====
-- How an accepted event changes the turns.
use yeu_xharness.Base.{
  true, ◌≡◌, sym, ◌∙◌, ap, inl, inr, Option, none, some, Str, arith, Option-cases, nat_ord,
}
use yeu_xharness.Base.Map.{Map, get, insert}
use yeu_xharness.Base.Results.{Result, ok, err}
use yeu_xharness.Protocol.Ids.{DateTime, TurnId}
use yeu_xharness.Protocol.Domain.{Turn, TurnState}
use yeu_xharness.Protocol.Tool.{EffectSet}
use yeu_xharness.Protocol.Event.{Event, EventEnvelope, turn_started, turn_state_changed}
use yeu_xharness.Turn.Machine.{can_transition_turn, moved}
use yeu_xharness.Projection.State.{Projection, ReplayError}
use yeu_xharness.Projection.Turns.{find_active, active_turn, start_turn, change_turn}
use yeu_xharness.Projection.Apply.{apply_event, settle, record_event}
use yeu_xharness.Projection.Frames.{turns_kept}
use yeu_xharness.Projection.Accepted.{Accepted, apply-parts}

-- The turns stay, one is added, or one moves along an edge of the turn's table.
pub data TurnChange (before after : Map TurnId Turn) : Type 0 where
  kept : after ≡ before → TurnChange before after
  started :
      (t : Turn)
      → find_active t.thread_id before ≡ none
      → get t.id before ≡ none
      → t.state ≡ TurnState.accepted
      → after ≡ insert t.id t before
      → TurnChange before after
  moved_on :
      (id : TurnId) (t : Turn) (to : TurnState) (at : DateTime) (reason : Option Str)
      → get id before ≡ some t
      → can_transition_turn t.state to ≡ true
      → after ≡ insert id (moved t to at reason) before
      → TurnChange before after

pub settle-ok :
    (p r : Projection) (o : Result ReplayError Projection) → settle p o ≡ (r, ok tt) → o ≡ ok r
settle-ok p r (ok q) h = ap ok (ap (λ t. t.0) h)
settle-ok p r (err x) h = ground arith

start-facts :
    (p : Projection) (e : EventEnvelope) (t : Turn) (r : Projection)
    → start_turn p e t ≡ ok r
    → (active_turn p t.thread_id ≡ none)
      × (get t.id p.turns ≡ none)
      × (t.state ≡ TurnState.accepted)
      × (r.turns ≡ insert t.id t p.turns)
unfolding start_turn
start-facts p e t r h = ground arith

change-facts :
    (p : Projection) (e : EventEnvelope) (id : TurnId) (from to : TurnState) (reason : Option Str)
    (t : Turn) (r : Projection)
    → get id p.turns ≡ some t
    → change_turn p e id from to reason ≡ ok r
    → (can_transition_turn t.state to ≡ true)
      × (r.turns ≡ insert id (moved t to e.time reason) p.turns)
unfolding change_turn moved
change-facts p e id from to reason t r g h = ground arith

change-none :
    (p : Projection) (e : EventEnvelope) (id : TurnId) (from to : TurnState) (reason : Option Str)
    (r : Projection)
    → get id p.turns ≡ none
    → change_turn p e id from to reason ≡ ok r
    → ⊥
unfolding change_turn
change-none p e id from to reason r g h = ground arith

module _ (d : EffectSet → Result Str Str) where
  event-TurnChange :
      (p : Projection) (e : EventEnvelope) (ev : Event) (r : Projection)
      → apply_event d p e ev ≡ (r, ok tt)
      → TurnChange p.turns r.turns
  unfolding apply_event active_turn
  event-TurnChange p e (turn_started t) r h =
      let (free, fresh, accepted, same_turns) =
        start-facts p e t r (settle-ok p r (start_turn p e t) h) in
      started t free fresh accepted same_turns
  event-TurnChange p e (turn_state_changed id from to reason) r h =
      let done = settle-ok p r (change_turn p e id from to reason) h in
      elim (Option-cases (get id p.turns)) [
        | inl absent ↦ absurd (change-none p e id from to reason r absent done)
        | inr (t, found) ↦
            let (legal, same_turns) = change-facts p e id from to reason t r found done in
            moved_on id t to e.time reason found legal same_turns
      ]
  event-TurnChange p e ev r h = kept (sym (ap (λ t. t.0.turns) h) ∙ turns_kept d p e ev tt)

  pub accepted-TurnChange :
      (p : Projection) (e : EventEnvelope) (q : Projection)
      → Accepted d p e q
      → TurnChange p.turns q.turns
  unfolding record_event
  accepted-TurnChange p e q h =
      let (passed, done, last) = apply-parts d p e q h in
      rw last (event-TurnChange p e e.event (apply_event d p e e.event).0 done)
