-- ===== src/Projection/Turns.antt =====
-- The arms of `apply` for turns.
use yeu_xharness.Base.{
  Bool, ◌&&◌, not, [], ◌∷◌, ◌++◌, Option, none, some, Str, bytes, nat_ord, ◌==◌, same,
  if◌then◌else◌,
}
use yeu_xharness.Base.Map.{Map, get, insert, contains_key}
use yeu_xharness.Base.Results.{Result, ok, err, ◌>>=◌, ◌>>◌, require, ok_or}
use yeu_xharness.Protocol.Ids.{ThreadId, TurnId}
use yeu_xharness.Protocol.Domain.{
  Thread, ThreadStatus, Turn, TurnState, TurnState-discrete, is_terminal,
}
use yeu_xharness.Protocol.Event.{EventEnvelope}
use yeu_xharness.Turn.Machine.{can_transition_turn}
use yeu_xharness.Projection.State.{
  Projection, ReplayError, duplicate_entity, missing_entity, envelope_mismatch,
  active_turn_conflict, turn_state_mismatch, invalid_turn_transition,
}
use yeu_xharness.Projection.Entities.{Outcome, is_id, or_default}

abbrev pub is_active : ThreadId → Turn → Bool
is_active thread t = t.thread_id == thread && not (is_terminal t.state)

-- `turns.values().find(…)`
unfoldable pub find_active : ThreadId → Map TurnId Turn → Option Turn
find_active thread [] = none
find_active thread ((id, t) ∷ turns) =
    if is_active thread t then some t else find_active thread turns

unfoldable pub active_turn : Projection → ThreadId → Option Turn
unfolding find_active
active_turn p thread = find_active thread p.turns

abbrev pub no_conflict : ThreadId → Option Turn → Result ReplayError (Unit {0})
no_conflict thread none = ok tt
no_conflict thread (some active) = err (active_turn_conflict thread active.id)

-- `if let Some(thread) = threads.get_mut(id)` with a new status.
unfoldable pub set_status : ThreadId → ThreadStatus → Map ThreadId Thread → Map ThreadId Thread
set_status id status threads = elim (get id threads) [
  | none ↦ threads
  | some t ↦ insert id (record t { status = status }) threads
]

unfoldable pub start_turn : Projection → EventEnvelope → Turn → Outcome
unfolding TurnState-discrete
start_turn p e t = do
  require (t.thread_id == e.thread_id && is_id e.turn_id t.id) (envelope_mismatch (bytes "turn_id"))
  require (same TurnState-discrete t.state TurnState.accepted)
      (envelope_mismatch (bytes "initial turn state"))
  require (contains_key t.thread_id p.threads) (missing_entity (bytes "thread") t.thread_id)
  no_conflict t.thread_id (active_turn p t.thread_id)
  require (not (contains_key t.id p.turns)) (duplicate_entity (bytes "turn") t.id)
  ok (record p {
    turns = insert t.id t p.turns;
    threads = set_status t.thread_id ThreadStatus.active p.threads;
  })

-- The status that the thread takes when its turn ends.
abbrev pub end_status : TurnState → ThreadStatus
end_status TurnState.failed = ThreadStatus.failed
end_status _ = ThreadStatus.idle

-- The turn takes its new state, the reason of a failure and the time of an end, and its thread the
-- status of an end.
unfoldable pub change_turn :
    Projection → EventEnvelope → TurnId → TurnState → TurnState → Option Str → Outcome
unfolding TurnState-discrete
change_turn p e id from to reason = do
  require (is_id e.turn_id id) (envelope_mismatch (bytes "turn_id"))
  t ← ok_or (get id p.turns) (missing_entity (bytes "turn") id)
  require (same TurnState-discrete t.state from) (turn_state_mismatch id t.state from)
  require (can_transition_turn from to) (invalid_turn_transition from to)
  ok (record p {
    turns =
        insert id
          (record t {
            state = to;
            failure = if same TurnState-discrete to TurnState.failed then reason else t.failure;
            ended_at = if is_terminal to then some e.time else t.ended_at;
          })
          p.turns;
    threads =
        if is_terminal to then set_status t.thread_id (end_status to) p.threads else p.threads;
  })

unfoldable pub steer_turn : Projection → TurnId → Str → Outcome
unfolding or_default
steer_turn p id message = do
  require (contains_key id p.turns) (missing_entity (bytes "turn") id)
  ok (record p {
    steering = insert id (or_default (get id p.steering) ++ (message ∷ [])) p.steering;
  })
