-- ===== src/Tests/Replays.antt =====
-- A log of one turn with one invocation.
use yeu_xharness.Base.{
  ℕ, ◌+◌, ◌≤◌, false, ◌≡◌, refl, List, [], ◌∷◌, ◌++◌, Option, none, some, Str, bytes, str_ord,
  nat_ord, ◌∙◌, arith,
}
use yeu_xharness.Base.Map.{get, insert}
use yeu_xharness.Base.Set
use yeu_xharness.Base.Results.{Result, ok, err}
use yeu_xharness.Protocol.Ids.{TurnId}
use yeu_xharness.Protocol.Json.{null}
use yeu_xharness.Protocol.Domain.{
  Item, ItemKind, Thread, ThreadStatus, Turn, TurnState, TurnState-discrete, Workspace,
  WorkspaceTrust,
}
use yeu_xharness.Protocol.Tool.{
  EffectSet, Idempotency, Idempotency-discrete, InvocationState, default_effects,
}
use yeu_xharness.Protocol.Event.{
  Event, EventEnvelope, workspace_opened, thread_started, turn_started, turn_state_changed,
  item_added, invocation_proposed, invocation_state_changed,
}
use yeu_xharness.Turn.Machine.{can_transition_turn, moved}
use yeu_xharness.Turn.Graph.{IsConsistent}
use yeu_xharness.Invocation.Machine.{can_transition_invocation_with_idempotency}
use yeu_xharness.Projection.State.{Projection, ProjectedInvocation, empty, duplicate_entity}
use yeu_xharness.Projection.Turns.{active_turn, set_status}
use yeu_xharness.Projection.Apply.{apply, replay, replay_from}
use yeu_xharness.Projection.Accepted.{Accepted, replay-Accepted}
use yeu_xharness.Projection.TurnLaws.{one_active_turn}
use yeu_xharness.Projection.TurnHistory.{
  Evolves, Accepted-Evolves, ended_turn_frozen, turn-IsConsistent,
}
use yeu_xharness.Projection.InvocationHistory.{Develops, Accepted-Develops, invocation_honest}
use yeu_xharness.Projection.Executions.{starts_of, starts_at_most_once}
use yeu_xharness.Projection.Sequence.{count, has_id, replay-new_id, replay-numbered}
use yeu_xharness.Projection.Rejected.{Leftover, rejected-Leftover}

-- A digest that tells nothing apart.
abbrev digest : EffectSet → Result Str Str
digest e = ok (bytes "e")

abbrev main_agent : Str
main_agent = bytes "main"

abbrev event_at : ℕ → Option TurnId → Event → EventEnvelope
event_at seq turn event = record {
  schema_version = record { major = 2; minor = 0 };
  event_id = 100 + seq;
  thread_id = 2;
  turn_id = turn;
  agent_id = main_agent;
  seq = seq;
  time = 10 + seq;
  causation_id = none;
  event = event;
}

abbrev workspace : Workspace
workspace = record {
  id = 1;
  root = bytes "/w";
  identity = record {
    canonical_root = bytes "/w";
    digest = bytes "w";
    device = none;
    inode = none;
    git_common_dir = none;
  };
  trust = WorkspaceTrust.trusted;
  opened_at = 10;
}

abbrev thread : Thread
thread = record {
  id = 2;
  workspace_id = 1;
  parent_thread_id = none;
  parent_seq = none;
  title = none;
  status = ThreadStatus.idle;
  created_at = 10;
  updated_at = 10;
  last_seq = 0;
}

abbrev turn : Turn
turn = record {
  id = 5;
  thread_id = 2;
  agent_id = main_agent;
  state = TurnState.accepted;
  started_at = 12;
  ended_at = none;
  failure = none;
}

abbrev once : EffectSet
once = record default_effects { idempotency = Idempotency.non_idempotent }

abbrev opening : List EventEnvelope
opening =
    event_at 1 none (workspace_opened workspace)
    ∷ event_at 2 none (thread_started thread)
    ∷ event_at 3 (some 5) (turn_started turn)
    ∷ []

abbrev moves : InvocationState → InvocationState → Event
moves from to = invocation_state_changed 9 from to none

abbrev to_context : EventEnvelope
to_context =
    event_at 4 (some 5) (turn_state_changed 5 TurnState.accepted TurnState.building_context none)

abbrev proposal : EventEnvelope
proposal = event_at 5 (some 5) (
    invocation_proposed 9 (bytes "c") (bytes "write") (bytes "1") (bytes "a") once (bytes "e")
      Idempotency.non_idempotent)

abbrev invoking : List EventEnvelope
invoking =
    proposal
    ∷ event_at 6 (some 5) (moves InvocationState.proposed InvocationState.approved)
    ∷ event_at 7 (some 5) (moves InvocationState.approved InvocationState.prepared)
    ∷ event_at 8 (some 5) (moves InvocationState.prepared InvocationState.started)
    ∷ []

abbrev log : List EventEnvelope
log = opening ++ (to_context ∷ invoking)

-- The projections after each event.
abbrev after_1 : Projection
after_1 = record empty {
  workspaces = (1, workspace) ∷ [];
  last_seq_by_thread = (2, 1) ∷ [];
  seen_events = 101 ∷ [];
}

abbrev after_2 : Projection
after_2 = record after_1 {
  threads = (2, record thread { last_seq = 2; updated_at = 12 }) ∷ [];
  last_seq_by_thread = (2, 2) ∷ [];
  seen_events = 101 ∷ 102 ∷ [];
}

abbrev after_3 : Projection
after_3 = record after_2 {
  threads = (2, record thread { status = ThreadStatus.active; last_seq = 3; updated_at = 13 }) ∷ [];
  turns = (5, turn) ∷ [];
  last_seq_by_thread = (2, 3) ∷ [];
  seen_events = 101 ∷ 102 ∷ 103 ∷ [];
}

abbrev after_4 : Projection
after_4 = record after_3 {
  threads = (2, record thread { status = ThreadStatus.active; last_seq = 4; updated_at = 14 }) ∷ [];
  turns = (5, record turn { state = TurnState.building_context }) ∷ [];
  last_seq_by_thread = (2, 4) ∷ [];
  seen_events = 101 ∷ 102 ∷ 103 ∷ 104 ∷ [];
}

abbrev invoked : ProjectedInvocation
invoked = record {
  invocation_id = 9;
  thread_id = 2;
  turn_id = 5;
  agent_id = main_agent;
  call_id = bytes "c";
  tool_id = bytes "write";
  tool_version = bytes "1";
  normalized_arguments_digest = bytes "a";
  effects = once;
  effect_digest = bytes "e";
  idempotency = Idempotency.non_idempotent;
  state = InvocationState.proposed;
  reason = none;
  reconciliation = none;
}

abbrev after_5 : Projection
after_5 = record after_4 {
  threads = (2, record thread { status = ThreadStatus.active; last_seq = 5; updated_at = 15 }) ∷ [];
  invocations = (9, invoked) ∷ [];
  last_seq_by_thread = (2, 5) ∷ [];
  seen_events = 101 ∷ 102 ∷ 103 ∷ 104 ∷ 105 ∷ [];
}

abbrev after_6 : Projection
after_6 = record after_5 {
  threads = (2, record thread { status = ThreadStatus.active; last_seq = 6; updated_at = 16 }) ∷ [];
  invocations = (9, record invoked { state = InvocationState.approved }) ∷ [];
  last_seq_by_thread = (2, 6) ∷ [];
  seen_events = 101 ∷ 102 ∷ 103 ∷ 104 ∷ 105 ∷ 106 ∷ [];
}

abbrev after_7 : Projection
after_7 = record after_6 {
  threads = (2, record thread { status = ThreadStatus.active; last_seq = 7; updated_at = 17 }) ∷ [];
  invocations = (9, record invoked { state = InvocationState.prepared }) ∷ [];
  last_seq_by_thread = (2, 7) ∷ [];
  seen_events = 101 ∷ 102 ∷ 103 ∷ 104 ∷ 105 ∷ 106 ∷ 107 ∷ [];
}

abbrev after_8 : Projection
after_8 = record after_7 {
  threads = (2, record thread { status = ThreadStatus.active; last_seq = 8; updated_at = 18 }) ∷ [];
  invocations = (9, record invoked { state = InvocationState.started }) ∷ [];
  last_seq_by_thread = (2, 8) ∷ [];
  seen_events = 101 ∷ 102 ∷ 103 ∷ 104 ∷ 105 ∷ 106 ∷ 107 ∷ 108 ∷ [];
}

step_1 : Accepted digest empty (event_at 1 none (workspace_opened workspace)) after_1
unfolding apply get insert Set.insert
step_1 = refl

step_2 : Accepted digest after_1 (event_at 2 none (thread_started thread)) after_2
unfolding apply get insert Set.insert
step_2 = refl

step_3 : Accepted digest after_2 (event_at 3 (some 5) (turn_started turn)) after_3
unfolding apply get insert Set.insert active_turn set_status
step_3 = refl

step_4 : Accepted digest after_3 (to_context) after_4
unfolding apply get insert Set.insert can_transition_turn moved
step_4 = refl

step_5 : Accepted digest after_4 (proposal) after_5
unfolding apply get insert Set.insert Idempotency-discrete str_ord
step_5 = refl

step_6 :
    Accepted digest after_5
      (event_at 6 (some 5) (moves InvocationState.proposed InvocationState.approved))
      after_6
unfolding apply get insert Set.insert can_transition_invocation_with_idempotency str_ord
step_6 = refl

step_7 :
    Accepted digest after_6
      (event_at 7 (some 5) (moves InvocationState.approved InvocationState.prepared))
      after_7
unfolding apply get insert Set.insert can_transition_invocation_with_idempotency str_ord
step_7 = refl

step_8 :
    Accepted digest after_7
      (event_at 8 (some 5) (moves InvocationState.prepared InvocationState.started))
      after_8
unfolding apply get insert Set.insert can_transition_invocation_with_idempotency str_ord
step_8 = refl

-- The log from its last event back, and its replay from each projection.
abbrev from_8 : List EventEnvelope
from_8 = event_at 8 (some 5) (moves InvocationState.prepared InvocationState.started) ∷ []

replays_8 : replay_from digest after_7 from_8 ≡ ok after_8
unfolding replay_from
replays_8 =
    replay-Accepted digest after_7
      (event_at 8 (some 5) (moves InvocationState.prepared InvocationState.started)) [] after_8
      step_8

abbrev from_7 : List EventEnvelope
from_7 = event_at 7 (some 5) (moves InvocationState.approved InvocationState.prepared) ∷ from_8

replays_7 : replay_from digest after_6 from_7 ≡ ok after_8
replays_7 =
    replay-Accepted digest after_6
      (event_at 7 (some 5) (moves InvocationState.approved InvocationState.prepared)) from_8 after_7
      step_7
    ∙ replays_8

abbrev from_6 : List EventEnvelope
from_6 = event_at 6 (some 5) (moves InvocationState.proposed InvocationState.approved) ∷ from_7

replays_6 : replay_from digest after_5 from_6 ≡ ok after_8
replays_6 =
    replay-Accepted digest after_5
      (event_at 6 (some 5) (moves InvocationState.proposed InvocationState.approved)) from_7 after_6
      step_6
    ∙ replays_7

abbrev from_5 : List EventEnvelope
from_5 = proposal ∷ from_6

replays_5 : replay_from digest after_4 from_5 ≡ ok after_8
replays_5 = replay-Accepted digest after_4 (proposal) from_6 after_5 step_5 ∙ replays_6

abbrev from_4 : List EventEnvelope
from_4 = to_context ∷ from_5

replays_4 : replay_from digest after_3 from_4 ≡ ok after_8
replays_4 = replay-Accepted digest after_3 (to_context) from_5 after_4 step_4 ∙ replays_5

abbrev from_3 : List EventEnvelope
from_3 = event_at 3 (some 5) (turn_started turn) ∷ from_4

replays_3 : replay_from digest after_2 from_3 ≡ ok after_8
replays_3 =
    replay-Accepted digest after_2 (event_at 3 (some 5) (turn_started turn)) from_4 after_3 step_3
    ∙ replays_4

abbrev from_2 : List EventEnvelope
from_2 = event_at 2 none (thread_started thread) ∷ from_3

replays_2 : replay_from digest after_1 from_2 ≡ ok after_8
replays_2 =
    replay-Accepted digest after_1 (event_at 2 none (thread_started thread)) from_3 after_2 step_2
    ∙ replays_3

abbrev from_1 : List EventEnvelope
from_1 = event_at 1 none (workspace_opened workspace) ∷ from_2

replays_1 : replay_from digest empty from_1 ≡ ok after_8
replays_1 =
    replay-Accepted digest empty (event_at 1 none (workspace_opened workspace)) from_2 after_1
      step_1
    ∙ replays_2

log_replays : replay digest log ≡ ok after_8
unfolding replay
log_replays = replays_1

abbrev context_turn : Turn
context_turn = record turn { state = TurnState.building_context }

one_active_turn_example : ◌≡◌ {A = TurnId} 5 5
unfolding get
one_active_turn_example =
    one_active_turn digest log after_8 5 5 context_turn context_turn 2 log_replays refl refl refl
      refl

Accepted-Evolves_example : (b : Turn) × (get 5 after_4.turns ≡ some b) × Evolves turn b
unfolding get
Accepted-Evolves_example = Accepted-Evolves digest after_3 to_context after_4 5 turn step_4 refl

abbrev ended : Turn
ended = record turn { state = TurnState.completed; ended_at = some 14 }

abbrev ended_4 : Projection
ended_4 = record after_4 { turns = (5, ended) ∷ [] }

abbrev ended_5 : Projection
ended_5 = record after_5 { turns = (5, ended) ∷ [] }

ended_step : Accepted digest ended_4 proposal ended_5
unfolding apply get insert Set.insert Idempotency-discrete str_ord
ended_step = refl

ended_replays : replay_from digest ended_4 (proposal ∷ []) ≡ ok ended_5
unfolding replay_from
ended_replays = replay-Accepted digest ended_4 proposal [] ended_5 ended_step

ended_turn_frozen_example : get 5 ended_5.turns ≡ some ended
unfolding get
ended_turn_frozen_example =
    ended_turn_frozen digest ended_4 (proposal ∷ []) ended_5 5 ended refl refl ended_replays

turn-IsConsistent_example : (b : Turn) × (get 5 ended_5.turns ≡ some b) × IsConsistent b
unfolding get TurnState-discrete
turn-IsConsistent_example =
    turn-IsConsistent digest ended_4 (proposal ∷ []) ended_5 5 ended refl
      (record { ended = refl; reasoned = refl }) ended_replays

abbrev started : ProjectedInvocation
started = record invoked { state = InvocationState.started }

Accepted-Develops_example :
    (j : ProjectedInvocation) × (get 9 after_8.invocations ≡ some j)
    × Develops (record invoked { state = InvocationState.prepared }) j
unfolding get
Accepted-Develops_example =
    Accepted-Develops digest after_7
      (event_at 8 (some 5) (moves InvocationState.prepared InvocationState.started)) after_8 9
      (record invoked { state = InvocationState.prepared }) step_8 refl

invocation_honest_example :
    (Idempotency.non_idempotent ≡ once.idempotency) × (digest once ≡ ok (bytes "e"))
unfolding get
invocation_honest_example = invocation_honest digest log after_8 9 started log_replays refl

starts_at_most_once_example : starts_of 9 log ≤ 1
unfolding get
starts_at_most_once_example = starts_at_most_once digest log after_8 9 started log_replays refl refl

replay-new_id_example : has_id 104 opening ≡ false
replay-new_id_example = replay-new_id digest opening invoking to_context after_8 log_replays

replay-numbered_example : 4 ≡ count 2 opening + 1
replay-numbered_example =
    replay-numbered digest opening invoking to_context after_8 (omega arith) log_replays

abbrev item : Item
item = record {
  id = 7;
  thread_id = 2;
  turn_id = 5;
  agent_id = main_agent;
  kind = ItemKind.user_message;
  content = null;
  created_at = 14;
}

abbrev with_item : Projection
with_item = record after_4 { items = (7, item) ∷ [] }

abbrev same_id : Item
same_id = record item { kind = ItemKind.checkpoint }

abbrev with_same_id : Projection
with_same_id = record after_4 { items = (7, same_id) ∷ [] }

-- The refused event has replaced the item.
item_replaced :
    apply digest with_item (event_at 5 (some 5) (item_added same_id))
    ≡ (with_same_id, err (duplicate_entity (bytes "item") 7))
unfolding apply get insert Set.insert
item_replaced = refl

rejected-Leftover_example :
    Leftover with_item (item_added same_id) (duplicate_entity (bytes "item") 7) with_same_id
rejected-Leftover_example =
    rejected-Leftover digest with_item (event_at 5 (some 5) (item_added same_id)) with_same_id
      (duplicate_entity (bytes "item") 7) item_replaced
