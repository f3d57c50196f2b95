-- ===== src/Ledger/Scope.antt =====
-- The scope of a stored proposal, and the call of a result.
use yeu_xharness.Base.{
  Bool, false, not, List, [], ◌∷◌, Option, none, some, Str, str_ord, bytes, nat_ord, ◌==◌, same,
  filter, if◌then◌else◌,
}
use yeu_xharness.Base.Blank.{is_blank}
use yeu_xharness.Base.Results.{ok, err, ◌>>=◌, ◌>>◌}
use yeu_xharness.Protocol.Json.{Value, member}
use yeu_xharness.Protocol.Domain.{ItemKind, ItemKind-discrete}
use yeu_xharness.Protocol.Model.{ContentBlock, tool_result}
use yeu_xharness.Protocol.Event.{Event, item_added, invocation_proposed}
use yeu_xharness.Ledger.Types.{LedgerEvent, NewLedgerEvent}
use yeu_xharness.Ledger.Errors
use yeu_xharness.Ledger.Store.{Row, Outcome}
use yeu_xharness.Ledger.Read.{order_by}
use yeu_xharness.Ledger.Serde.{Serde}
use yeu_xharness.Ledger.Outcomes.{fault, check, or_fault, decode_new_event}
use yeu_xharness.Ledger.History.{events_of}

-- The thread, the turn, the agent and the call of a proposal.
pub record InvocationScope : Type 0 where
  pub thread_id : Str
  pub turn_id : Option Str
  pub agent_id : Str
  pub call_id : Str

-- A turn id that is given and not blank.
abbrev has_turn : Option Str → Bool
has_turn none = false
has_turn (some turn) = not (is_blank turn)

unfoldable pub validate_invocation_proposal_scope :
    (thread_id : Str) → Option Str → (agent_id : Str) → Outcome (Unit {0})
validate_invocation_proposal_scope thread_id turn_id agent_id = do
  check (not (is_blank thread_id)) Errors.empty_thread_id
  check (has_turn turn_id) Errors.empty_turn_id
  check (not (is_blank agent_id)) Errors.empty_agent_id

-- `kind = 'tool/proposed'`
abbrev pub is_proposal : LedgerEvent → Bool
is_proposal e = e.kind == bytes "tool/proposed"

module _ (serde : Serde) where
  -- The call that a proposal of this invocation names.
  unfoldable pub proposed_call : Str → Event → Option Str
  proposed_call id
        (invocation_proposed candidate call tool version arguments effects digest declared) =
      if serde.uuid_text candidate == id then some call else none
  proposed_call id _ = none

  abbrev pub scope_of : LedgerEvent → Str → Outcome (Option InvocationScope)
  scope_of e call = do
    validate_invocation_proposal_scope e.thread_id e.turn_id e.agent_id
    ok (
        some (record {
          thread_id = e.thread_id;
          turn_id = e.turn_id;
          agent_id = e.agent_id;
          call_id = call;
        }))

  unfoldable pub first_scope : Str → List LedgerEvent → Outcome (Option InvocationScope)
  unfolding proposed_call
  first_scope id [] = ok none
  first_scope id (e ∷ events) = do
    payload ← or_fault Errors.unreadable (serde.reread_json e.payload)
    event ← or_fault Errors.invalid_event (serde.decode_event (bytes "tool/proposed") payload)
    let rest = first_scope id events
    elim (proposed_call id event) [ none ↦ rest | some call ↦ scope_of e call ]

  unfoldable pub invocation_scope_in : List Row → Str → Outcome (Option InvocationScope)
  invocation_scope_in rows id =
      first_scope id (filter is_proposal (events_of (order_by (λ (r : Row). r.append_order) rows)))

  -- The call of a result with one block.
  abbrev pub call_of : List ContentBlock → Option Str
  call_of (tool_result call_id content is_error ∷ []) = some call_id
  call_of _ = none

  -- `ok()?` on what the content says.
  abbrev pub call_in : Option Value → Option Str
  call_in none = none
  call_in (some content) = elim (serde.decode_blocks content) [
    | ok blocks ↦ call_of blocks
    | err message ↦ none
  ]

  abbrev pub call_named : Event → Option Str
  call_named (item_added item) =
      if same ItemKind-discrete item.kind ItemKind.tool_result
      then call_in (member (bytes "content") item.content)
      else none
  call_named _ = none

  unfoldable pub tool_result_call_id : NewLedgerEvent → Option Str
  unfolding ItemKind-discrete
  tool_result_call_id input = elim (decode_new_event serde input) [
    | ok event ↦ call_named event
    | err fault ↦ none
  ]
