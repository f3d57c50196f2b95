-- ===== src/ToolCalls/Budgets.antt =====
-- The budgets of a round hold whatever a provider sends.
use yeu_xharness.Base.{◌+◌, ◌^◌, ◌≤◌, ◌<◌, true, ◌≡◌, List, [], ◌∷◌, str_ord, leb, length, all}
use yeu_xharness.Base.Map.{Map}
use yeu_xharness.Base.Sorted.{IsSorted}
use yeu_xharness.Base.Results.{ok, err}
use yeu_xharness.Protocol.Model.{ModelEvent}
use yeu_xharness.ToolCalls.Assembler.{ToolCallAssembler, Step, push}

-- No more calls than the limit, none with more argument bytes than its limit, and a total within
-- the limit of the round, where the limits of bytes are below the largest `usize`.
pub record IsWithin (a : ToolCallAssembler) : Type 0 where
  pub call_fits : a.limits.max_argument_bytes_per_call + 1 < 2 ^ 64
  pub round_fits : a.limits.max_argument_bytes_per_round + 1 < 2 ^ 64
  pub sorted : IsSorted a.calls
  pub few : length a.calls ≤ a.limits.max_calls
  pub small :
      all (λ c. leb (length c.1.arguments) a.limits.max_argument_bytes_per_call) a.calls ≡ true
  pub total : a.total_argument_bytes ≤ a.limits.max_argument_bytes_per_round

-- The deltas of a round, until one is refused.
unfoldable pub push_all : ToolCallAssembler → List ModelEvent → Step
unfolding push
push_all a [] = (a, ok tt)
push_all a (event ∷ events) =
    let (b, outcome) = push a event in
    let rest = push_all b events in elim outcome [ ok done ↦ rest | err x ↦ (b, err x) ]
