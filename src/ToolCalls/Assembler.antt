-- ===== src/ToolCalls/Assembler.antt =====
-- `ToolCallAssembler`. A method that mutates and may fail returns the new assembler with its result:
-- a refused delta may leave a new call or a name behind. Sizes are a 64-bit `usize`.
use yeu_xharness.Base.{
  ℕ, ◌+◌, ◌%◌, ◌^◌, Bool, true, false, not, List, [], ◌∷◌, ◌++◌, Option, none, some, Str, str_ord,
  ◌==◌, leb, ltb, is_empty, length, if◌then◌else◌,
}
use yeu_xharness.Base.Map.{Map, get, insert}
use yeu_xharness.Base.Results.{Result, ok, err, ◌>>=◌, ◌>>◌, require}
use yeu_xharness.Base.Blank.{is_blank}
use yeu_xharness.Protocol.Json.{Value, object, end}
use yeu_xharness.Protocol.Model.{ModelEvent, tool_call_delta}

pub record ToolCallLimits : Type 0 where
  pub max_calls : ℕ
  pub max_argument_bytes_per_call : ℕ
  pub max_argument_bytes_per_round : ℕ

-- `ToolCallLimits::default`
abbrev pub default_limits : ToolCallLimits
default_limits = record {
  max_calls = 32;
  max_argument_bytes_per_call = 262144;
  max_argument_bytes_per_round = 1048576;
}

pub data ToolCallAssemblyError : Type 0 where
  missing_call_id : ToolCallAssemblyError
  too_many_calls : (limit : ℕ) → ToolCallAssemblyError
  name_changed : (call_id expected actual : Str) → ToolCallAssemblyError
  missing_name : (call_id : Str) → ToolCallAssemblyError
  call_arguments_too_large : (call_id : Str) (limit : ℕ) → ToolCallAssemblyError
  round_arguments_too_large : (limit : ℕ) → ToolCallAssemblyError
  invalid_json : (call_id message : Str) → ToolCallAssemblyError
  arguments_not_object : (call_id : Str) → ToolCallAssemblyError

pub record PendingToolCall : Type 0 where
  pub order : ℕ
  pub name : Str
  pub arguments : Str

pub record ToolCallAssembler : Type 0 where
  pub limits : ToolCallLimits
  pub calls : Map Str PendingToolCall
  pub next_order : ℕ
  pub total_argument_bytes : ℕ

unfoldable pub new_assembler : ToolCallLimits → ToolCallAssembler
new_assembler limits = record {
  limits = limits;
  calls = [];
  next_order = 0;
  total_argument_bytes = 0;
}

abbrev pub Step : Type 0
Step = ToolCallAssembler × Result ToolCallAssemblyError (Unit {0})

unfoldable pub saturating_add : ℕ → ℕ → ℕ
saturating_add a b = if ltb (a + b) (2 ^ 64) then a + b else 18446744073709551615

-- The arguments of a pending call grow by a delta.
unfoldable pub push_arguments : ToolCallAssembler → Str → Str → PendingToolCall → Step
unfolding saturating_add
push_arguments a call_id json_delta pending =
    let call_limit = a.limits.max_argument_bytes_per_call in
    let round_limit = a.limits.max_argument_bytes_per_round in
    if not (leb (saturating_add (length pending.arguments) (length json_delta)) call_limit)
    then (a, err (call_arguments_too_large call_id call_limit))
    else if not (leb (saturating_add a.total_argument_bytes (length json_delta)) round_limit)
    then (a, err (round_arguments_too_large round_limit))
    else (
      record a {
        calls =
            insert call_id (record pending { arguments = pending.arguments ++ json_delta }) a.calls;
        total_argument_bytes = (a.total_argument_bytes + length json_delta) % 2 ^ 64;
      },
      ok tt,
    )

-- The call exists: its name is set once, and a later name must be the same.
unfoldable pub push_pending : ToolCallAssembler → Str → Str → Str → PendingToolCall → Step
unfolding push_arguments
push_pending a call_id name json_delta pending =
    if is_empty name
    then push_arguments a call_id json_delta pending
    else if is_empty pending.name
    then (let named = record pending { name = name } in
        push_arguments (record a { calls = insert call_id named a.calls }) call_id json_delta named)
    else if pending.name == name
    then push_arguments a call_id json_delta pending
    else (a, err (name_changed call_id pending.name name))

unfoldable pub push_call : ToolCallAssembler → Str → Str → Str → Option PendingToolCall → Step
unfolding push_pending
push_call a call_id name json_delta (some pending) = push_pending a call_id name json_delta pending
push_call a call_id name json_delta none =
    if leb a.limits.max_calls (length a.calls)
    then (a, err (too_many_calls a.limits.max_calls))
    else let pending : PendingToolCall = record {
      order = a.next_order;
      name = name;
      arguments = [];
    } in
      push_pending
        (record a {
          calls = insert call_id pending a.calls;
          next_order = (a.next_order + 1) % 2 ^ 64;
        })
        call_id name json_delta pending

unfoldable pub push : ToolCallAssembler → ModelEvent → Step
unfolding push_call
push a (tool_call_delta call_id name json_delta) =
    if is_empty call_id
    then (a, err missing_call_id)
    else push_call a call_id name json_delta (get call_id a.calls)
push a _ = (a, ok tt)

pub record AssembledToolCall : Type 0 where
  pub call_id : Str
  pub name : Str
  pub arguments : Value

-- `sort_by_key(order)`, which keeps equal keys in their order.
unfoldable pub place :
    Str × PendingToolCall → List (Str × PendingToolCall) → List (Str × PendingToolCall)
place c [] = c ∷ []
place c (e ∷ rest) = if leb c.1.order e.1.order then c ∷ e ∷ rest else e ∷ place c rest

unfoldable pub sort_by_order : List (Str × PendingToolCall) → List (Str × PendingToolCall)
unfolding place
sort_by_order [] = []
sort_by_order (c ∷ rest) = place c (sort_by_order rest)

abbrev pub is_object : Value → Bool
is_object (object fields) = true
is_object _ = false

-- `serde_json::from_str`, which gives a value or the text of its error, is a parameter.
module _ (from_str : Str → Result Str Value) where
  abbrev pub decode : Str → Str → Result ToolCallAssemblyError Value
  decode call_id text = if is_blank text then ok (object end) else elim (from_str text) [
    | ok value ↦ ok value
    | err message ↦ err (invalid_json call_id message)
  ]

  unfoldable pub assemble : Str × PendingToolCall → Result ToolCallAssemblyError AssembledToolCall
  assemble (call_id, pending) = do
    require (not (is_empty pending.name)) (missing_name call_id)
    arguments ← decode call_id pending.arguments
    require (is_object arguments) (arguments_not_object call_id)
    ok (record { call_id = call_id; name = pending.name; arguments = arguments })

  -- The first error, or every call.
  unfoldable pub assemble_all :
      List (Str × PendingToolCall) → Result ToolCallAssemblyError (List AssembledToolCall)
  unfolding assemble
  assemble_all [] = ok []
  assemble_all (c ∷ rest) = do call ← assemble c; calls ← assemble_all rest; ok (call ∷ calls)

  unfoldable pub finish : ToolCallAssembler → Result ToolCallAssemblyError (List AssembledToolCall)
  unfolding sort_by_order assemble_all
  finish a = assemble_all (sort_by_order a.calls)
