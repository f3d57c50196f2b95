-- ===== src/Tests/Deltas.antt =====
-- Deltas of two tool calls.
use yeu_xharness.Base.{List, [], ◌∷◌, bytes}
use yeu_xharness.Protocol.Model.{ModelEvent, tool_call_delta}

abbrev deltas : List ModelEvent
deltas =
    tool_call_delta (bytes "b") (bytes "write") (bytes "{")
    ∷ tool_call_delta (bytes "a") (bytes "read") (bytes "{}")
    ∷ tool_call_delta (bytes "b") [] (bytes "}")
    ∷ []
