-- ===== src/ToolCalls.antt =====
-- crates/yeuxd/src/tool_calls.rs: the tool calls of a model round, put together from their deltas.
pub mod Assembler
pub mod Budgets
