-- ===== src/Context.antt =====
-- Context for a language model: token budgets, ranking, recall and summaries of the engines in
-- walrusos/engine, over the timeline that a stream client of walrusos/sdk/stream.py returns.
pub mod Budget
pub mod Entry
pub mod Recall
pub mod Bound
pub mod Sources
pub mod Search
pub mod Build
pub mod Summary
pub mod Longest
pub mod Since
