-- ===== src/Decision.antt =====
-- The Decision agent (agents/decision): fusion of signals, trade proposals, and the pipeline between.
pub mod Aggregator
pub mod Builder
pub mod Agent
pub mod Bounds
pub mod Direction
pub mod Range
pub mod Pipeline
pub mod Tests
