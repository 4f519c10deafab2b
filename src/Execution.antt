-- ===== src/Execution.antt =====
-- The execution agent (agents/execution/agent.py) over the paper broker.
pub mod Agent
pub mod Monitor
pub mod Tests
