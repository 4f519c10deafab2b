-- ===== src/Monitoring.antt =====
-- The monitoring agent (agents/monitoring/agent.py).
pub mod Registry
pub mod Agent
pub mod Alerts
pub mod Silence
pub mod Tests
