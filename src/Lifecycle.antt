-- ===== src/Lifecycle.antt =====
-- The life of an agent (agents/base.py): status, errors, the halt latch, and the supervisor.
pub mod Base
pub mod Supervisor
pub mod Quarantine
pub mod Restarts
pub mod Halt
pub mod Tests
