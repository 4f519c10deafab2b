-- ===== src/Broker.antt =====
-- The paper broker (agents/execution/paper_broker.py): state, orders and theorems about them.
pub mod State
pub mod Order
pub mod Fill
pub mod Invariant
pub mod Equity
pub mod Idempotent
pub mod Opening
pub mod Store
pub mod Restored
pub mod Session
pub mod Tests
