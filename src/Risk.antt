-- ===== src/Risk.antt =====
-- The Risk agent (agents/risk): ledger, circuit breaker, position sizing and the evaluation of proposals.
pub mod Drawdown
pub mod Breaker
pub mod Sizer
pub mod Agent
pub mod Bounds
pub mod Ledger
pub mod Approval
pub mod Safety
pub mod Value
pub mod Latch
pub mod Reservation
pub mod Tests
