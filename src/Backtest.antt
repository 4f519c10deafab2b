-- ===== src/Backtest.antt =====
-- The backtest engine (backtest/engine.py): the replay loop and its accounting.
pub mod Engine
pub mod Metrics
pub mod Strategy
pub mod Accounting
pub mod Lookahead
pub mod Tests
