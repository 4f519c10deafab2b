-- ===== src/Mt5.antt =====
-- The bridge to a MetaTrader 5 terminal (agents/execution/mt5_bridge.py, symbol_mapper.py).
pub mod Mapper
pub mod Orders
pub mod Bridge
pub mod Queue
pub mod Answers
pub mod Tests
