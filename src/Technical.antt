-- ===== src/Technical.antt =====
-- The technical analysis (agents/technical_analysis/), except for its candle buffer, which stands in
-- MarketData.
pub mod Series
pub mod Fallback
pub mod Results
pub mod Oscillators
pub mod Trend
pub mod Scoring
pub mod Generator
pub mod Registry
pub mod Agent
pub mod Warmup
pub mod Emitted
pub mod Published
pub mod Tests
pub mod Scenarios
