-- ===== src/MarketData.antt =====
-- Candles on their way to the indicators: the normaliser of agents/market_data and the buffers of
-- agents/technical_analysis.
pub mod Sorting
pub mod Normalizer
pub mod Buffer
pub mod Order
pub mod Window
pub mod Feed
pub mod Tests
pub mod Agent
pub mod Streams
pub mod Reconnect
