-- ===== src/Models.antt =====
-- The messages that agents exchange (core/models): signals, proposals, assessments, results, candles.
-- Symbols, ids and timeframes are only compared, so they are naturals; times are in microseconds.
-- Texts that are only logged or shown (reasons, explanations, error messages) are left out.
pub mod Signals
pub mod Trade
pub mod Market
