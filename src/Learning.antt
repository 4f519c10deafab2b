-- ===== src/Learning.antt =====
-- The learned signals (agents/technical_analysis/ml/) and their walk-forward evaluation
-- (backtest/walkforward.py). The classifier is a parameter.
pub mod Labels
pub mod Signals
pub mod WalkForward
pub mod Indicators
pub mod Features
pub mod Rows
pub mod Leakage
pub mod Causal
pub mod Views
pub mod Hygiene
pub mod Parity
pub mod Past
pub mod Lookahead
pub mod Tests
pub mod FeatureTests
pub mod Versions
pub mod Saved
