-- ===== src/Technical/Results.antt =====
-- The results of the indicators (agents/technical_analysis/indicators.py) and the settings that they
-- are computed with (core/config.py).
use multi_agent_trading_syst.Prelude.{ℕ, Bool, Option}
use multi_agent_trading_syst.Models.Signals.{SignalDirection}

pub record TechnicalAnalysisSettings (F : Type 0) : Type 0 where
  pub rsi_period : ℕ
  pub rsi_overbought : F
  pub rsi_oversold : F
  pub macd_fast : ℕ
  pub macd_slow : ℕ
  pub macd_signal : ℕ
  pub bb_period : ℕ
  pub bb_std_dev : F
  pub ema_short : ℕ
  pub ema_long : ℕ
  pub min_signal_confidence : F
  pub signal_ttl_seconds : ℕ

pub record RsiResult (F : Type 0) : Type 0 where
  pub value : F
  pub signal : SignalDirection
  pub period : ℕ
  pub is_overbought : Bool
  pub is_oversold : Bool
  pub prev_value : F
  pub rsi_rising : Bool

pub record MacdResult (F : Type 0) : Type 0 where
  pub macd_line : F
  pub signal_line : F
  pub histogram : F
  pub signal : SignalDirection
  pub prev_histogram : Option F
  pub histogram_near_zero : Bool

pub record BollingerResult (F : Type 0) : Type 0 where
  pub upper : F
  pub middle : F
  pub lower : F
  pub bandwidth : F
  pub percent_b : F
  pub signal : SignalDirection
  pub current_price : F

pub record EmaCrossResult (F : Type 0) : Type 0 where
  pub ema_short : F
  pub ema_long : F
  pub spread : F
  pub spread_pct : F
  pub signal : SignalDirection
  pub crossover_detected : Bool

pub record VolumeResult (F : Type 0) : Type 0 where
  pub current_volume : F
  pub avg_volume : F
  pub volume_ratio : F
  pub signal : SignalDirection

pub data VolatilityRegime : Type 0 where
  low_volatility normal_volatility high_volatility : VolatilityRegime

pub record AtrResult (F : Type 0) : Type 0 where
  pub value : F
  pub as_pct_of_price : F
  pub period : ℕ
  pub volatility_regime : VolatilityRegime
  pub current_price : F
