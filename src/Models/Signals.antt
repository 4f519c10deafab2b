-- ===== src/Models/Signals.antt =====
-- core/models/signals.py
use multi_agent_trading_syst.Prelude.{ℕ, Bool, true, false, Option, ltb, not, ◌&&◌}
use multi_agent_trading_syst.Prelude.Float.{Float}

pub data SignalDirection : Type 0 where
  strong_buy buy neutral sell strong_sell : SignalDirection

-- An entry of a metadata dict that is read as a number: absent or None, a number, or another value.
pub data MetaValue (F : Type 0) : Type 0 where
  missing : MetaValue F
  number : F → MetaValue F
  malformed : MetaValue F

pub record TechnicalSignal (F : Type 0) : Type 0 where
  pub symbol : ℕ
  pub timestamp : ℕ
  pub expires_at : ℕ
  pub direction : SignalDirection
  pub confidence : F
  pub price : F
  pub atr_pct_of_price : MetaValue F
  pub ema_50_dist : MetaValue F

pub record SentimentSignal (F : Type 0) : Type 0 where
  pub symbol : ℕ
  pub expires_at : ℕ
  pub direction : SignalDirection
  pub confidence : F

pub record AggregatedSignal (F : Type 0) : Type 0 where
  pub symbol : ℕ
  pub direction : SignalDirection
  pub confidence : F
  pub composite_score : F
  pub technical_signal : Option (TechnicalSignal F)
  pub sentiment_signal : Option (SentimentSignal F)
  pub technical_weight : F
  pub sentiment_weight : F
  pub total_signals : ℕ
  pub signals_discarded : ℕ

-- `is_expired` of both signals, at the time `now`.
abbrev pub is_expired : ℕ → ℕ → Bool
is_expired now expires_at = ltb expires_at now

abbrev pub is_neutral : SignalDirection → Bool
is_neutral neutral = true
is_neutral _ = false

-- `is_bullish`
abbrev pub is_bullish : SignalDirection → Bool
is_bullish buy = true
is_bullish strong_buy = true
is_bullish _ = false

-- `is_bearish`
abbrev pub is_bearish : SignalDirection → Bool
is_bearish sell = true
is_bearish strong_sell = true
is_bearish _ = false

-- `is_actionable`
pub is_actionable : {F : Type 0} → ℕ → TechnicalSignal F → Bool
is_actionable now s = not (is_expired now s.expires_at) && not (is_neutral s.direction)

-- `scalar_direction` of both signals.
unfoldable pub scalar_direction : {F : Type 0} ⦃f : Float F⦄ → SignalDirection → F
scalar_direction ⦃f⦄ strong_buy = f.lit 1 1
scalar_direction ⦃f⦄ buy = f.lit 1 2
scalar_direction ⦃f⦄ neutral = f.lit 0 1
scalar_direction ⦃f⦄ sell = f.neg (f.lit 1 2)
scalar_direction ⦃f⦄ strong_sell = f.neg (f.lit 1 1)
