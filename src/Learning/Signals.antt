-- ===== src/Learning/Signals.antt =====
-- agents/technical_analysis/ml/ml_signal_generator.py: `generate`.
use multi_agent_trading_syst.Prelude.{
  ℕ, ◌+◌, ◌*◌, ◌^◌, ◌&&◌, Option, none, some, List, [], ◌∷◌, if◌then◌else◌, is_some,
}
use multi_agent_trading_syst.Prelude.Float.{Float, nought, max_float}
use multi_agent_trading_syst.Models.Market.{OhlcvCandle}
use multi_agent_trading_syst.Models.Signals.{SignalDirection, number, missing, buy, sell, neutral}
use multi_agent_trading_syst.MarketData.Buffer.{CandleBuffer, latest_candle}
use multi_agent_trading_syst.Technical.Results.{TechnicalAnalysisSettings}
use multi_agent_trading_syst.Technical.Scoring.{Generated}
use multi_agent_trading_syst.Technical.Agent.{Learned}

-- A feature row, with `ema_50_dist` picked out of it (0.0 where the model does not know it).
pub record Features (F : Type 0) : Type 0 where
  pub row : List F
  pub ema_50_dist : F

-- A loaded model: its features of a buffer, and its probabilities, where `none` is an exception.
pub record Model (F : Type 0) : Type 0 where
  pub build_features : CandleBuffer → Option (Features F)
  pub predict_proba : List F → Option (List F)

module _ {F : Type 0} ⦃f : Float F⦄ where
  abbrev directional_threshold : F
  directional_threshold = f.lit 35 100

  -- The direction and its confidence for the probabilities of SELL and BUY.
  unfoldable pub directional : F → F → SignalDirection × F
  directional p_sell p_buy =
      if f.le directional_threshold p_buy && f.lt p_sell p_buy
      then (buy, p_buy)
      else if f.le directional_threshold p_sell && f.lt p_buy p_sell
      then (sell, p_sell)
      else (neutral, max_float p_buy p_sell)

  abbrev close_or_nought : Option OhlcvCandle → F
  close_or_nought none = nought
  close_or_nought (some c) = f.of_decimal c.close

  -- The signal of a direction and a confidence that reaches the minimum.
  unfoldable pub learned_signal_of :
      TechnicalAnalysisSettings F
      → ℕ
      → CandleBuffer
      → F
      → SignalDirection × F
      → Option (Generated F)
  learned_signal_of cfg now b ema_50_dist (direction, confidence) =
      if f.lt confidence cfg.min_signal_confidence
      then none
      else some record {
        signal = record {
          symbol = b.symbol;
          timestamp = now;
          expires_at = now + cfg.signal_ttl_seconds * 10 ^ 6;
          direction = direction;
          confidence = f.round4 confidence;
          price = close_or_nought (latest_candle b);
          atr_pct_of_price = missing;
          ema_50_dist = number (f.round_to 6 ema_50_dist);
        };
        timeframe = b.timeframe;
        indicators = [];
        composite_score = nought;
        indicator_count = 0;
        total_weight = nought;
        agreement = nought;
        atr_value = none;
        volatility_regime = none;
      }

  -- Anything but three probabilities gives no signal.
  abbrev pub from_proba :
      TechnicalAnalysisSettings F → ℕ → CandleBuffer → F → Option (List F) → Option (Generated F)
  unfolding directional learned_signal_of
  from_proba cfg now b ema_50_dist (some (p_sell ∷ p_hold ∷ p_buy ∷ [])) =
      learned_signal_of cfg now b ema_50_dist (directional p_sell p_buy)
  from_proba cfg now b ema_50_dist _ = none

  abbrev pub from_features :
      TechnicalAnalysisSettings F
      → Model F
      → ℕ
      → CandleBuffer
      → Option (Features F)
      → Option (Generated F)
  unfolding from_proba
  from_features cfg m now b none = none
  from_features cfg m now b (some x) = from_proba cfg now b x.ema_50_dist (m.predict_proba x.row)

  abbrev generate_by :
      TechnicalAnalysisSettings F → Option (Model F) → ℕ → CandleBuffer → Option (Generated F)
  unfolding from_features
  generate_by cfg none now b = none
  generate_by cfg (some m) now b = from_features cfg m now b (m.build_features b)

  -- The generator that the agent of the technical analysis asks; without a model it is not loaded.
  unfoldable pub ml_signal_generator : TechnicalAnalysisSettings F → Option (Model F) → Learned F
  unfolding generate_by
  ml_signal_generator cfg model = record {
    is_loaded = is_some model;
    learned_signal = λ now b. generate_by cfg model now b;
  }
