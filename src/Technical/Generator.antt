-- ===== src/Technical/Generator.antt =====
-- agents/technical_analysis/signal_generator.py: `generate`
use multi_agent_trading_syst.Prelude.{
  ℕ, suc, ◌+◌, ◌*◌, ◌^◌, Option, none, some, List, [], ◌∷◌, ◌++◌, ltb, if◌then◌else◌, length, map,
}
use multi_agent_trading_syst.Prelude.Decimal.{Decimal}
use multi_agent_trading_syst.Prelude.Deque.{last}
use multi_agent_trading_syst.Prelude.Float.{Float, nought, max_float, min_float}
use multi_agent_trading_syst.Models.Market.{OhlcvCandle}
use multi_agent_trading_syst.Models.Signals.{MetaValue, missing, number}
use multi_agent_trading_syst.MarketData.Buffer.{CandleBuffer, is_warm}
use multi_agent_trading_syst.Technical.Series.{Libraries, abs}
use multi_agent_trading_syst.Technical.Results.{
  TechnicalAnalysisSettings, VolumeResult, AtrResult, VolatilityRegime,
}
use multi_agent_trading_syst.Technical.Oscillators.{
  compute_rsi, compute_macd, compute_bollinger_bands,
}
use multi_agent_trading_syst.Technical.Trend.{compute_ema_cross, compute_volume_signal, compute_atr}
use multi_agent_trading_syst.Technical.Scoring.{
  volume, IndicatorReading, Generated, Indicators, Tally, try_compute, direction_to_scalar,
  score_to_direction, compute_agreement, tally, composite_of, agreement_of,
}

module _ {F : Type 0} ⦃f : Float F⦄ where
  abbrev volume_modifier : Option (VolumeResult F) → F → F
  volume_modifier none confidence = confidence
  volume_modifier (some v) confidence =
      if f.le (f.lit 3 2) v.volume_ratio
      then min_float (f.lit 1 1) (f.add confidence (f.lit 1 10))
      else if f.le v.volume_ratio (f.lit 6 10)
      then max_float nought (f.sub confidence (f.lit 1 10))
      else confidence

  -- The confidence before it is rounded.
  unfoldable pub confidence_of : Indicators F → Tally F → F
  unfolding compute_agreement direction_to_scalar
  confidence_of i t =
      volume_modifier i.volume_result
        (f.add (f.mul (agreement_of t) (f.lit 6 10)) (f.mul (abs (composite_of t)) (f.lit 4 10)))

  abbrev with_volume :
      Option (VolumeResult F) → List (IndicatorReading F) → List (IndicatorReading F)
  with_volume none readings = readings
  with_volume (some v) readings =
      readings
      ++ (record { name = volume; value = v.volume_ratio; signal = v.signal; weight = nought } ∷ [])

  abbrev weighted : List (IndicatorReading F) → ℕ
  weighted [] = 0
  weighted (r ∷ rs) = if f.lt nought r.weight then suc (weighted rs) else weighted rs

  abbrev atr_entry : Option (AtrResult F) → MetaValue F
  atr_entry none = missing
  atr_entry (some a) = number a.as_pct_of_price

  abbrev atr_value_of : Option (AtrResult F) → Option F
  atr_value_of none = none
  atr_value_of (some a) = some a.value

  abbrev regime_of : Option (AtrResult F) → Option VolatilityRegime
  regime_of none = none
  regime_of (some a) = some a.volatility_regime

  -- Step 5: the signal at the time `now`, in microseconds.
  unfoldable pub build_signal :
      TechnicalAnalysisSettings F → ℕ → CandleBuffer → F → Indicators F → Tally F → Generated F
  unfolding score_to_direction compute_agreement direction_to_scalar confidence_of
  build_signal cfg now b price i t =
      let readings = with_volume i.volume_result t.readings in
      record {
        signal = record {
          symbol = b.symbol;
          timestamp = now;
          expires_at = now + cfg.signal_ttl_seconds * 10 ^ 6;
          direction = score_to_direction (composite_of t);
          confidence = f.round4 (confidence_of i t);
          price = price;
          atr_pct_of_price = atr_entry i.atr_result;
          ema_50_dist = missing;
        };
        timeframe = b.timeframe;
        indicators = readings;
        composite_score = f.round4 (composite_of t);
        indicator_count = weighted readings;
        total_weight = f.round_to 3 t.total_weight;
        agreement = f.round_to 3 (agreement_of t);
        atr_value = atr_value_of i.atr_result;
        volatility_regime = regime_of i.atr_result;
      }

  -- Steps 2 to 5.
  unfoldable pub combine :
      TechnicalAnalysisSettings F → ℕ → CandleBuffer → F → Indicators F → Option (Generated F)
  unfolding tally confidence_of build_signal
  combine cfg now b price i =
      let t = tally i in
      if ltb (length t.readings) 2
      then none
      else if f.lt (confidence_of i t) cfg.min_signal_confidence
      then none
      else some (build_signal cfg now b price i t)

  -- `buffer.closes` and the other arrays.
  abbrev pub floats : (OhlcvCandle → Decimal) → CandleBuffer → List F
  floats field b = map (λ c. f.of_decimal (field c)) b.candles

  unfoldable pub compute_all :
      TechnicalAnalysisSettings F → Libraries F → CandleBuffer → Indicators F
  unfolding compute_rsi compute_macd compute_bollinger_bands compute_ema_cross compute_volume_signal
      compute_atr
  compute_all cfg lib b =
      let closes = floats (λ c. c.close) b in
      record {
        rsi_result = try_compute (compute_rsi cfg lib none closes);
        macd_result = try_compute (compute_macd cfg lib none none none closes);
        bb_result = try_compute (compute_bollinger_bands cfg lib none none closes);
        ema_result = try_compute (compute_ema_cross cfg lib none none closes);
        volume_result = try_compute (compute_volume_signal lib 20 (floats (λ c. c.volume) b));
        atr_result =
            try_compute
              (compute_atr lib 14 (floats (λ c. c.high) b) (floats (λ c. c.low) b) closes);
      }

  -- A warm buffer is never empty, so that `closes[-1]` is there.
  unfoldable pub generate_at :
      TechnicalAnalysisSettings F → Libraries F → ℕ → CandleBuffer → Option F → Option (Generated F)
  unfolding combine compute_all
  generate_at cfg lib now b none = none
  generate_at cfg lib now b (some price) = combine cfg now b price (compute_all cfg lib b)

  unfoldable pub generate :
      TechnicalAnalysisSettings F → Libraries F → ℕ → CandleBuffer → Option (Generated F)
  unfolding generate_at combine compute_all
  generate cfg lib now b =
      if is_warm b then generate_at cfg lib now b (last (floats (λ c. c.close) b)) else none
