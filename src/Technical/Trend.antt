-- ===== src/Technical/Trend.antt =====
-- agents/technical_analysis/indicators.py: `compute_ema_cross`, `compute_volume_signal`, `compute_atr`.
use multi_agent_trading_syst.Prelude.{
  ℕ, ◌+◌, ◌-◌, Bool, true, false, not, Option, none, some, List, if◌then◌else◌, map,
}
use multi_agent_trading_syst.Prelude.Deque.{last, take_last}
use multi_agent_trading_syst.Prelude.Float.{Float, nought}
use multi_agent_trading_syst.Models.Signals.{strong_buy, buy, neutral, sell, strong_sell}
use multi_agent_trading_syst.Technical.Series.{
  Libraries, Talib, Computed, computed, and_then, from_end, take, validate_length, indexed,
  check_nan, current, abs, exceeds, or_period,
}
use multi_agent_trading_syst.Technical.Fallback.{ema_numpy, atr_numpy}
use multi_agent_trading_syst.Technical.Results.{
  TechnicalAnalysisSettings, EmaCrossResult, VolumeResult, AtrResult, low_volatility,
  normal_volatility, high_volatility,
}

-- `a != b` of two tests.
abbrev pub differs : Bool → Bool → Bool
differs true b = not b
differs false b = b

module _ {F : Type 0} ⦃f : Float F⦄ where
  unfoldable pub ema_cross_result : Bool → F → F → EmaCrossResult F
  ema_cross_result was_above short long =
      let spread = f.sub short long in
      let spread_pct =
        if f.lt nought long then f.mul (f.div spread long) (f.lit 100 1) else nought in
      let is_above = f.lt long short in
      let crossover_detected = differs was_above is_above in
      record {
        ema_short = short;
        ema_long = long;
        spread = spread;
        spread_pct = spread_pct;
        signal =
            if crossover_detected
            then (if is_above then strong_buy else strong_sell)
            else if is_above
            then (if f.lt (f.lit 3 10) spread_pct then buy else neutral)
            else if f.lt (f.lit 3 10) (abs spread_pct)
            then sell
            else neutral;
        crossover_detected = crossover_detected;
      }

  abbrev ema_array : Libraries F → Option (Talib F) → List F → ℕ → List (Option F)
  ema_array lib (some t) closes period = t.ema closes period
  ema_array lib none closes period = ema_numpy lib.numpy (map (λ x. some x) closes) period

  unfoldable pub read_ema_cross : List (Option F) → List (Option F) → Computed (EmaCrossResult F)
  unfolding ema_cross_result
  read_ema_cross short_arr long_arr = and_then (indexed (last short_arr)) λ short.
      and_then (indexed (last long_arr)) λ long.
        and_then (indexed (from_end 1 short_arr)) λ prev_short.
          and_then (indexed (from_end 1 long_arr)) λ prev_long. and_then (check_nan short) λ x.
            and_then (check_nan long)
              λ y. computed (ema_cross_result (exceeds prev_short prev_long) x y)

  unfoldable pub compute_ema_cross :
      TechnicalAnalysisSettings F
      → Libraries F
      → Option ℕ
      → Option ℕ
      → List F
      → Computed (EmaCrossResult F)
  unfolding validate_length read_ema_cross ema_numpy
  compute_ema_cross cfg lib given_short given_long closes =
      let short_period = or_period given_short cfg.ema_short in
      let long_period = or_period given_long cfg.ema_long in
      validate_length closes (long_period + 1) (
        read_ema_cross (ema_array lib lib.talib closes short_period)
          (ema_array lib lib.talib closes long_period))

  unfoldable pub volume_result : F → F → VolumeResult F
  volume_result now avg =
      let ratio = if f.lt nought avg then f.div now avg else f.lit 1 1 in
      record {
        current_volume = now;
        avg_volume = avg;
        volume_ratio = ratio;
        signal =
            if f.le (f.lit 2 1) ratio
            then strong_buy
            else if f.le (f.lit 3 2) ratio
            then buy
            else if f.le ratio (f.lit 1 2)
            then sell
            else neutral;
      }

  -- The average is over the bars before the current one.
  unfoldable pub compute_volume_signal : Libraries F → ℕ → List F → Computed (VolumeResult F)
  unfolding validate_length volume_result
  compute_volume_signal lib lookback volumes = validate_length volumes lookback (
      and_then (indexed (last volumes)) λ now.
        computed
          (volume_result now (lib.numpy.mean (take (lookback - 1) (take_last lookback volumes)))))

  unfoldable pub atr_result : ℕ → F → F → AtrResult F
  atr_result period price atr =
      let as_pct = if f.lt nought price then f.mul (f.div atr price) (f.lit 100 1) else nought in
      record {
        value = atr;
        as_pct_of_price = as_pct;
        period = period;
        volatility_regime =
            if f.lt as_pct (f.lit 1 2)
            then low_volatility
            else if f.lt (f.lit 2 1) as_pct
            then high_volatility
            else normal_volatility;
        current_price = price;
      }

  abbrev atr_array : Libraries F → Option (Talib F) → List F → List F → List F → ℕ → List (Option F)
  atr_array lib (some t) highs lows closes period = t.atr highs lows closes period
  atr_array lib none highs lows closes period = atr_numpy lib.numpy highs lows closes period

  unfoldable pub compute_atr : Libraries F → ℕ → List F → List F → List F → Computed (AtrResult F)
  unfolding validate_length atr_result atr_numpy
  compute_atr lib period highs lows closes = validate_length closes (period + 1) (
      and_then (current (atr_array lib lib.talib highs lows closes period))
        λ atr. and_then (indexed (last closes)) λ price. computed (atr_result period price atr))
