-- ===== src/Technical/Oscillators.antt =====
-- agents/technical_analysis/indicators.py: `compute_rsi`, `compute_macd`, `compute_bollinger_bands`.
use multi_agent_trading_syst.Prelude.{
  ℕ, ◌+◌, Bool, not, ◌&&◌, Option, none, some, List, if◌then◌else◌,
}
use multi_agent_trading_syst.Prelude.Deque.{last}
use multi_agent_trading_syst.Prelude.Float.{Float, nought, or_float}
use multi_agent_trading_syst.Models.Signals.{
  SignalDirection, strong_buy, buy, neutral, sell, strong_sell,
}
use multi_agent_trading_syst.Technical.Series.{
  Bands, MacdLines, Libraries, Talib, Computed, computed, and_then, from_end, validate_length,
  indexed, check_nan, current, abs, above, or_period,
}
use multi_agent_trading_syst.Technical.Fallback.{rsi_numpy, macd_numpy, bbands_numpy}
use multi_agent_trading_syst.Technical.Results.{
  TechnicalAnalysisSettings, RsiResult, MacdResult, BollingerResult,
}

module _ {F : Type 0} ⦃f : Float F⦄ where
  -- The last RSI but one, if it is a number, or else the last.
  abbrev previous_or : F → Option (Option F) → F
  previous_or now (some (some x)) = x
  previous_or now _ = now

  -- The direction of an RSI value: the neutral zone is neutral on all three of its branches.
  unfoldable pub rsi_direction : Bool → Bool → Bool → F → F → SignalDirection
  rsi_direction is_oversold is_overbought rsi_rising midpoint now =
      if is_oversold
      then (if f.le now (f.lit 20 1) then strong_buy else buy)
      else if is_overbought
      then (if rsi_rising
          then (if f.lt now (f.lit 90 1) then buy else neutral)
          else if f.le (f.lit 80 1) now
          then strong_sell
          else sell)
      else if f.lt (f.add midpoint (f.lit 5 1)) now && rsi_rising
      then neutral
      else if f.lt now (f.sub midpoint (f.lit 5 1)) && not rsi_rising
      then neutral
      else neutral

  unfoldable pub rsi_result : TechnicalAnalysisSettings F → ℕ → Option (Option F) → F → RsiResult F
  unfolding rsi_direction
  rsi_result cfg period previous now =
      let is_overbought = f.le cfg.rsi_overbought now in
      let is_oversold = f.le now cfg.rsi_oversold in
      let midpoint = f.div (f.add cfg.rsi_overbought cfg.rsi_oversold) (f.lit 2 1) in
      let prev_rsi = previous_or now previous in
      let rsi_rising = f.lt prev_rsi now in
      record {
        value = now;
        signal = rsi_direction is_oversold is_overbought rsi_rising midpoint now;
        period = period;
        is_overbought = is_overbought;
        is_oversold = is_oversold;
        prev_value = prev_rsi;
        rsi_rising = rsi_rising;
      }

  abbrev rsi_array : Libraries F → Option (Talib F) → List F → ℕ → List (Option F)
  rsi_array lib (some t) closes period = t.rsi closes period
  rsi_array lib none closes period = rsi_numpy lib.numpy closes period

  unfoldable pub compute_rsi :
      TechnicalAnalysisSettings F → Libraries F → Option ℕ → List F → Computed (RsiResult F)
  unfolding validate_length rsi_result rsi_numpy
  compute_rsi cfg lib given closes =
      let period = or_period given cfg.rsi_period in
      validate_length closes (period + 1) (
        let rsi_arr = rsi_array lib lib.talib closes period in
        and_then (current rsi_arr) λ now. computed (rsi_result cfg period (from_end 1 rsi_arr) now))

  abbrev scaled_abs : Option F → Option F
  scaled_abs none = none
  scaled_abs (some x) = some (f.mul (abs x) (f.lit 3 2))

  abbrev by_lines : F → F → SignalDirection
  by_lines line signal =
      if f.lt signal line then buy else if f.lt line signal then sell else neutral

  abbrev by_histogram : F → Option F → SignalDirection
  by_histogram hist previous =
      let hist_rising = above hist previous in
      let hist_positive = f.lt nought hist in
      if hist_positive && hist_rising
      then (if above hist (scaled_abs previous) then strong_buy else buy)
      else if hist_positive && not hist_rising
      then neutral
      else if not hist_positive && not hist_rising
      then (if above (abs hist) (scaled_abs previous) then strong_sell else sell)
      else neutral

  -- The last histogram but one, which may be NaN, or 0.0 where there is none.
  abbrev previous_or_nought : Option (Option F) → Option F
  previous_or_nought none = some nought
  previous_or_nought (some x) = x

  unfoldable pub macd_result : Option F → F → F → F → MacdResult F
  macd_result previous line signal hist =
      let hist_near_zero = f.lt (abs hist) (f.lit 1 100_000_000) in
      record {
        macd_line = line;
        signal_line = signal;
        histogram = hist;
        signal = if hist_near_zero then by_lines line signal else by_histogram hist previous;
        prev_histogram = previous;
        histogram_near_zero = hist_near_zero;
      }

  abbrev macd_arrays : Libraries F → Option (Talib F) → List F → ℕ → ℕ → ℕ → MacdLines F
  macd_arrays lib (some t) closes fast slow signal = t.macd closes fast slow signal
  macd_arrays lib none closes fast slow signal = macd_numpy lib.numpy closes fast slow signal

  -- The three last elements are read before any of them is checked.
  unfoldable pub read_macd : MacdLines F → Computed (MacdResult F)
  unfolding macd_result
  read_macd m = and_then (indexed (last m.line)) λ line.
      and_then (indexed (last m.signal)) λ signal. and_then (indexed (last m.histogram)) λ hist.
        and_then (check_nan line) λ x. and_then (check_nan signal) λ y.
          and_then (check_nan hist)
            λ z. computed (macd_result (previous_or_nought (from_end 1 m.histogram)) x y z)

  unfoldable pub compute_macd :
      TechnicalAnalysisSettings F
      → Libraries F
      → Option ℕ
      → Option ℕ
      → Option ℕ
      → List F
      → Computed (MacdResult F)
  unfolding validate_length read_macd macd_numpy
  compute_macd cfg lib given_fast given_slow given_signal closes =
      let fast = or_period given_fast cfg.macd_fast in
      let slow = or_period given_slow cfg.macd_slow in
      let signal_period = or_period given_signal cfg.macd_signal in
      validate_length closes (slow + signal_period + 1)
        (read_macd (macd_arrays lib lib.talib closes fast slow signal_period))

  unfoldable pub bollinger_result : F → Bands F → BollingerResult F
  bollinger_result price b =
      let band_range = f.sub b.upper b.lower in
      let percent_b =
        if f.lt nought band_range then f.div (f.sub price b.lower) band_range else f.lit 1 2 in
      record {
        upper = b.upper;
        middle = b.middle;
        lower = b.lower;
        bandwidth = if f.lt nought b.middle then f.div band_range b.middle else nought;
        percent_b = percent_b;
        signal =
            if f.le percent_b nought
            then strong_buy
            else if f.le percent_b (f.lit 1 10)
            then buy
            else if f.le (f.lit 1 1) percent_b
            then strong_sell
            else if f.le (f.lit 9 10) percent_b
            then sell
            else neutral;
        current_price = price;
      }

  abbrev bands_array : Libraries F → Option (Talib F) → List F → ℕ → F → List (Option (Bands F))
  bands_array lib (some t) closes period std_dev = t.bbands closes period std_dev
  bands_array lib none closes period std_dev = bbands_numpy lib.numpy closes period std_dev

  unfoldable pub compute_bollinger_bands :
      TechnicalAnalysisSettings F
      → Libraries F
      → Option ℕ
      → Option F
      → List F
      → Computed (BollingerResult F)
  unfolding validate_length bollinger_result bbands_numpy
  compute_bollinger_bands cfg lib given_period given_std closes =
      let period = or_period given_period cfg.bb_period in
      let std_dev = or_float given_std cfg.bb_std_dev in
      validate_length closes period (
        and_then (indexed (last closes)) λ price.
          and_then (current (bands_array lib lib.talib closes period std_dev))
            λ b. computed (bollinger_result price b))
