-- ===== src/Learning/Rows.antt =====
-- The rows and the matrix of features (agents/technical_analysis/ml/feature_engineer.py).
use multi_agent_trading_syst.Prelude.{
  ℕ, zero, suc, ◌-◌, Option, none, some, List, [], ◌∷◌, ◌++◌, ltb, if◌then◌else◌, length, map,
}
use multi_agent_trading_syst.Prelude.Deque.{last}
use multi_agent_trading_syst.Prelude.Float.{Float, nought}
use multi_agent_trading_syst.MarketData.Buffer.{CandleBuffer, size}
use multi_agent_trading_syst.Technical.Series.{
  Bands, Numpy, Computed, computed, and_then, nth, indexed,
}
use multi_agent_trading_syst.Learning.Indicators.{Maths}
use multi_agent_trading_syst.Learning.Features.{
  min_bars_required, Bars, bars_of, Precomputed, back, before, Bar, precomputed, all_of, bar_from,
  price_features, volume_features, momentum_features, volatility_features, trend_features,
  candle_features, time_features,
}

-- What is read of the arrays for the row of a bar: `xs[idx - lag]` for each lag, and the volumes before
-- the bar.
pub record View (F : Type 0) : Type 0 where
  pub opens : ℕ → Computed F
  pub highs : ℕ → Computed F
  pub lows : ℕ → Computed F
  pub closes : ℕ → Computed F
  pub volumes : ℕ → Computed F
  pub window : ℕ → List F
  pub rsi_14 : ℕ → Computed (Option F)
  pub rsi_7 : ℕ → Computed (Option F)
  pub hist : ℕ → Computed (Option F)
  pub atr_14 : ℕ → Computed (Option F)
  pub bands : ℕ → Computed (Option (Bands F))
  pub ema_9 : ℕ → Computed (Option F)
  pub ema_21 : ℕ → Computed (Option F)
  pub ema_50 : ℕ → Computed (Option F)

abbrev pub view : {F : Type 0} → ℕ → Bars F → Precomputed F → View F
view idx b s = record {
  opens = back idx b.opens;
  highs = back idx b.highs;
  lows = back idx b.lows;
  closes = back idx b.closes;
  volumes = back idx b.volumes;
  window = before idx b.volumes;
  rsi_14 = back idx s.rsi_14;
  rsi_7 = back idx s.rsi_7;
  hist = back idx s.hist;
  atr_14 = back idx s.atr_14;
  bands = back idx s.bands;
  ema_9 = back idx s.ema_9;
  ema_21 = back idx s.ema_21;
  ema_50 = back idx s.ema_50;
}

module _ {F : Type 0} ⦃f : Float F⦄ (np : Numpy F) (m : Maths F) where
  -- `np.nan_to_num(vec, nan=0.0, posinf=0.0, neginf=0.0)`
  abbrev pub nan_to_num : List F → List F
  nan_to_num xs = map (λ x. if m.is_finite x then x else nought) xs

  -- The vector of a bar, in the order of the names of the features.
  abbrev pub joined : (bar : Bar F) → List F → List F → List F → List F → List F → Option ℕ → List F
  unfolding candle_features time_features
  joined bar price volume momentum volatility trend timestamp =
      price
      ++ (volume
          ++ (momentum
              ++ (volatility
                  ++ (trend ++ (candle_features np m bar ++ time_features np m timestamp)))))

  -- The vector of `_row_from_precomputed` before the hygiene.
  unfoldable pub assembled : View F → Option ℕ → Computed (List F)
  unfolding price_features volume_features momentum_features volatility_features trend_features
  assembled v timestamp =
      let five = v.opens 0 ∷ v.highs 0 ∷ v.lows 0 ∷ v.closes 0 ∷ v.volumes 0 ∷ [] in
      and_then (and_then (all_of np m five) (bar_from np m)) (λ bar.
        and_then (price_features np m bar v.closes) (λ price.
          and_then (volume_features np m bar v.volumes v.window) (λ volume.
            and_then (momentum_features np m bar (v.rsi_14 0) (v.rsi_7 0) v.hist) (λ momentum.
              and_then (volatility_features np m bar (v.atr_14 0) (v.bands 0)) (λ volatility.
                and_then (trend_features np m bar (v.ema_9 0) (v.ema_21 0) (v.ema_50 0)) (λ trend.
                  computed (joined bar price volume momentum volatility trend timestamp)))))))

  -- `_row_from_precomputed`: no row in the warmup.
  unfoldable pub row_from_precomputed :
      ℕ → Bars F → Option ℕ → Precomputed F → Computed (Option (List F))
  unfolding assembled
  row_from_precomputed idx b timestamp s =
      if ltb idx (min_bars_required - 1)
      then computed none
      else and_then (assembled (view idx b s) timestamp) (λ vec. computed (some (nan_to_num vec)))

  -- `_features_for_index`
  unfoldable pub features_for_index : ℕ → Bars F → Option ℕ → Computed (Option (List F))
  unfolding row_from_precomputed
  features_for_index idx b timestamp = row_from_precomputed idx b timestamp (precomputed np m b)

  -- `build_features`, for the latest bar of a buffer.
  unfoldable pub build_features : CandleBuffer → Computed (Option (List F))
  unfolding features_for_index
  build_features buffer =
      let b = bars_of buffer.candles in
      if ltb (size buffer) min_bars_required
      then computed none
      else features_for_index (length b.closes - 1) b (last b.timestamps)

abbrev pub with_opens : {F : Type 0} → Option (List F) → Bars F → Bars F
with_opens none b = record b { opens = b.closes }
with_opens (some opens) b = record b { opens = opens }

-- The rows of a number of bars from `i` on, where a bar without a row is left out.
module _ {A : Type 0} where
  abbrev pub kept : Option A → List A → List A
  kept none rows = rows
  kept (some row) rows = row ∷ rows

  unfoldable pub rows_from : (ℕ → Computed (Option A)) → ℕ → ℕ → Computed (List A)
  rows_from row_at zero i = computed []
  rows_from row_at (suc n) i =
      let rest = rows_from row_at n (suc i) in
      and_then (row_at i) (λ row. and_then rest (λ rows. computed (kept row rows)))

module _ {F : Type 0} ⦃f : Float F⦄ (np : Numpy F) (m : Maths F) where
  -- A row of the loop of `build_feature_matrix`.
  unfoldable pub matrix_row : Bars F → ℕ → Computed (Option (List F))
  unfolding row_from_precomputed
  matrix_row b i =
      and_then (indexed (nth i b.timestamps))
        (λ t. row_from_precomputed np m i b (some t) (precomputed np m b))

  -- `build_feature_matrix`; the opens are the closes where none are given.
  unfoldable pub build_feature_matrix : Option (List F) → Bars F → Computed (List (List F))
  unfolding rows_from matrix_row
  build_feature_matrix opens arrays =
      let b = with_opens opens arrays in
      let n = length b.closes in
      let start = min_bars_required - 1 in
      if ltb n min_bars_required
      then computed []
      else and_then (rows_from (matrix_row b) (n - start) start)
          (λ rows. computed (map (nan_to_num np m) rows))
