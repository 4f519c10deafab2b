-- ===== src/Learning/Features.antt =====
-- The feature rows of agents/technical_analysis/ml/feature_engineer.py.
use multi_agent_trading_syst.Prelude.{
  ℕ, ◌+◌, ◌-◌, ◌/◌, ◌%◌, Bool, false, ◌&&◌, ◌||◌, Option, none, some, List, [], ◌∷◌, ltb,
  if◌then◌else◌, map,
}
use multi_agent_trading_syst.Prelude.Deque.{drop}
use multi_agent_trading_syst.Prelude.Float.{Float, nought, max_float, min_float}
use multi_agent_trading_syst.Models.Market.{OhlcvCandle}
use multi_agent_trading_syst.Technical.Series.{
  Bands, Numpy, Computed, computed, and_then, nth, take, indexed, abs,
}
use multi_agent_trading_syst.Learning.Indicators.{Maths, ema, rsi, atr, macd_hist, bollinger}

abbrev pub min_bars_required : ℕ
min_bars_required = 60

-- The arrays of a history; a time is in microseconds since 1970.
pub record Bars (F : Type 0) : Type 0 where
  pub opens : List F
  pub highs : List F
  pub lows : List F
  pub closes : List F
  pub volumes : List F
  pub timestamps : List ℕ

-- The arrays of a CandleBuffer.
abbrev pub bars_of : {F : Type 0} ⦃f : Float F⦄ → List OhlcvCandle → Bars F
bars_of ⦃f⦄ candles = record {
  opens = map (λ c. f.of_decimal c.open_price) candles;
  highs = map (λ c. f.of_decimal c.high) candles;
  lows = map (λ c. f.of_decimal c.low) candles;
  closes = map (λ c. f.of_decimal c.close) candles;
  volumes = map (λ c. f.of_decimal c.volume) candles;
  timestamps = map (λ c. c.timestamp) candles;
}

-- The series of indicators over a history.
pub record Precomputed (F : Type 0) : Type 0 where
  pub rsi_14 : List (Option F)
  pub rsi_7 : List (Option F)
  pub hist : List (Option F)
  pub atr_14 : List (Option F)
  pub bands : List (Option (Bands F))
  pub ema_9 : List (Option F)
  pub ema_21 : List (Option F)
  pub ema_50 : List (Option F)

-- `xs[idx - lag]` for each lag, and `xs[idx - n : idx]`.
abbrev pub back : {A : Type 0} → ℕ → List A → ℕ → Computed A
back idx xs lag = indexed (nth (idx - lag) xs)

abbrev pub before : {A : Type 0} → ℕ → List A → ℕ → List A
before idx xs n = if ltb idx n then take idx xs else take n (drop (idx - n) xs)

-- The five numbers of the bar that the row is for.
pub record Bar (F : Type 0) : Type 0 where
  pub open_ : F
  pub high : F
  pub low : F
  pub close : F
  pub volume : F

module _ {F : Type 0} ⦃f : Float F⦄ (np : Numpy F) (m : Maths F) where
  abbrev pub precomputed : Bars F → Precomputed F
  precomputed b = record {
    rsi_14 = rsi np m 14 b.closes;
    rsi_7 = rsi np m 7 b.closes;
    hist = macd_hist np 12 26 9 b.closes;
    atr_14 = atr np 14 b.highs b.lows b.closes;
    bands = bollinger np 20 (f.lit 2 1) b.closes;
    ema_9 = ema np 9 b.closes;
    ema_21 = ema np 21 b.closes;
    ema_50 = ema np 50 b.closes;
  }

  abbrev is_zero : F → Bool
  is_zero x = f.le x nought && f.le nought x

  -- `_safe_div`
  unfoldable pub safe_div : F → F → F → F
  safe_div num denom default =
      if m.is_finite denom && (if is_zero denom then false else m.is_finite (f.div num denom))
      then f.div num denom
      else default

  -- The value of each element, or the first trouble.
  abbrev pub all_of : List (Computed F) → Computed (List F)
  all_of [] = computed []
  all_of (c ∷ cs) = and_then c (λ x. and_then (all_of cs) (λ xs. computed (x ∷ xs)))

  -- The bar `idx`, read from its arrays.
  abbrev pub bar_from : List F → Computed (Bar F)
  bar_from (open_ ∷ high ∷ low ∷ close ∷ volume ∷ []) =
      computed (record { open_ = open_; high = high; low = low; close = close; volume = volume })
  bar_from _ = indexed none

  -- `ret`: the return over a number of bars.
  unfoldable pub ret : F → (ℕ → Computed F) → ℕ → Computed F
  unfolding safe_div
  ret close closes lag =
      and_then (closes lag) (λ past. computed (safe_div (f.sub close past) past nought))

  abbrev log_return : F → F → F
  log_return close prev_close =
      if f.lt nought close && f.lt nought prev_close then m.log (f.div close prev_close) else nought

  -- The price features.
  unfoldable pub price_features : Bar F → (ℕ → Computed F) → Computed (List F)
  unfolding ret safe_div
  price_features bar closes = all_of (
      ret bar.close closes 1
      ∷ ret bar.close closes 3
      ∷ ret bar.close closes 5
      ∷ ret bar.close closes 10
      ∷ ret bar.close closes 20
      ∷ and_then (closes 1) (λ prev_close. computed (log_return bar.close prev_close))
      ∷ computed (safe_div (f.sub bar.high bar.low) bar.close nought)
      ∷ computed (safe_div (f.sub bar.close bar.low) (f.sub bar.high bar.low) (f.lit 1 2))
      ∷ [])

  -- The volume features, from the volumes and the two windows before the bar.
  unfoldable pub volume_features : Bar F → (ℕ → Computed F) → (ℕ → List F) → Computed (List F)
  unfolding safe_div
  volume_features bar volumes window = and_then (volumes 5) (λ vol_lag5. computed (
      safe_div bar.volume (np.mean (window 5)) (f.lit 1 1)
      ∷ safe_div bar.volume (np.mean (window 20)) (f.lit 1 1)
      ∷ safe_div (f.sub bar.volume vol_lag5) vol_lag5 nought
      ∷ []))

  -- A value of an indicator, or a default for NaN.
  abbrev or_default : {A : Type 0} → A → Option A → A
  or_default d none = d
  or_default d (some x) = x

  abbrev reading : F → Computed (Option F) → Computed F
  reading d c = and_then c (λ x. computed (or_default d x))

  abbrev rsi_norm : F → F
  rsi_norm x = f.div (f.sub x (f.lit 50 1)) (f.lit 50 1)

  abbrev crossed : Option F → Option F → Bool
  crossed (some prev_h) (some curr_h) =
      (f.le prev_h nought && f.lt nought curr_h) || (f.le nought prev_h && f.lt curr_h nought)
  crossed _ _ = false

  -- `macd_signal_cross`: 1 if the histogram changed its sign at one of these lags.
  unfoldable pub signal_cross : (ℕ → Computed (Option F)) → List ℕ → Computed F
  signal_cross hist [] = computed nought
  signal_cross hist (lag ∷ lags) =
      let rest = signal_cross hist lags in
      and_then (hist lag) (λ prev_h.
        and_then (hist (lag - 1))
          (λ curr_h. if crossed prev_h curr_h then computed (f.lit 1 1) else rest))

  -- The momentum features.
  unfoldable pub momentum_features :
      Bar F
      → Computed (Option F)
      → Computed (Option F)
      → (ℕ → Computed (Option F))
      → Computed (List F)
  unfolding safe_div signal_cross
  momentum_features bar rsi_14 rsi_7 hist = all_of (
      and_then (reading (f.lit 50 1) rsi_14) (λ x. computed (rsi_norm x))
      ∷ and_then (reading (f.lit 50 1) rsi_7) (λ x. computed (rsi_norm x))
      ∷ and_then (reading nought (hist 0)) (λ h. computed (safe_div h bar.close nought))
      ∷ signal_cross hist (1 ∷ 2 ∷ 3 ∷ [])
      ∷ [])

  -- The volatility features.
  unfoldable pub volatility_features :
      Bar F → Computed (Option F) → Computed (Option (Bands F)) → Computed (List F)
  unfolding safe_div
  volatility_features bar atr_14 bands = and_then (reading nought atr_14) (λ atr_now.
      and_then bands (λ band.
        let flat : Bands F = record { upper = bar.close; middle = bar.close; lower = bar.close } in
        let b = or_default flat band in
        let width = f.sub b.upper b.lower in
        computed (
          safe_div atr_now bar.close nought
          ∷ safe_div width b.middle nought
          ∷ safe_div (f.sub bar.close b.lower) width (f.lit 1 2)
          ∷ [])))

  -- The trend features.
  unfoldable pub trend_features :
      Bar F → Computed (Option F) → Computed (Option F) → Computed (Option F) → Computed (List F)
  unfolding safe_div
  trend_features bar ema_9 ema_21 ema_50 = and_then (reading bar.close ema_9) (λ e9.
      and_then (reading bar.close ema_21) (λ e21. and_then (reading bar.close ema_50) (λ e50.
        let ema_9_dist = safe_div (f.sub bar.close e9) bar.close nought in
        computed (
          ema_9_dist
          ∷ safe_div (f.sub bar.close e21) bar.close nought
          ∷ safe_div (f.sub bar.close e50) bar.close nought
          ∷ (if f.lt e21 e9 then f.lit 1 1 else f.neg (f.lit 1 1))
          ∷ abs ema_9_dist
          ∷ []))))

  -- The features of the candle itself.
  unfoldable pub candle_features : Bar F → List F
  unfolding safe_div
  candle_features bar =
      let hl_range = f.sub bar.high bar.low in
      safe_div (abs (f.sub bar.close bar.open_)) hl_range nought
      ∷ safe_div (f.sub bar.high (max_float bar.open_ bar.close)) hl_range nought
      ∷ safe_div (f.sub (min_float bar.open_ bar.close) bar.low) hl_range nought
      ∷ []

  -- `2 * math.pi * n / d`
  abbrev angle : ℕ → ℕ → F
  angle n d = f.div (f.mul (f.mul (f.lit 2 1) m.pi) (f.lit n 1)) (f.lit d 1)

  -- The time features; 1970 began on a Thursday.
  unfoldable pub time_features : Option ℕ → List F
  time_features none = nought ∷ nought ∷ nought ∷ nought ∷ []
  time_features (some t) =
      let hour = t / 3600000000 % 24 in
      let dow = (t / 86400000000 + 3) % 7 in
      m.sin (angle hour 24) ∷ m.cos (angle hour 24) ∷ m.sin (angle dow 7) ∷ m.cos (angle dow 7) ∷ []
