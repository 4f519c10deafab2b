-- ===== src/Technical/Scoring.antt =====
-- agents/technical_analysis/signal_generator.py: the weights, the score and the agreement of the
-- readings.
use multi_agent_trading_syst.Prelude.{
  ℕ, Option, none, some, List, [], ◌∷◌, ◌++◌, if◌then◌else◌, length, map,
}
use multi_agent_trading_syst.Prelude.Float.{Float, nought, max_float}
use multi_agent_trading_syst.Models.Signals.{
  SignalDirection, TechnicalSignal, strong_buy, buy, neutral, sell, strong_sell,
}
use multi_agent_trading_syst.Technical.Series.{Computed, computed, refused}
use multi_agent_trading_syst.Technical.Results.{
  RsiResult, MacdResult, BollingerResult, EmaCrossResult, VolumeResult, AtrResult, VolatilityRegime,
}

pub data IndicatorName : Type 0 where
  rsi macd bollinger_bands ema_cross volume : IndicatorName

pub record IndicatorReading (F : Type 0) : Type 0 where
  pub name : IndicatorName
  pub value : F
  pub signal : SignalDirection
  pub weight : F

-- The signal, with the entries of its metadata that the model of a signal leaves out.
pub record Generated (F : Type 0) : Type 0 where
  pub signal : TechnicalSignal F
  pub timeframe : ℕ
  pub indicators : List (IndicatorReading F)
  pub composite_score : F
  pub indicator_count : ℕ
  pub total_weight : F
  pub agreement : F
  pub atr_value : Option F
  pub volatility_regime : Option VolatilityRegime

-- The results of the six indicators on a buffer, `none` where one could not be computed.
pub record Indicators (F : Type 0) : Type 0 where
  pub rsi_result : Option (RsiResult F)
  pub macd_result : Option (MacdResult F)
  pub bb_result : Option (BollingerResult F)
  pub ema_result : Option (EmaCrossResult F)
  pub volume_result : Option (VolumeResult F)
  pub atr_result : Option (AtrResult F)

-- The readings so far, their weighted scores and the weights together.
pub record Tally (F : Type 0) : Type 0 where
  pub readings : List (IndicatorReading F)
  pub weighted_scores : List F
  pub total_weight : F

-- `_try_compute`
abbrev pub try_compute : {A : Type 0} → Computed A → Option A
try_compute (computed x) = some x
try_compute (refused t) = none

module _ {F : Type 0} ⦃f : Float F⦄ where
  -- `INDICATOR_WEIGHTS`, and the weight of a volume reading.
  abbrev pub indicator_weight : IndicatorName → F
  indicator_weight macd = f.lit 30 100
  indicator_weight rsi = f.lit 25 100
  indicator_weight ema_cross = f.lit 25 100
  indicator_weight bollinger_bands = f.lit 20 100
  indicator_weight volume = nought

  -- `_direction_to_scalar`
  unfoldable pub direction_to_scalar : SignalDirection → F
  direction_to_scalar strong_buy = f.lit 1 1
  direction_to_scalar buy = f.lit 1 2
  direction_to_scalar neutral = nought
  direction_to_scalar sell = f.neg (f.lit 1 2)
  direction_to_scalar strong_sell = f.neg (f.lit 1 1)

  -- `_scalar_to_direction`
  unfoldable pub score_to_direction : F → SignalDirection
  score_to_direction score =
      if f.le (f.lit 65 100) score
      then strong_buy
      else if f.le (f.lit 25 100) score
      then buy
      else if f.le score (f.neg (f.lit 65 100))
      then strong_sell
      else if f.le score (f.neg (f.lit 25 100))
      then sell
      else neutral

  -- `sum(xs)`, from the left.
  abbrev pub sum_onto : F → List F → F
  sum_onto total [] = total
  sum_onto total (x ∷ xs) = sum_onto (f.add total x) xs

  abbrev mean_of : List F → F
  mean_of xs = f.div (sum_onto nought xs) (f.lit (length xs) 1)

  abbrev square_from : F → F → F
  square_from mean s = f.mul (f.sub s mean) (f.sub s mean)

  -- `_compute_agreement`
  unfoldable pub compute_agreement : List F → F
  compute_agreement [] = nought
  compute_agreement (_ ∷ []) = f.lit 8 10
  compute_agreement (s ∷ t ∷ more) =
      let scalars = s ∷ t ∷ more in
      let variance = mean_of (map (square_from (mean_of scalars)) scalars) in
      max_float nought (f.sub (f.lit 1 1) (f.sqrt variance))

  -- A turn of the loop over `indicator_map`: the value is `_extract_primary_value`.
  abbrev pub read : IndicatorName → F → SignalDirection → Tally F → Tally F
  unfolding direction_to_scalar
  read name value signal t =
      let weight = indicator_weight name in
      record {
        readings =
            t.readings
            ++ (record { name = name; value = value; signal = signal; weight = weight } ∷ []);
        weighted_scores = t.weighted_scores ++ (f.mul (direction_to_scalar signal) weight ∷ []);
        total_weight = f.add t.total_weight weight;
      }

  abbrev read_rsi : Option (RsiResult F) → Tally F → Tally F
  read_rsi none t = t
  read_rsi (some r) t = read rsi r.value r.signal t

  abbrev read_macd : Option (MacdResult F) → Tally F → Tally F
  read_macd none t = t
  read_macd (some r) t = read macd r.histogram r.signal t

  abbrev read_bollinger : Option (BollingerResult F) → Tally F → Tally F
  read_bollinger none t = t
  read_bollinger (some r) t = read bollinger_bands r.percent_b r.signal t

  abbrev read_ema : Option (EmaCrossResult F) → Tally F → Tally F
  read_ema none t = t
  read_ema (some r) t = read ema_cross r.spread_pct r.signal t

  abbrev no_tally : Tally F
  no_tally = record { readings = []; weighted_scores = []; total_weight = nought }

  unfoldable pub tally : Indicators F → Tally F
  unfolding direction_to_scalar
  tally i =
      read_ema i.ema_result
        (read_bollinger i.bb_result (read_macd i.macd_result (read_rsi i.rsi_result no_tally)))

  -- The score before it is rounded.
  abbrev pub composite_of : Tally F → F
  composite_of t =
      if f.lt nought t.total_weight
      then f.div (sum_onto nought t.weighted_scores) t.total_weight
      else nought

  abbrev pub agreement_of : Tally F → F
  unfolding compute_agreement direction_to_scalar
  agreement_of t = compute_agreement (map (λ r. direction_to_scalar r.signal) t.readings)
