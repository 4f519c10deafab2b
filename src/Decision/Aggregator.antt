-- ===== src/Decision/Aggregator.antt =====
-- agents/decision/signal_aggregator.py
use multi_agent_trading_syst.Prelude.{ℕ, ◌+◌, Bool, Option, none, some, if◌then◌else◌, not, ◌&&◌}
use multi_agent_trading_syst.Prelude.Float.{Float, nought, max_float, min_float}
use multi_agent_trading_syst.Models.Signals.{
  SignalDirection, TechnicalSignal, SentimentSignal, AggregatedSignal, strong_buy, buy, neutral,
  sell, strong_sell, is_expired, scalar_direction,
}

module _ {F : Type 0} ⦃f : Float F⦄ where
  -- `_scalar_to_direction`
  unfoldable pub scalar_to_direction : F → SignalDirection
  scalar_to_direction score =
      if f.le (f.lit 65 100) score
      then strong_buy
      else if f.le (f.lit 25 100) score
      then buy
      else if f.le score (f.neg (f.lit 65 100))
      then strong_sell
      else if f.le score (f.neg (f.lit 25 100))
      then sell
      else neutral

pub record SignalAggregator (F : Type 0) : Type 0 where
  pub technical_weight : F
  pub sentiment_weight : F
  pub min_confidence : F

-- The three running sums of the fusion.
pub record Sums (F : Type 0) : Type 0 where
  pub score_sum : F
  pub weight_sum : F
  pub conf_sum : F

module _ {F : Type 0} ⦃f : Float F⦄ where
  -- A signal takes part if it has not expired and its confidence reaches the minimum.
  abbrev pub survives : SignalAggregator F → ℕ → ℕ → F → Bool
  survives g now expires_at confidence =
      not (is_expired now expires_at) && f.le g.min_confidence confidence

  unfoldable pub valid_technical :
      SignalAggregator F → ℕ → Option (TechnicalSignal F) → Option (TechnicalSignal F)
  valid_technical g now none = none
  valid_technical g now (some t) = if survives g now t.expires_at t.confidence then some t else none

  unfoldable pub valid_sentiment :
      SignalAggregator F → ℕ → Option (SentimentSignal F) → Option (SentimentSignal F)
  valid_sentiment g now none = none
  valid_sentiment g now (some t) = if survives g now t.expires_at t.confidence then some t else none

  abbrev pub no_sums : Sums F
  no_sums = record { score_sum = nought; weight_sum = nought; conf_sum = nought }

  abbrev pub add_signal : F → SignalDirection → F → Sums F → Sums F
  add_signal weight direction confidence s = record {
    score_sum = f.add s.score_sum (f.mul (scalar_direction direction) weight);
    weight_sum = f.add s.weight_sum weight;
    conf_sum = f.add s.conf_sum (f.mul confidence weight);
  }

  abbrev pub add_technical : SignalAggregator F → Option (TechnicalSignal F) → Sums F → Sums F
  add_technical g none s = s
  add_technical g (some t) s = add_signal g.technical_weight t.direction t.confidence s

  abbrev pub add_sentiment : SignalAggregator F → Option (SentimentSignal F) → Sums F → Sums F
  add_sentiment g none s = s
  add_sentiment g (some t) s = add_signal g.sentiment_weight t.direction t.confidence s

  abbrev pub mean : F → F → F
  mean sum weight = if f.lt nought weight then f.div sum weight else nought

  -- `max(lo, min(1.0, x))`
  abbrev pub clamp : F → F → F
  clamp lo x = max_float lo (min_float (f.lit 1 1) x)

  -- The composite score before it is rounded.
  abbrev pub composite : Sums F → F
  composite s = clamp (f.neg (f.lit 1 1)) (mean s.score_sum s.weight_sum)

abbrev pub count_some {ℓ} : {A : Type ℓ} → Option A → ℕ
count_some none = 0
count_some (some _) = 1

abbrev pub count_lost {ℓ κ} : {A : Type ℓ} {B : Type κ} → Option A → Option B → ℕ
count_lost (some _) none = 1
count_lost _ _ = 0

module _ {F : Type 0} ⦃f : Float F⦄ where
  -- The fusion of the signals that survived; at least one did.
  unfoldable pub fuse :
      SignalAggregator F
      → ℕ
      → ℕ
      → ℕ
      → Option (TechnicalSignal F)
      → Option (SentimentSignal F)
      → AggregatedSignal F
  unfolding scalar_to_direction
  fuse g symbol total discarded t s =
      let sums = add_sentiment g s (add_technical g t no_sums) in
      let composite_score = composite sums in
      let confidence = clamp nought (mean sums.conf_sum sums.weight_sum) in
      record {
        symbol = symbol;
        direction = scalar_to_direction composite_score;
        confidence = f.round4 confidence;
        composite_score = f.round4 composite_score;
        technical_signal = t;
        sentiment_signal = s;
        technical_weight = g.technical_weight;
        sentiment_weight = g.sentiment_weight;
        total_signals = total;
        signals_discarded = discarded;
      }

  unfoldable pub fuse_valid :
      SignalAggregator F
      → ℕ
      → ℕ
      → ℕ
      → Option (TechnicalSignal F)
      → Option (SentimentSignal F)
      → Option (AggregatedSignal F)
  unfolding fuse
  fuse_valid g symbol total discarded none none = none
  fuse_valid g symbol total discarded (some t) s = some (fuse g symbol total discarded (some t) s)
  fuse_valid g symbol total discarded none (some s) =
      some (fuse g symbol total discarded none (some s))

  -- `aggregate`, at the time `now`.
  unfoldable pub aggregate :
      SignalAggregator F
      → ℕ
      → ℕ
      → Option (TechnicalSignal F)
      → Option (SentimentSignal F)
      → Option (AggregatedSignal F)
  unfolding valid_technical valid_sentiment fuse_valid
  aggregate g now symbol technical sentiment =
      let t = valid_technical g now technical in
      let s = valid_sentiment g now sentiment in
      fuse_valid g symbol (count_some technical + count_some sentiment)
        (count_lost technical t + count_lost sentiment s) t s
