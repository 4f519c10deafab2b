-- ===== src/Learning/FeatureTests.antt =====
-- The indicators of the features on short series, the matrix of a market of 61 bars, and the registry of
-- models.
use multi_agent_trading_syst.Prelude.{
  ℕ, zero, suc, ◌+◌, ◌*◌, ◌%◌, ◌≡◌, refl, true, none, some, List, [], ◌∷◌,
}
use multi_agent_trading_syst.Prelude.Int.{pos, ◌+ℤ◌, ◌-ℤ◌}
use multi_agent_trading_syst.Prelude.Fixed.{Fixed, fixed_float, one, div_fixed, mul_fixed}
use multi_agent_trading_syst.Models.Market.{OhlcvCandle}
use multi_agent_trading_syst.MarketData.Buffer.{CandleBuffer}
use multi_agent_trading_syst.Technical.Tests.{numpy}
use multi_agent_trading_syst.Backtest.Tests.{bar}
use multi_agent_trading_syst.Learning.Indicators.{Maths, ema, rsi, smoothed}
use multi_agent_trading_syst.Learning.Features.{bars_of, safe_div}
use multi_agent_trading_syst.Learning.Rows.{build_features, build_feature_matrix, rows_from}
use multi_agent_trading_syst.Prelude.Dict.{get}
use multi_agent_trading_syst.Learning.Versions.{ModelFiles, next_version, save_model}
use multi_agent_trading_syst.Learning.Saved.{Finds, save_model-IsAtomic}
use multi_agent_trading_syst.Learning.Parity.{at_bar, build_feature_matrix-agree}

-- Every number of this arithmetic is finite; the angles are not looked at.
abbrev maths : Maths Fixed
maths = record {
  log = λ x. x;
  sin = λ x. x;
  cos = λ x. x;
  pi = pos (3 * one);
  is_finite = λ x. true;
}

abbrev whole : ℕ → Fixed
whole n = pos (n * one)

-- The mean of the first three is 20, and 40 has the weight of one half.
ema_short :
    ema numpy 3 (whole 10 ∷ whole 20 ∷ whole 30 ∷ whole 40 ∷ [])
    ≡ none ∷ none ∷ some (whole 20) ∷ some (whole 30) ∷ []
unfolding ema smoothed div_fixed ◌+ℤ◌ ◌-ℤ◌ mul_fixed
ema_short = refl

-- On a flat market the first value is 0 and those after it are 50.
rsi_flat :
    rsi numpy maths 2 (whole 10 ∷ whole 10 ∷ whole 10 ∷ whole 10 ∷ [])
    ≡ none ∷ none ∷ some (whole 0) ∷ some (whole 50) ∷ []
unfolding rsi smoothed div_fixed ◌+ℤ◌ ◌-ℤ◌ mul_fixed
rsi_flat = refl

safe_div_zero : safe_div numpy maths (whole 10) (whole 0) (whole 1) ≡ whole 1
unfolding safe_div
safe_div_zero = refl

-- Bars whose prices rise and fall.
abbrev market : ℕ → ℕ → List OhlcvCandle
market zero time = []
market (suc n) time = bar time (100 + time * 7 % 11) ∷ market n (suc time)

abbrev buffer : CandleBuffer
buffer = record { symbol = 1; timeframe = 5; capacity = 500; candles = market 61 0 }

build_feature_matrix-agree_example :
    (let bars = bars_of buffer.candles in build_feature_matrix numpy maths (some bars.opens) bars)
    ≡ rows_from (λ i. build_features numpy maths (at_bar i buffer)) 2 59
build_feature_matrix-agree_example = build_feature_matrix-agree numpy maths buffer

-- Two versions of a model, the second of which is the latest.
abbrev files : ModelFiles ℕ
files = record {
  models = (1, 10) ∷ (2, 20) ∷ [];
  metrics = 2 ∷ 1 ∷ [];
  features = 2 ∷ 1 ∷ [];
  latest_pointer = some 2;
}

save_model-IsAtomic_example :
    (get (next_version files) files.models ≡ none)
    × (get 2 (save_model 3 30 files).models ≡ some 20)
    × Finds (save_model 3 30 files) 2 20
save_model-IsAtomic_example = save_model-IsAtomic files 2 20 30 3 refl refl
