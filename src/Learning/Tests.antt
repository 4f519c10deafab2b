-- ===== src/Learning/Tests.antt =====
-- The walk-forward strategy on a market of six bars, and runs of the labels and the metrics.
use multi_agent_trading_syst.Prelude.{
  ℕ, ◌*◌, ◌/◌, ◌≡◌, refl, false, none, some, List, [], ◌∷◌, ◌++◌, length,
}
use multi_agent_trading_syst.Prelude.Int.{pos, ◌-ℤ◌, ◌*ℤ◌}
use multi_agent_trading_syst.Prelude.Decimal.{half_even, half_even_ℤ}
use multi_agent_trading_syst.Prelude.Fixed.{Fixed, fixed_float, one, div_fixed}
use multi_agent_trading_syst.Models.Market.{OhlcvCandle}
use multi_agent_trading_syst.Backtest.Engine.{EquityPoint}
use multi_agent_trading_syst.Backtest.Lookahead.{IsPrefix}
use multi_agent_trading_syst.Backtest.Metrics.{max_drawdown}
use multi_agent_trading_syst.Backtest.Tests.{bar, config}
use multi_agent_trading_syst.Learning.Labels.{labels, sell_label, hold_label, buy_label}
use multi_agent_trading_syst.Learning.WalkForward.{
  Classifier, WalkForwardParams, label_generator_of, run_walkforward_ml,
}
use multi_agent_trading_syst.Learning.Lookahead.{run_walkforward_ml-past}

-- A model is the number of its samples, and buys.
abbrev counting : Classifier ℕ ℕ Fixed
counting = record {
  fit = λ xs. length xs;
  calibrated = λ m xs. none;
  predict_proba = λ m x. record { sell = pos 0; hold = pos 0; buy = pos one };
}

abbrev params : WalkForwardParams Fixed
params = record {
  horizon = 1;
  threshold = pos (one / 100);
  initial_train = 0;
  retrain_every = 2;
  min_train_samples = 2;
  directional_threshold = pos (4 * one / 10);
  calibrate = false;
}

-- The last label is not known; the others are of the next close.
labels_next :
    labels
      (label_generator_of params)
      (pos (100 * one) ∷ pos (110 * one) ∷ pos (110 * one) ∷ pos (90 * one) ∷ [])
    ≡ some buy_label ∷ some hold_label ∷ some sell_label ∷ none ∷ []
unfolding labels div_fixed half_even_ℤ half_even ◌*ℤ◌ ◌-ℤ◌
labels_next = refl

-- From 120 to 90 is a quarter, and the curve stays below its peak for two bars.
drawdown_quarter :
    max_drawdown (pos (100 * one) ∷ pos (120 * one) ∷ pos (90 * one) ∷ pos (110 * one) ∷ [])
    ≡ (pos (one / 4), 2)
unfolding max_drawdown div_fixed half_even_ℤ half_even ◌*ℤ◌ ◌-ℤ◌
drawdown_quarter = refl

abbrev past : List OhlcvCandle
past = bar 0 100 ∷ bar 1 110 ∷ bar 2 105 ∷ bar 3 115 ∷ bar 4 115 ∷ []

run_walkforward_ml-past_example :
    (shown : List (EquityPoint Fixed)) × (length shown ≡ 5)
    × IsPrefix shown
        (run_walkforward_ml counting params config 0
          (0 ∷ 1 ∷ 2 ∷ 3 ∷ 4 ∷ 5 ∷ [])
          (past ++ (bar 5 200 ∷ []))).curve
    × IsPrefix shown
        (run_walkforward_ml counting params config 0
          (0 ∷ 1 ∷ 2 ∷ 3 ∷ 4 ∷ 7 ∷ [])
          (past ++ (bar 5 50 ∷ []))).curve
run_walkforward_ml-past_example =
    run_walkforward_ml-past counting params config 0 (0 ∷ 1 ∷ 2 ∷ 3 ∷ 4 ∷ 5 ∷ [])
      (0 ∷ 1 ∷ 2 ∷ 3 ∷ 4 ∷ 7 ∷ []) past (bar 5 200) (bar 5 50) [] [] refl
