-- ===== src/Learning/WalkForward.antt =====
-- backtest/walkforward.py. The rows of the feature matrix and the classifier are parameters; the first
-- row belongs to the bar `start`.
use multi_agent_trading_syst.Prelude.{
  ℕ, zero, suc, ◌+◌, ◌-◌, ◌*◌, ◌/◌, Bool, false, not, ◌&&◌, Option, none, some, List, [], ◌∷◌, leb,
  ltb, if◌then◌else◌, length, map,
}
use multi_agent_trading_syst.Prelude.Deque.{drop}
use multi_agent_trading_syst.Prelude.Float.{Float}
use multi_agent_trading_syst.Models.Trade.{OrderSide}
use multi_agent_trading_syst.Models.Market.{OhlcvCandle}
use multi_agent_trading_syst.Technical.Series.{take, nth}
use multi_agent_trading_syst.Backtest.Engine.{BacktestConfig, Replay, run_with_decider}
use multi_agent_trading_syst.Learning.Labels.{
  Label, sell_label, hold_label, buy_label, Distribution, label_distribution, LabelGenerator,
  labels,
}

pub record WalkForwardParams (F : Type 0) : Type 0 where
  pub horizon : ℕ
  pub threshold : F
  pub initial_train : ℕ
  pub retrain_every : ℕ
  pub min_train_samples : ℕ
  pub directional_threshold : F
  pub calibrate : Bool

-- The labels of the strategy.
abbrev pub label_generator_of : {F : Type 0} → WalkForwardParams F → LabelGenerator F
label_generator_of wf = record { horizon = wf.horizon; threshold = wf.threshold }

-- `to_arrays(candles)["closes"]`
abbrev pub closes_of : {F : Type 0} ⦃f : Float F⦄ → List OhlcvCandle → List F
closes_of ⦃f⦄ candles = map (λ c. f.of_decimal c.close) candles

-- A row with its label and its weight.
pub record Sample (R F : Type 0) : Type 0 where
  pub row : R
  pub label : Label
  pub weight : F

-- The probabilities of SELL, HOLD and BUY.
pub record Proba (F : Type 0) : Type 0 where
  pub sell : F
  pub hold : F
  pub buy : F

-- `XGBClassifier.fit`, `CalibratedClassifierCV.fit` on a held-out part, where `none` is an exception,
-- and `predict_proba`.
pub record Classifier (R M F : Type 0) : Type 0 where
  pub fit : List (Sample R F) → M
  pub calibrated : M → List (Sample R F) → Option M
  pub predict_proba : M → R → Proba F

pub record History (R : Type 0) : Type 0 where
  pub start : ℕ
  pub rows : List R
  pub y_full : List (Option Label)

-- The history of closes with their labels.
unfoldable pub history :
    {R F : Type 0} ⦃f : Float F⦄ → LabelGenerator F → ℕ → List R → List F → History R
unfolding labels
history g start rows closes = record { start = start; rows = rows; y_full = labels g closes }

pub record WalkForwardModel (M : Type 0) : Type 0 where
  pub model : Option M
  pub last_train : ℕ
  pub retrains : ℕ

abbrev pub no_model : {M : Type 0} → WalkForwardModel M
no_model = record { model = none; last_train = 0; retrains = 0 }

module _ {R : Type 0} where
  -- The rows whose label is a number.
  abbrev pub labelled : List R → List (Option Label) → List (R × Label)
  labelled (x ∷ xs) (some l ∷ ls) = (x, l) ∷ labelled xs ls
  labelled (x ∷ xs) (none ∷ ls) = labelled xs ls
  labelled _ _ = []

  -- What a model may be trained on at the bar i: the labels that are realised by then.
  unfoldable pub train_set : ℕ → ℕ → History R → List (R × Label)
  train_set horizon i h =
      let last_row = i - horizon - h.start in
      if ltb i (horizon + h.start)
      then []
      else labelled (take (last_row + 1) h.rows) (take (last_row + 1) (drop h.start h.y_full))

  -- `_row_for_bar`
  unfoldable pub row_for_bar : ℕ → History R → Option R
  row_for_bar bar h = if ltb bar h.start then none else nth (bar - h.start) h.rows

abbrev count_of : Label → Distribution → ℕ
count_of sell_label d = d.sell
count_of hold_label d = d.hold
count_of buy_label d = d.buy

abbrev present : ℕ → ℕ
present zero = 0
present (suc n) = 1

-- `len(np.unique(y))`
abbrev pub class_count : Distribution → ℕ
class_count d = present d.sell + present d.hold + present d.buy

module _ {R F : Type 0} ⦃f : Float F⦄ where
  -- The weight of a sample is inverse to the count of its class.
  abbrev weighted : Distribution → List (R × Label) → List (Sample R F)
  weighted d [] = []
  weighted d (e ∷ es) =
      record { row = e.0; label = e.1; weight = f.lit d.total (3 * count_of e.1 d) } ∷ weighted d es

  unfoldable pub samples : List (R × Label) → List (Sample R F)
  unfolding label_distribution
  samples es = weighted (label_distribution (map (λ e. some e.1) es)) es

module _ {R M F : Type 0} ⦃f : Float F⦄ (k : Classifier R M F) (wf : WalkForwardParams F) where
  abbrev model_or : M → Option M → M
  model_or m none = m
  model_or m (some c) = c

  -- The model of a training set: calibrated on its last fifth if that is asked for and it is large.
  unfoldable pub train : List (Sample R F) → M
  train xs =
      let m = k.fit xs in
      let cut = length xs * 4 / 5 in
      if wf.calibrate && leb 200 (length xs)
      then model_or m (k.calibrated (k.fit (take cut xs)) (drop cut xs))
      else m

  abbrev is_fresh : ℕ → WalkForwardModel M → Option M → Bool
  is_fresh i s none = false
  is_fresh i s (some m) = ltb (i - s.last_train) wf.retrain_every

  -- `_maybe_retrain`
  unfoldable pub maybe_retrain : History R → ℕ → WalkForwardModel M → WalkForwardModel M
  unfolding train_set samples train label_distribution
  maybe_retrain h i s =
      let es = train_set wf.horizon i h in
      if is_fresh i s s.model
      then s
      else if ltb i (wf.horizon + h.start)
      then s
      else if ltb (length es) wf.min_train_samples
      then s
      else if ltb (class_count (label_distribution (map (λ e. some e.1) es))) 2
      then s
      else record { model = some (train (samples es)); last_train = i; retrains = s.retrains + 1 }

  -- `np.argmax`: the first of the largest decides, if it reaches the threshold.
  unfoldable pub side_for : Proba F → Option OrderSide
  side_for p =
      let sells = not (f.lt p.sell p.hold) && not (f.lt p.sell p.buy) in
      let holds = not (f.lt p.hold p.buy) in
      if sells
      then (if f.lt p.sell wf.directional_threshold then none else some OrderSide.sell)
      else if holds
      then none
      else if f.lt p.buy wf.directional_threshold
      then none
      else some OrderSide.buy

  abbrev predicted : Option M → Option R → Option OrderSide
  unfolding side_for
  predicted (some m) (some x) = side_for (k.predict_proba m x)
  predicted _ _ = none

  -- `decide` at the bar i.
  unfoldable pub decide : History R → ℕ → WalkForwardModel M → Option OrderSide × WalkForwardModel M
  unfolding maybe_retrain row_for_bar predicted
  decide h i s =
      let s' = maybe_retrain h i s in
      if ltb i wf.initial_train then (none, s) else (predicted s'.model (row_for_bar i h), s')

  -- The state when the bar i is reached, after a decision at every bar before.
  unfoldable pub reached : History R → ℕ → WalkForwardModel M
  unfolding decide
  reached h zero = no_model
  reached h (suc i) = (decide h i (reached h i)).1

  -- `run_walkforward_ml` for the rows of the feature matrix.
  unfoldable pub run_walkforward_ml : BacktestConfig F → ℕ → List R → List OhlcvCandle → Replay F
  unfolding run_with_decider decide reached history
  run_walkforward_ml g start rows candles =
      let h = history (label_generator_of wf) start rows (closes_of candles) in
      run_with_decider g candles (λ b i. (decide h i (reached h i)).0)
