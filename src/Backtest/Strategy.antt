-- ===== src/Backtest/Strategy.antt =====
-- backtest/engine.py: `run_strategy`, and backtest/benchmarks.py. Random numbers are arguments.
use multi_agent_trading_syst.Prelude.{
  ℕ, suc, ◌+◌, ◌-◌, true, false, Option, none, some, List, [], ◌∷◌, ◌++◌, ltb, if◌then◌else◌,
  length,
}
use multi_agent_trading_syst.Prelude.Float.{Float, nought, min_float}
use multi_agent_trading_syst.Models.Market.{OhlcvCandle}
use multi_agent_trading_syst.Models.Signals.{is_bullish, is_bearish}
use multi_agent_trading_syst.Models.Trade.{OrderSide}
use multi_agent_trading_syst.MarketData.Buffer.{CandleBuffer, size}
use multi_agent_trading_syst.Technical.Series.{Libraries}
use multi_agent_trading_syst.Technical.Results.{TechnicalAnalysisSettings}
use multi_agent_trading_syst.Technical.Scoring.{Generated}
use multi_agent_trading_syst.Technical.Generator.{generate}
use multi_agent_trading_syst.Backtest.Engine.{
  BacktestConfig, EquityPoint, Replay, init, run_with_decider,
}

abbrev last_of : OhlcvCandle → List OhlcvCandle → OhlcvCandle
last_of c [] = c
last_of c (d ∷ ds) = last_of d ds

module _ {F : Type 0} ⦃f : Float F⦄ where
  abbrev side_of : F → Option (Generated F) → Option OrderSide
  side_of min_confidence none = none
  side_of min_confidence (some g) =
      if f.lt g.signal.confidence min_confidence
      then none
      else if is_bullish g.signal.direction
      then some OrderSide.buy
      else if is_bearish g.signal.direction
      then some OrderSide.sell
      else none

  -- `_make_signal_fn` for the rules: the generator's own threshold is set to zero.
  unfoldable pub signal_fn :
      TechnicalAnalysisSettings F → Libraries F → ℕ → F → CandleBuffer → Option OrderSide
  unfolding generate
  signal_fn cfg lib now min_confidence b =
      side_of min_confidence (generate (record cfg { min_signal_confidence = nought }) lib now b)

  -- `run_strategy`; the time only enters the expiry of signals, which is not read here.
  unfoldable pub run_strategy :
      BacktestConfig F
      → TechnicalAnalysisSettings F
      → Libraries F
      → ℕ
      → F
      → List OhlcvCandle
      → Replay F
  unfolding run_with_decider signal_fn
  run_strategy g cfg lib now min_confidence candles =
      run_with_decider g candles (λ b i. signal_fn cfg lib now min_confidence b)

  abbrev hold_points : F → List OhlcvCandle → List (EquityPoint F)
  hold_points qty [] = []
  hold_points qty (c ∷ cs) =
      record {
        timestamp = c.timestamp;
        equity = f.mul qty (f.of_decimal c.close);
        in_market = true;
      }
      ∷ hold_points qty cs

  -- The curve of `buy_and_hold`; the metrics are computed from it.
  unfoldable pub buy_and_hold : BacktestConfig F → List OhlcvCandle → List (EquityPoint F)
  buy_and_hold g [] = []
  buy_and_hold g (c ∷ cs) =
      let entry_fill = f.mul (f.of_decimal c.close) (f.add (f.lit 1 1) g.slippage_pct) in
      let invested = f.mul g.initial_balance (f.sub (f.lit 1 1) g.fee_pct) in
      let qty = if f.lt nought entry_fill then f.div invested entry_fill else nought in
      let z = last_of c cs in
      let exit_fill = f.mul (f.of_decimal z.close) (f.sub (f.lit 1 1) g.slippage_pct) in
      let point : EquityPoint F = record {
        timestamp = z.timestamp;
        equity = f.mul (f.mul qty exit_fill) (f.sub (f.lit 1 1) g.fee_pct);
        in_market = false;
      } in
      init (hold_points qty (c ∷ cs)) ++ (point ∷ [])

  -- The random numbers that a run draws at a bar: whether to enter, and on which side.
  unfoldable pub random_decision : F → (ℕ → F × F) → CandleBuffer → ℕ → Option OrderSide
  random_decision entry_prob draws b i =
      let (enter, side) = draws i in
      if ltb (size b) 60
      then none
      else if f.lt enter entry_prob
      then (if f.lt side (f.lit 1 2) then some OrderSide.buy else some OrderSide.sell)
      else none

  -- The chance to enter at a bar that makes the entries as many as the trades wanted.
  unfoldable pub entry_probability : ℕ → ℕ → F
  entry_probability n target_trades =
      let warm_bars = if ltb (n - 60) 1 then 1 else n - 60 in
      let wanted = if ltb target_trades 1 then 1 else target_trades in
      min_float (f.lit 1 1) (f.lit wanted warm_bars)

  -- The runs of `random_entry`, each with draws of its own.
  unfoldable pub random_runs :
      BacktestConfig F → List OhlcvCandle → F → List (ℕ → F × F) → List (Replay F)
  unfolding run_with_decider random_decision
  random_runs g candles entry_prob [] = []
  random_runs g candles entry_prob (draws ∷ more) =
      run_with_decider g candles (random_decision entry_prob draws)
      ∷ random_runs g candles entry_prob more

  abbrev pub beaten : F → List F → ℕ
  beaten x [] = 0
  beaten x (r ∷ rs) = if f.lt r x then suc (beaten x rs) else beaten x rs

  -- `p_value_vs_random` before it is rounded.
  unfoldable pub p_value_vs_random : F → List F → F
  p_value_vs_random strategy_return final_returns =
      let k = length final_returns in
      let beats = beaten strategy_return final_returns in f.lit (k - beats + 1) (k + 1)
