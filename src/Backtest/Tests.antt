-- ===== src/Backtest/Tests.antt =====
-- A backtest of three candles with a decider that always buys.
use multi_agent_trading_syst.Prelude.{ℕ, ◌*◌, ◌/◌, ◌≡◌, Option, some, List, [], ◌∷◌, ◌++◌, length}
use multi_agent_trading_syst.Prelude.Int.{pos}
use multi_agent_trading_syst.Prelude.Decimal.{unit}
use multi_agent_trading_syst.Prelude.Fixed.{Fixed, fixed_float, one}
use multi_agent_trading_syst.Models.Market.{OhlcvCandle}
use multi_agent_trading_syst.Models.Trade.{OrderSide}
use multi_agent_trading_syst.MarketData.Buffer.{CandleBuffer}
use multi_agent_trading_syst.Backtest.Engine.{BacktestConfig, EquityPoint, run_with_decider}
use multi_agent_trading_syst.Backtest.Accounting.{IsFinished, run_with_decider-IsFinished}
use multi_agent_trading_syst.Backtest.Lookahead.{IsPrefix, no_lookahead}

abbrev pub config : BacktestConfig Fixed
config = record {
  initial_balance = pos (10000 * one);
  fee_pct = pos (one / 1000);
  slippage_pct = pos (5 * one / 10000);
  max_position_pct = pos (2 * one / 100);
  min_order_usd = pos (10 * one);
  max_order_usd = pos (1000 * one);
  stop_loss_pct = pos (3 * one / 100);
  take_profit_pct = pos (8 * one / 100);
}

-- A candle at a time, opening and closing at a price in dollars.
abbrev pub bar : ℕ → ℕ → OhlcvCandle
bar time price = record {
  symbol = 1;
  timeframe = 5;
  timestamp = time;
  open_price = pos (price * unit);
  high = pos (price * unit);
  low = pos (price * unit);
  close = pos (price * unit);
  volume = pos unit;
  received_at = time;
}

abbrev buy_always : CandleBuffer → ℕ → Option OrderSide
buy_always b i = some OrderSide.buy

run_with_decider-IsFinished_example :
    IsFinished config
      (pos (10000 * one))
      (run_with_decider config (bar 0 100 ∷ bar 1 101 ∷ bar 2 120 ∷ []) buy_always)
run_with_decider-IsFinished_example =
    run_with_decider-IsFinished config (bar 0 100) (bar 1 101 ∷ bar 2 120 ∷ []) buy_always

no_lookahead_example :
    (shown : List (EquityPoint Fixed)) × (length shown ≡ 2)
    × IsPrefix shown
        (run_with_decider config
          ((bar 0 100 ∷ bar 1 101 ∷ []) ++ (bar 2 120 ∷ []))
          buy_always).curve
    × IsPrefix shown
        (run_with_decider config ((bar 0 100 ∷ bar 1 101 ∷ []) ++ (bar 2 50 ∷ [])) buy_always).curve
no_lookahead_example =
    no_lookahead config buy_always (bar 0 100 ∷ bar 1 101 ∷ []) (bar 2 120) (bar 2 50) [] []
