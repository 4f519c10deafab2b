-- ===== src/Sync/Tests.antt =====
-- The ledger and the portfolio on a concrete order, opened and closed.
use multi_agent_trading_syst.Prelude.Dict.{get}
use multi_agent_trading_syst.Prelude.{◌*◌, ◌^◌, ◌≡◌, refl, true, false, some, none, [], ◌∷◌, arith}
use multi_agent_trading_syst.Prelude.Int.{pos}
use multi_agent_trading_syst.Prelude.Decimal.{unit}
use multi_agent_trading_syst.Prelude.Fixed.{decimal_of_fixed, Fixed, fixed_float}
use multi_agent_trading_syst.Models.Trade.{OrderSide, ExecutionResult}
use multi_agent_trading_syst.Samples.{assessment, whole, start, kept}
use multi_agent_trading_syst.Broker.State.{Broker}
use multi_agent_trading_syst.Broker.Order.{
  err, insufficient_balance, place_order, ok, finish_order, close_result, exit_price, order_ids,
}
use multi_agent_trading_syst.Broker.Tests.{bought, after, finishes, reference}
use multi_agent_trading_syst.Risk.Drawdown.{PortfolioState, open_position, position_side}
use multi_agent_trading_syst.Risk.Agent.{RiskAgent, apply_execution_result, released, mark_seen}
use multi_agent_trading_syst.Execution.Agent.{ExecutionAgent, failure_result, handle_assessment}
use multi_agent_trading_syst.Sync.Refusal.{refused-released}
use multi_agent_trading_syst.Risk.Tests.{agent_of, fresh}
use multi_agent_trading_syst.Sync.{InSync, opening-InSync, closing-InSync}

fresh-InSync : InSync 0 fresh start
unfolding position_side
fresh-InSync = record { cash = (omega arith, omega arith); costs = λ k. refl; sides = λ k. refl }

abbrev approved : RiskAgent Fixed
unfolding open_position
approved = agent_of (open_position 1 (pos (100 * unit)) (some OrderSide.buy) fresh)

opening-InSync_example : InSync 0 (apply_execution_result bought approved).1.portfolio after
unfolding bought open_position approved
opening-InSync_example =
    opening-InSync (assessment OrderSide.buy) reference whole 9 (200 * unit) refl (omega arith) 0
      (pos (100 * unit)) fresh approved start bought after fresh-InSync refl refl finishes refl

-- A portfolio with one position, and the ledger that agrees with it.
abbrev holding : Broker
holding = record {
  paper_mode = true;
  cash_balance = pos (800 * unit);
  positions = (1, kept) ∷ [];
  filled_orders = [];
}

abbrev ledger : PortfolioState
ledger = record {
  initial_balance_usd = pos (1000 * unit);
  current_balance_usd = pos (800 * unit);
  daily_start_balance_usd = pos (1000 * unit);
  open_positions = (1, pos (20020 * 10 ^ 22)) ∷ [];
  position_sides = (1, OrderSide.buy) ∷ [];
  daily_realized_pnl = pos 0;
  last_reset_date = 0;
}

holding-InSync : InSync 0 ledger holding
unfolding position_side
holding-InSync = record {
  cash = (omega arith, omega arith);
  costs = λ k. ground arith;
  sides = λ k. ground arith;
}

abbrev sold : ExecutionResult
unfolding close_result
sold =
    close_result kept 1 (exit_price OrderSide.buy reference)
      (order_ids 9 (assessment OrderSide.sell))

closed : Broker
unfolding finish_order
closed = (finish_order (assessment OrderSide.sell) reference whole 9 holding).1

closes : finish_order (assessment OrderSide.sell) reference whole 9 holding ≡ (ok sold, closed)
unfolding finish_order closed close_result sold
closes = refl

closing-InSync_example :
    InSync 1 (apply_execution_result sold (agent_of ledger)).1.portfolio closed
    × (get 1 (apply_execution_result sold (agent_of ledger)).1.portfolio.open_positions ≡ none)
    × (get 1 closed.positions ≡ none)
unfolding close_result
closing-InSync_example =
    closing-InSync (assessment OrderSide.sell) reference whole 9 0 kept (agent_of ledger) holding
      sold closed holding-InSync (refl, tt) (refl, tt) refl (omega arith) refl closes refl

-- A broker with ten dollars cannot pay for the order.
abbrev poor : ExecutionAgent
poor = record {
  broker = record {
    paper_mode = true;
    cash_balance = pos (10 * unit);
    positions = [];
    filled_orders = [];
  };
  trading_halted = false;
  last_price = [];
}

refuses :
    place_order (assessment OrderSide.buy) whole 9 poor.broker
    ≡ (err insufficient_balance, poor.broker)
unfolding place_order decimal_of_fixed
refuses = refl

refused-released_example :
    (handle_assessment (assessment OrderSide.buy) whole 9 poor
      ≡ (some (failure_result (assessment OrderSide.buy) 9), poor))
    × (apply_execution_result (failure_result (assessment OrderSide.buy) 9) approved
        ≡ (released, record approved { portfolio = fresh; seen_results = mark_seen 9 [] }))
unfolding approved
refused-released_example =
    refused-released (assessment OrderSide.buy) whole 9 (pos (100 * unit)) fresh approved poor
      insufficient_balance poor.broker refl refl refl refuses
      (record { no_cost = refl; no_side = refl }) refl refl
