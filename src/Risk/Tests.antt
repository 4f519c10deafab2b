-- ===== src/Risk/Tests.antt =====
-- The Risk agent on concrete ledgers: runs, and the theorems at inputs that meet their hypotheses.
use multi_agent_trading_syst.Prelude.Dict.{has_key}
use multi_agent_trading_syst.Risk.Agent.{HaltBus, announced}
use multi_agent_trading_syst.Risk.Latch.{IsAnnounced, limit_breached}
use multi_agent_trading_syst.Prelude.{not, ◌&&◌}
use multi_agent_trading_syst.Prelude.{
  ◌*◌, ◌/◌, ◌^◌, ◌≡◌, refl, true, false, none, some, List, [], ◌∷◌, All,
}
use multi_agent_trading_syst.Prelude.Int.{pos, ◌+ℤ◌, ◌-ℤ◌}
use multi_agent_trading_syst.Prelude.Decimal.{unit, mul_decimal, div_decimal}
use multi_agent_trading_syst.Prelude.Fixed.{Fixed, fixed_float, one, decimal_of_fixed, div_fixed}
use multi_agent_trading_syst.Models.Trade.{
  OrderSide, OrderStatus, OrderType, RiskDecision, ExecutionResult, is_approved,
}
use multi_agent_trading_syst.Samples.{proposal}
use multi_agent_trading_syst.Risk.Drawdown.{
  PortfolioState, open_position, portfolio_value_usd, position_side, daily_loss_limit_breached,
  total_drawdown_limit_breached,
}
use multi_agent_trading_syst.Risk.Sizer.{PositionSizer, calculate, get_stop_loss_pct}
use multi_agent_trading_syst.Risk.Agent.{
  RiskSettings, RiskAgent, evaluate, apply_execution_result, reconciled, actual_cost, mark_seen,
  snapshot,
}
use multi_agent_trading_syst.Risk.Approval.{IsCleared}
use multi_agent_trading_syst.Risk.Safety.{is_halted, daily_check, reset_agent, evaluate-approved}
use multi_agent_trading_syst.Risk.Value.{IsKept, evaluate-IsKept}
use multi_agent_trading_syst.Risk.Latch.{
  RiskEvent, proposed, executed, handle, handle-halted, handle-breached, IsHaltRejection,
  is_breached,
}
use multi_agent_trading_syst.Risk.Ledger.{
  apply_execution_result-value, closing_pnl, is_closing_fill,
}
use multi_agent_trading_syst.Risk.Reservation.{IsFlat, apply-reconciled}

abbrev sizer : PositionSizer Fixed
sizer = record {
  max_position_pct = pos (one / 10);
  min_order_usd = pos (10 * one);
  max_order_usd = pos (500 * one);
  risk_per_trade_pct = pos (one / 100);
}

-- Limits of 3% a day and 10% in total, five positions, and signals of up to two minutes.
abbrev settings : RiskSettings Fixed
settings = record {
  max_daily_loss_pct = pos (3 * one / 100);
  max_total_drawdown_pct = pos (10 * one / 100);
  max_open_positions = 5;
  max_data_staleness_seconds = 120;
  sizer = sizer;
}

-- A ledger of a thousand dollars, flat.
abbrev pub fresh : PortfolioState
fresh = record {
  initial_balance_usd = pos (1000 * unit);
  current_balance_usd = pos (1000 * unit);
  daily_start_balance_usd = pos (1000 * unit);
  open_positions = [];
  position_sides = [];
  daily_realized_pnl = pos 0;
  last_reset_date = 0;
}

abbrev pub agent_of : PortfolioState → RiskAgent Fixed
agent_of ledger = record {
  settings = settings;
  portfolio = ledger;
  breaker = record { is_tripped = false; reason = none; tripped_at = none };
  trading_halted = false;
  seen_results = [];
}

-- The same ledger after a loss of half its cash.
abbrev lossy : PortfolioState
lossy = record {
  initial_balance_usd = pos (1000 * unit);
  current_balance_usd = pos (500 * unit);
  daily_start_balance_usd = pos (1000 * unit);
  open_positions = [];
  position_sides = [];
  daily_realized_pnl = pos 0;
  last_reset_date = 0;
}

-- A ledger in which an approval has reserved 200 dollars.
abbrev reserved : PortfolioState
reserved = record fresh {
  current_balance_usd = pos (800 * unit);
  open_positions = (1, pos (200 * unit)) ∷ [];
  position_sides = (1, OrderSide.buy) ∷ [];
}

-- A result on symbol 1 with a given side and status.
abbrev result_of : OrderSide → OrderStatus → ExecutionResult
result_of side status = record {
  result_id = 9;
  proposal_id = 7;
  assessment_id = 8;
  symbol = 1;
  side = side;
  order_type = OrderType.market;
  status = status;
  requested_quantity = 199900049;
  filled_quantity = 199900049;
  average_fill_price = some 10005000000;
  total_cost_usd = some (pos (199 * unit));
  fee_usd = some (pos (19 * 10 ^ 22));
  realized_pnl_usd = some (pos (3 * unit));
  is_paper = true;
}

abbrev bought : ExecutionResult
bought = result_of OrderSide.buy OrderStatus.filled

abbrev failed : ExecutionResult
failed = result_of OrderSide.buy OrderStatus.rejected

abbrev sold : ExecutionResult
sold = result_of OrderSide.sell OrderStatus.filled

-- The sizer cuts the 200 dollars to a tenth of the portfolio.
approves :
    is_approved (evaluate 1000 40 (proposal OrderSide.buy) (agent_of fresh)).assessment.decision
    ≡ true
unfolding evaluate calculate decimal_of_fixed get_stop_loss_pct total_drawdown_limit_breached
    position_side div_fixed ◌-ℤ◌ ◌+ℤ◌ mul_decimal div_decimal
approves = refl

breaches : is_breached 1000 (agent_of lossy) ≡ true
unfolding daily_loss_limit_breached div_fixed ◌-ℤ◌ ◌+ℤ◌
breaches = refl

evaluate-approved_example :
    (is_halted (agent_of fresh) ≡ false)
    × ((daily_check 1000 (agent_of fresh)).0 ≡ false)
    × IsCleared 1000
        (proposal OrderSide.buy)
        (snapshot fresh)
        (reset_agent 1000 (agent_of fresh))
        (evaluate 1000 40 (proposal OrderSide.buy) (agent_of fresh))
evaluate-approved_example =
    evaluate-approved 1000 40 (proposal OrderSide.buy) (agent_of fresh) approves

evaluate-IsKept_example :
    IsKept (agent_of fresh) (evaluate 1000 40 (proposal OrderSide.buy) (agent_of fresh))
evaluate-IsKept_example = evaluate-IsKept 1000 40 (proposal OrderSide.buy) (agent_of fresh)

abbrev events : List (RiskEvent Fixed)
events = executed sold ∷ proposed 2000 41 (proposal OrderSide.sell) ∷ []

handle-halted_example :
    let (s', out) = handle events (record (agent_of fresh) { trading_halted = true }) in
    (is_halted s' ≡ true) × All IsHaltRejection out
handle-halted_example =
    handle-halted events (record (agent_of fresh) { trading_halted = true }) refl

-- The halt key cannot be written, so that the override is not published either.
abbrev broken_bus : HaltBus
broken_bus = record { connected = true; writes = false; publishes = true }

handle-breached_example :
    let (s', out) = handle (proposed 1000 40 (proposal OrderSide.buy) ∷ events) (agent_of lossy) in
    IsAnnounced broken_bus
      (limit_breached 1000 (agent_of lossy))
      (announced broken_bus (evaluate 1000 40 (proposal OrderSide.buy) (agent_of lossy)).emergency)
    × (is_halted s' ≡ true)
    × All (λ a. a.decision ≡ RiskDecision.rejected) out
handle-breached_example =
    handle-breached broken_bus 1000 40 (proposal OrderSide.buy) events (agent_of lossy) refl
      breaches

apply_execution_result-value_example :
    portfolio_value_usd (apply_execution_result sold (agent_of reserved)).1.portfolio
    ≡ portfolio_value_usd reserved
      +ℤ closing_pnl
          (not (has_key sold.result_id (agent_of reserved).seen_results)
            && is_closing_fill (position_side 1 reserved) sold)
          sold
apply_execution_result-value_example = apply_execution_result-value sold (agent_of reserved)

fresh-IsFlat : IsFlat 1 fresh
fresh-IsFlat = record { no_cost = refl; no_side = refl }

reserves : reserved ≡ open_position 1 (pos (200 * unit)) (some OrderSide.buy) fresh
unfolding open_position ◌-ℤ◌
reserves = refl

apply-reconciled_example : apply_execution_result bought (agent_of reserved) ≡ (
  reconciled,
  record (agent_of reserved) {
    portfolio = open_position 1 (actual_cost bought) (some OrderSide.buy) fresh;
    seen_results = mark_seen 9 [];
  },
)
apply-reconciled_example =
    apply-reconciled bought (pos (200 * unit)) fresh (agent_of reserved) refl refl reserves
