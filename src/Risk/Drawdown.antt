-- ===== src/Risk/Drawdown.antt =====
-- agents/risk/drawdown_monitor.py: the ledger of the Risk agent and its two loss limits.
use multi_agent_trading_syst.Prelude.{
  ℕ, Bool, false, Option, none, some, [], ◌∷◌, if◌then◌else◌, length, ◌==◌,
}
use multi_agent_trading_syst.Prelude.Int.{pos, negsuc, ◌+ℤ◌, ◌-ℤ◌}
use multi_agent_trading_syst.Prelude.Decimal.{Decimal}
use multi_agent_trading_syst.Prelude.Dict.{Dict, get, put, remove, has_key}
use multi_agent_trading_syst.Prelude.Float.{Float, nought}
use multi_agent_trading_syst.Models.Trade.{OrderSide}

-- Days are counted in UTC. `open_positions` maps a symbol to its cost basis.
pub record PortfolioState : Type 0 where
  pub initial_balance_usd : Decimal
  pub current_balance_usd : Decimal
  pub daily_start_balance_usd : Decimal
  pub open_positions : Dict Decimal
  pub position_sides : Dict OrderSide
  pub daily_realized_pnl : Decimal
  pub last_reset_date : ℕ

-- The portfolio that `DrawdownMonitor.__init__` makes on a day.
unfoldable pub initial_state : Decimal → ℕ → PortfolioState
initial_state balance today = record {
  initial_balance_usd = balance;
  current_balance_usd = balance;
  daily_start_balance_usd = balance;
  open_positions = [];
  position_sides = [];
  daily_realized_pnl = pos 0;
  last_reset_date = today;
}

abbrev pub sum_values : Dict Decimal → Decimal
sum_values [] = pos 0
sum_values (e ∷ d) = e.1 +ℤ sum_values d

-- Cash and the cost bases together.
abbrev pub portfolio_value_usd : PortfolioState → Decimal
portfolio_value_usd s = s.current_balance_usd +ℤ sum_values s.open_positions

abbrev pub open_positions_count : PortfolioState → ℕ
open_positions_count s = length s.open_positions

abbrev pub is_zero : Decimal → Bool
is_zero (pos n) = n == 0
is_zero (negsuc _) = false

module _ {F : Type 0} ⦃f : Float F⦄ where
  -- The fraction of `start` that is lost; 0.0 if `start` is zero.
  abbrev pub loss_fraction : Decimal → Decimal → F
  loss_fraction start current = if is_zero start then nought else f.ratio (start -ℤ current) start

  abbrev pub daily_loss_pct : PortfolioState → F
  daily_loss_pct s = loss_fraction s.daily_start_balance_usd (portfolio_value_usd s)

  abbrev pub total_drawdown_pct : PortfolioState → F
  total_drawdown_pct s = loss_fraction s.initial_balance_usd (portfolio_value_usd s)

-- `_maybe_reset_daily`
unfoldable pub maybe_reset_daily : ℕ → PortfolioState → PortfolioState
maybe_reset_daily today s = if s.last_reset_date == today then s else record s {
  daily_start_balance_usd = portfolio_value_usd s;
  daily_realized_pnl = pos 0;
  last_reset_date = today;
}

-- `daily_loss_limit_breached`: the answer, after the daily reset that it makes.
unfoldable pub daily_loss_limit_breached :
    {F : Type 0} ⦃f : Float F⦄ → F → ℕ → PortfolioState → Bool × PortfolioState
unfolding maybe_reset_daily
daily_loss_limit_breached ⦃f⦄ limit today s =
    let s' = maybe_reset_daily today s in (f.le limit (daily_loss_pct s'), s')

unfoldable pub total_drawdown_limit_breached :
    {F : Type 0} ⦃f : Float F⦄ → F → PortfolioState → Bool
total_drawdown_limit_breached ⦃f⦄ limit s = f.le limit (total_drawdown_pct s)

-- `self.state.position_sides.get(symbol, "buy")`
abbrev side_or_buy : Option OrderSide → OrderSide
side_or_buy none = OrderSide.buy
side_or_buy (some side) = side

unfoldable pub position_side : ℕ → PortfolioState → Option OrderSide
position_side symbol s =
    if has_key symbol s.open_positions
    then some (side_or_buy (get symbol s.position_sides))
    else none

abbrev put_side : ℕ → Option OrderSide → Dict OrderSide → Dict OrderSide
put_side symbol none d = d
put_side symbol (some side) d = put symbol side d

unfoldable pub open_position : ℕ → Decimal → Option OrderSide → PortfolioState → PortfolioState
open_position symbol size side s = record s {
  current_balance_usd = s.current_balance_usd -ℤ size;
  open_positions = put symbol size s.open_positions;
  position_sides = put_side symbol side s.position_sides;
}

unfoldable pub adjust_position_cost : ℕ → Decimal → PortfolioState → PortfolioState
adjust_position_cost symbol actual s = elim (get symbol s.open_positions) [
  | none ↦ s
  | some reserved ↦ record s {
    current_balance_usd = s.current_balance_usd +ℤ (reserved -ℤ actual);
    open_positions = put symbol actual s.open_positions;
  }
]

-- `pop(symbol, Decimal("0"))`
abbrev cost_or_zero : Option Decimal → Decimal
cost_or_zero none = pos 0
cost_or_zero (some c) = c

unfoldable pub close_position : ℕ → Decimal → PortfolioState → PortfolioState
close_position symbol pnl s = record s {
  current_balance_usd =
      s.current_balance_usd +ℤ (cost_or_zero (get symbol s.open_positions) +ℤ pnl);
  open_positions = remove symbol s.open_positions;
  position_sides = remove symbol s.position_sides;
  daily_realized_pnl = s.daily_realized_pnl +ℤ pnl;
}
