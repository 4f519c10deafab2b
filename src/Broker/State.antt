-- ===== src/Broker/State.antt =====
-- agents/execution/paper_broker.py: the portfolio of the paper broker, its queries and its cache of
-- filled orders.
use multi_agent_trading_syst.Prelude.{ℕ, Bool, List, [], ◌∷◌, ltb, if◌then◌else◌, length, tail, map}
use multi_agent_trading_syst.Prelude.Int.{pos, ◌+ℤ◌}
use multi_agent_trading_syst.Prelude.Decimal.{Decimal}
use multi_agent_trading_syst.Prelude.Dict.{Dict, put}
use multi_agent_trading_syst.Models.Trade.{OrderSide, ExecutionResult}

-- `cost_usd` is the cash reserved: the notional of the fill and its fee.
pub record PaperPosition : Type 0 where
  pub symbol : ℕ
  pub side : OrderSide
  pub quantity : ℕ
  pub entry_price : ℕ
  pub cost_usd : Decimal

-- `paper_mode` is `settings.is_paper_trading`.
pub record Broker : Type 0 where
  pub paper_mode : Bool
  pub cash_balance : Decimal
  pub positions : Dict PaperPosition
  pub filled_orders : Dict ExecutionResult

-- A broker as `__init__` leaves it.
unfoldable pub new_broker : Bool → Decimal → Broker
new_broker paper initial_balance = record {
  paper_mode = paper;
  cash_balance = initial_balance;
  positions = [];
  filled_orders = [];
}

abbrev pub idempotency_cache_size : ℕ
idempotency_cache_size = 1000

-- `_remember`: the newest entry at the end; past the limit the first one goes.
unfoldable pub remember : ℕ → ExecutionResult → Broker → Broker
remember pid result b =
    let orders = put pid result b.filled_orders in
    record b {
      filled_orders = if ltb idempotency_cache_size (length orders) then tail orders else orders;
    }

-- The sum of the cost bases of a dict of positions.
abbrev pub used_margin : Dict PaperPosition → Decimal
used_margin [] = pos 0
used_margin (e ∷ ps) = e.1.cost_usd +ℤ used_margin ps

pub record BrokerBalance : Type 0 where
  pub total_equity_usd : Decimal
  pub free_margin_usd : Decimal
  pub used_margin_usd : Decimal

unfoldable pub get_balance : Broker → BrokerBalance
get_balance b =
    let used = used_margin b.positions in
    record {
      total_equity_usd = b.cash_balance +ℤ used;
      free_margin_usd = b.cash_balance;
      used_margin_usd = used;
    }

pub record BrokerPosition : Type 0 where
  pub symbol : ℕ
  pub side : OrderSide
  pub quantity : ℕ
  pub entry_price : ℕ
  pub current_price : ℕ
  pub unrealised_pnl_usd : Decimal

abbrev pub as_broker_position : ℕ × PaperPosition → BrokerPosition
as_broker_position (_, p) = record {
  symbol = p.symbol;
  side = p.side;
  quantity = p.quantity;
  entry_price = p.entry_price;
  current_price = p.entry_price;
  unrealised_pnl_usd = pos 0;
}

unfoldable pub get_positions : Broker → List BrokerPosition
get_positions b = map as_broker_position b.positions
