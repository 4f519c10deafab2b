-- ===== src/Samples.antt =====
-- Test data that the tests of several components share: a signal, an order of 200 dollars, a broker.
use multi_agent_trading_syst.Prelude.{◌*◌, ◌^◌, true, false, none, some, []}
use multi_agent_trading_syst.Prelude.Int.{pos}
use multi_agent_trading_syst.Prelude.Decimal.{unit}
use multi_agent_trading_syst.Prelude.Fixed.{Fixed, fixed_float, one}
use multi_agent_trading_syst.Models.Signals.{
  SignalDirection, MetaValue, TechnicalSignal, AggregatedSignal,
}
use multi_agent_trading_syst.Models.Trade.{
  OrderSide, OrderType, RiskDecision, TradeProposal, RiskAssessment,
}
use multi_agent_trading_syst.Broker.State.{PaperPosition, Broker}
use multi_agent_trading_syst.Broker.Order.{Draw, OrderIds}

-- A buy signal at 100 dollars.
abbrev pub signal : TechnicalSignal Fixed
signal = record {
  symbol = 1;
  timestamp = 0;
  expires_at = 300_000_000;
  direction = SignalDirection.buy;
  confidence = pos (8 * 10 ^ 11);
  price = pos (100 * one);
  atr_pct_of_price = MetaValue.missing;
  ema_50_dist = MetaValue.missing;
}

abbrev pub aggregated : AggregatedSignal Fixed
aggregated = record {
  symbol = 1;
  direction = SignalDirection.buy;
  confidence = pos (8 * 10 ^ 11);
  composite_score = pos (5 * 10 ^ 11);
  technical_signal = some signal;
  sentiment_signal = none;
  technical_weight = pos (7 * 10 ^ 11);
  sentiment_weight = pos (3 * 10 ^ 11);
  total_signals = 1;
  signals_discarded = 0;
}

abbrev pub proposal : OrderSide → TradeProposal Fixed
proposal side = record {
  proposal_id = 7;
  symbol = 1;
  side = side;
  order_type = OrderType.market;
  requested_size_usd = pos (200 * unit);
  suggested_stop_loss_pct = none;
  suggested_take_profit_pct = none;
  signal = aggregated;
}

abbrev pub assessment : OrderSide → RiskAssessment Fixed
assessment side = record {
  assessment_id = 8;
  proposal_id = 7;
  decision = RiskDecision.approved;
  rejection_reason = none;
  approved_size_usd = some (pos (200 * unit));
  approved_stop_loss_pct = none;
  approved_take_profit_pct = none;
  portfolio_value_usd = pos (1000 * unit);
  current_daily_loss_pct = pos 0;
  open_positions_count = 0;
  original_proposal = proposal side;
}

abbrev pub whole : Draw
whole = record { is_partial = false; fill_ratio = 0 }

abbrev pub ids : OrderIds
ids = record { result_id = 20; proposal_id = 21; assessment_id = 22 }

abbrev pub start : Broker
start = record {
  paper_mode = true;
  cash_balance = pos (1000 * unit);
  positions = [];
  filled_orders = [];
}

-- Two units at 100 dollars, for a cost of 200.20.
abbrev pub kept : PaperPosition
kept = record {
  symbol = 1;
  side = OrderSide.buy;
  quantity = 2 * 10 ^ 8;
  entry_price = 100 * 10 ^ 8;
  cost_usd = pos (20020 * 10 ^ 22);
}
