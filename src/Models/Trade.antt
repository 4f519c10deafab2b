-- ===== src/Models/Trade.antt =====
-- core/models/trade.py
use multi_agent_trading_syst.Prelude.{ℕ, Bool, true, false, Option, none, some}
use multi_agent_trading_syst.Prelude.Int.{pos}
use multi_agent_trading_syst.Prelude.Decimal.{Decimal}
use multi_agent_trading_syst.Models.Signals.{AggregatedSignal}

pub data OrderSide : Type 0 where
  buy sell : OrderSide

pub data OrderType : Type 0 where
  market limit stop_loss take_profit : OrderType

pub data OrderStatus : Type 0 where
  pending open_order partially_filled filled cancelled rejected expired : OrderStatus

pub data RiskDecision : Type 0 where
  approved modified rejected : RiskDecision

pub data RejectionReason : Type 0 where
  max_position_size max_open_positions daily_loss_limit total_drawdown_limit : RejectionReason
  stale_market_data low_confidence symbol_not_whitelisted order_size_too_small : RejectionReason
  order_size_too_large circuit_breaker_active insufficient_balance duplicate_signal :
      RejectionReason

-- Equality of sides, which the code tests on their values "buy" and "sell".
abbrev pub same_side : OrderSide → OrderSide → Bool
same_side OrderSide.buy OrderSide.buy = true
same_side OrderSide.sell OrderSide.sell = true
same_side _ _ = false

pub record TradeProposal (F : Type 0) : Type 0 where
  pub proposal_id : ℕ
  pub symbol : ℕ
  pub side : OrderSide
  pub order_type : OrderType
  pub requested_size_usd : Decimal
  pub suggested_stop_loss_pct : Option F
  pub suggested_take_profit_pct : Option F
  pub signal : AggregatedSignal F

pub record RiskAssessment (F : Type 0) : Type 0 where
  pub assessment_id : ℕ
  pub proposal_id : ℕ
  pub decision : RiskDecision
  pub rejection_reason : Option RejectionReason
  pub approved_size_usd : Option Decimal
  pub approved_stop_loss_pct : Option F
  pub approved_take_profit_pct : Option F
  pub portfolio_value_usd : Decimal
  pub current_daily_loss_pct : F
  pub open_positions_count : ℕ
  pub original_proposal : TradeProposal F

-- `RiskAssessment.is_approved`
abbrev pub is_approved : RiskDecision → Bool
is_approved RiskDecision.approved = true
is_approved RiskDecision.modified = true
is_approved RiskDecision.rejected = false

-- `a or b` on an optional decimal: None and zero both give `b`.
abbrev pub or_decimal : Option Decimal → Decimal → Decimal
or_decimal none b = b
or_decimal (some (pos ℕ.zero)) b = b
or_decimal (some a) b = a

-- `RiskAssessment.effective_size_usd`
abbrev pub effective_size_usd : {F : Type 0} → RiskAssessment F → Decimal
effective_size_usd a = or_decimal a.approved_size_usd a.original_proposal.requested_size_usd

-- Quantities and prices of a fill are in units of 10^-8.
pub record ExecutionResult : Type 0 where
  pub result_id : ℕ
  pub proposal_id : ℕ
  pub assessment_id : ℕ
  pub symbol : ℕ
  pub side : OrderSide
  pub order_type : OrderType
  pub status : OrderStatus
  pub requested_quantity : ℕ
  pub filled_quantity : ℕ
  pub average_fill_price : Option ℕ
  pub total_cost_usd : Option Decimal
  pub fee_usd : Option Decimal
  pub realized_pnl_usd : Option Decimal
  pub is_paper : Bool

-- `ExecutionResult.is_successful`, and `_FILLED_STATUSES` of the Risk agent.
abbrev pub is_successful : OrderStatus → Bool
is_successful OrderStatus.filled = true
is_successful OrderStatus.partially_filled = true
is_successful _ = false
