-- ===== src/Decision/Builder.antt =====
-- agents/decision/proposal_builder.py, with the validator of core/models/trade.py that it meets. The
-- reasoning text of a proposal is left out.
use multi_agent_trading_syst.Prelude.{ℕ, Option, none, some, if◌then◌else◌}
use multi_agent_trading_syst.Prelude.Int.{pos, ltb_ℤ, leb_ℤ}
use multi_agent_trading_syst.Prelude.Decimal.{Decimal, mul_decimal}
use multi_agent_trading_syst.Prelude.Float.{Float}
use multi_agent_trading_syst.Models.Signals.{
  SignalDirection, AggregatedSignal, strong_buy, buy, neutral, sell, strong_sell,
}
use multi_agent_trading_syst.Models.Trade.{OrderSide, OrderType, TradeProposal}

pub record ProposalBuilder (F : Type 0) : Type 0 where
  pub max_position_pct : F
  pub default_stop_loss_pct : F
  pub default_take_profit_pct : F
  pub max_order_size_usd : F

-- What building a proposal gives: none for a neutral signal, a ValidationError, or the proposal.
pub data Built (F : Type 0) : Type 0 where
  no_proposal invalid : Built F
  built : TradeProposal F → Built F

-- The side of an order for a direction; a neutral one has none.
unfoldable pub side_for : SignalDirection → Option OrderSide
side_for neutral = none
side_for buy = some OrderSide.buy
side_for strong_buy = some OrderSide.buy
side_for sell = some OrderSide.sell
side_for strong_sell = some OrderSide.sell

module _ {F : Type 0} ⦃f : Float F⦄ where
  unfoldable pub requested_size : ProposalBuilder F → Decimal → Decimal
  requested_size b value =
      let size = mul_decimal (f.to_decimal b.max_position_pct) value in
      let abs_max = f.to_decimal b.max_order_size_usd in
      if ltb_ℤ abs_max size then abs_max else size

  abbrev pub proposal_for :
      ProposalBuilder F → ℕ → AggregatedSignal F → Decimal → OrderSide → TradeProposal F
  proposal_for b pid signal value side = record {
    proposal_id = pid;
    symbol = signal.symbol;
    side = side;
    order_type = OrderType.market;
    requested_size_usd = requested_size b value;
    suggested_stop_loss_pct = some b.default_stop_loss_pct;
    suggested_take_profit_pct = some b.default_take_profit_pct;
    signal = signal;
  }

  -- The TradeProposal that is built, which `validate_positive_size` may refuse.
  unfoldable pub validated : TradeProposal F → Built F
  validated p = if leb_ℤ p.requested_size_usd (pos 0) then invalid else built p

  -- `build`; the fresh id of the proposal is an argument.
  unfoldable pub build : ProposalBuilder F → ℕ → AggregatedSignal F → Decimal → Built F
  unfolding side_for validated
  build b pid signal value = elim (side_for signal.direction) [
    | none ↦ no_proposal
    | some side ↦ validated (proposal_for b pid signal value side)
  ]
