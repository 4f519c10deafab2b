-- ===== src/Decision/Tests.antt =====
-- The Decision agent on a concrete signal: runs, and the theorems at inputs that meet their hypotheses.
use multi_agent_trading_syst.Prelude.{◌*◌, ◌/◌, ◌^◌, ◌≡◌, refl, false, none, some, [], ◌∷◌}
use multi_agent_trading_syst.Prelude.Int.{pos, ◌+ℤ◌, ◌*ℤ◌}
use multi_agent_trading_syst.Prelude.Decimal.{unit, mul_decimal}
use multi_agent_trading_syst.Prelude.Fixed.{
  Fixed, fixed_float, one, decimal_of_fixed, mul_fixed, div_fixed, round4_fixed, Fixed-IsOrdered,
}
use multi_agent_trading_syst.Models.Signals.{scalar_direction}
use multi_agent_trading_syst.Models.Trade.{OrderSide, TradeProposal}
use multi_agent_trading_syst.Samples.{signal, aggregated}
use multi_agent_trading_syst.Decision.Aggregator.{SignalAggregator, aggregate}
use multi_agent_trading_syst.Decision.Builder.{ProposalBuilder, proposal_for, requested_size}
use multi_agent_trading_syst.Decision.Bounds.{IsFused, aggregate-IsFused}
use multi_agent_trading_syst.Decision.Range.{IsInRange, aggregate-IsInRange}
use multi_agent_trading_syst.Decision.Agent.{DecisionAgent, proposed, try_aggregate_and_propose}
use multi_agent_trading_syst.Decision.Pipeline.{IsJustified, propose-IsJustified}

abbrev aggregator : SignalAggregator Fixed
aggregator = record {
  technical_weight = pos (7 * 10 ^ 11);
  sentiment_weight = pos (3 * 10 ^ 11);
  min_confidence = pos (6 * 10 ^ 11);
}

abbrev builder : ProposalBuilder Fixed
builder = record {
  max_position_pct = pos (2 * one / 100);
  default_stop_loss_pct = pos (2 * one / 100);
  default_take_profit_pct = pos (4 * one / 100);
  max_order_size_usd = pos (1000 * one);
}

abbrev agent : DecisionAgent Fixed
agent = record {
  aggregator = aggregator;
  builder = builder;
  paper_initial_balance_usd = pos (1000 * one);
  trading_halted = false;
  latest_technical = (1, signal) ∷ [];
  latest_sentiment = [];
}

-- The technical signal alone survives: half a point at a confidence of 0.8.
fuses : aggregate aggregator 1000 1 (some signal) none ≡ some aggregated
unfolding aggregate mul_fixed div_fixed round4_fixed scalar_direction ◌+ℤ◌ ◌*ℤ◌
fuses = refl

abbrev buys : TradeProposal Fixed
buys = proposal_for builder 7 aggregated (pos (1000 * unit)) OrderSide.buy

proposes : try_aggregate_and_propose 1000 7 1 agent ≡ proposed buys
unfolding try_aggregate_and_propose mul_fixed div_fixed round4_fixed scalar_direction
    decimal_of_fixed ◌+ℤ◌ ◌*ℤ◌ requested_size mul_decimal
proposes = refl

aggregate-IsFused_example : IsFused aggregator 1000 (some signal) none aggregated
aggregate-IsFused_example = aggregate-IsFused aggregator 1000 1 (some signal) none aggregated fuses

aggregate-IsInRange_example : IsInRange aggregated
aggregate-IsInRange_example =
    aggregate-IsInRange Fixed-IsOrdered aggregator 1000 1 (some signal) none aggregated fuses

propose-IsJustified_example : IsJustified 1000 1 agent buys
propose-IsJustified_example = propose-IsJustified 1000 7 1 agent buys proposes
