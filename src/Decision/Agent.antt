-- ===== src/Decision/Agent.antt =====
-- agents/decision/agent.py: the two signal handlers and `_try_aggregate_and_propose`. What is
-- published on the bus is returned.
use multi_agent_trading_syst.Prelude.{ℕ, Bool, Option, none, some, if◌then◌else◌, ◌&&◌}
use multi_agent_trading_syst.Prelude.Dict.{Dict, get, put}
use multi_agent_trading_syst.Prelude.Float.{Float, nought}
use multi_agent_trading_syst.Models.Signals.{
  SignalDirection, MetaValue, TechnicalSignal, SentimentSignal, AggregatedSignal, missing, number,
  malformed, is_bullish, is_bearish,
}
use multi_agent_trading_syst.Models.Trade.{TradeProposal}
use multi_agent_trading_syst.Decision.Aggregator.{SignalAggregator, aggregate}
use multi_agent_trading_syst.Decision.Builder.{
  ProposalBuilder, Built, no_proposal, invalid, built, build,
}

pub record DecisionAgent (F : Type 0) : Type 0 where
  pub aggregator : SignalAggregator F
  pub builder : ProposalBuilder F
  pub paper_initial_balance_usd : F
  pub trading_halted : Bool
  pub latest_technical : Dict (TechnicalSignal F)
  pub latest_sentiment : Dict (SentimentSignal F)

-- How handling a signal ends: the reasons for no proposal, or the proposal that is published.
-- `raised` is an exception: the bus fails, the metadata is not a
-- number, or the size of the proposal is not positive.
pub data Outcome (F : Type 0) : Type 0 where
  halted no_valid_signals against_trend neutral_signal raised : Outcome F
  proposed : TradeProposal F → Outcome F

-- The trend filter passes, rejects, or raises.
pub data Trend : Type 0 where
  passed rejected unreadable : Trend

module _ {F : Type 0} ⦃f : Float F⦄ where
  -- Longs below the EMA and shorts above it are rejected.
  unfoldable pub trend_of : SignalDirection → F → Trend
  trend_of direction dist =
      if is_bullish direction && f.lt dist nought
      then rejected
      else if is_bearish direction && f.lt nought dist
      then rejected
      else passed

  unfoldable pub trend_by_value : SignalDirection → MetaValue F → Trend
  unfolding trend_of
  trend_by_value direction missing = passed
  trend_by_value direction (number dist) = trend_of direction dist
  trend_by_value direction malformed = unreadable

  -- The trend filter, on the cached technical signal, whether or not it took part in the fusion.
  unfoldable pub trend_filter : SignalDirection → Option (TechnicalSignal F) → Trend
  unfolding trend_by_value
  trend_filter direction none = passed
  trend_filter direction (some t) = trend_by_value direction t.ema_50_dist

  abbrev pub outcome_of : Built F → Outcome F
  outcome_of no_proposal = neutral_signal
  outcome_of invalid = raised
  outcome_of (built p) = proposed p

  -- The part after the trend filter.
  unfoldable pub after_trend : ℕ → DecisionAgent F → AggregatedSignal F → Trend → Outcome F
  unfolding build
  after_trend pid s a unreadable = raised
  after_trend pid s a rejected = against_trend
  after_trend pid s a passed =
      outcome_of (build s.builder pid a (f.to_decimal s.paper_initial_balance_usd))

  -- The part after the aggregation.
  unfoldable pub after_aggregation :
      ℕ → DecisionAgent F → Option (TechnicalSignal F) → Option (AggregatedSignal F) → Outcome F
  unfolding trend_filter after_trend
  after_aggregation pid s t none = no_valid_signals
  after_aggregation pid s t (some a) = after_trend pid s a (trend_filter a.direction t)

  -- `_try_aggregate_and_propose`, at the time `now`, with a fresh proposal id.
  unfoldable pub try_aggregate_and_propose : ℕ → ℕ → ℕ → DecisionAgent F → Outcome F
  unfolding aggregate after_aggregation
  try_aggregate_and_propose now pid symbol s =
      if s.trading_halted
      then halted
      else (let technical = get symbol s.latest_technical in
          let sentiment = get symbol s.latest_sentiment in
          after_aggregation pid s technical (aggregate s.aggregator now symbol technical sentiment))

  -- `_on_technical_signal`; `bus_ok` is whether the bus takes the cached copy of the signal.
  unfoldable pub on_technical_signal :
      Bool → ℕ → ℕ → TechnicalSignal F → DecisionAgent F → Outcome F × DecisionAgent F
  unfolding try_aggregate_and_propose
  on_technical_signal bus_ok now pid t s =
      let s' = record s { latest_technical = put t.symbol t s.latest_technical } in
      (if bus_ok then try_aggregate_and_propose now pid t.symbol s' else raised, s')

  -- `_on_sentiment_signal`; its signals carry their symbol like the technical ones.
  unfoldable pub on_sentiment_signal :
      Bool → ℕ → ℕ → SentimentSignal F → DecisionAgent F → Outcome F × DecisionAgent F
  unfolding try_aggregate_and_propose
  on_sentiment_signal bus_ok now pid t s =
      let s' = record s { latest_sentiment = put t.symbol t s.latest_sentiment } in
      (if bus_ok then try_aggregate_and_propose now pid t.symbol s' else raised, s')
