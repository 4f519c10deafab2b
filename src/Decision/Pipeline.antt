-- ===== src/Decision/Pipeline.antt =====
-- What a published proposal rests on (agents/decision/agent.py, `_try_aggregate_and_propose`).
use multi_agent_trading_syst.Prelude.{
  ℕ, ◌≡◌, ◌≢◌, refl, sym, ◌∙◌, Bool, true, false, Option, none, some, Bool-cases, Option-cases, inl,
  inr, arith, ◌&&◌,
}
use multi_agent_trading_syst.Prelude.Int.{pos, leb_ℤ, ◌≤ℤ◌}
use multi_agent_trading_syst.Prelude.Decimal.{Decimal}
use multi_agent_trading_syst.Prelude.Dict.{get}
use multi_agent_trading_syst.Prelude.Float.{Float, nought}
use multi_agent_trading_syst.Models.Signals.{
  SignalDirection, TechnicalSignal, AggregatedSignal, number, malformed, is_bullish, is_bearish,
  strong_buy, buy, neutral, sell, strong_sell,
}
use multi_agent_trading_syst.Models.Trade.{OrderSide, TradeProposal}
use multi_agent_trading_syst.Decision.Aggregator.{aggregate}
use multi_agent_trading_syst.Decision.Builder.{
  ProposalBuilder, Built, no_proposal, invalid, built, validated, build, side_for, proposal_for,
  requested_size,
}
use multi_agent_trading_syst.Decision.Bounds.{IsFused, aggregate-IsFused}
use multi_agent_trading_syst.Decision.Agent.{
  DecisionAgent, proposed, Trend, passed, rejected, unreadable, trend_of, trend_filter, outcome_of,
  after_trend, after_aggregation, try_aggregate_and_propose,
}

-- The side that a direction asks for.
abbrev pub agrees : OrderSide → SignalDirection → Bool
agrees OrderSide.buy d = is_bullish d
agrees OrderSide.sell d = is_bearish d

side_for-agrees :
    (d : SignalDirection) (side : OrderSide) → side_for d ≡ some side → agrees side d ≡ true
unfolding side_for
side_for-agrees strong_buy side e = ground arith
side_for-agrees buy side e = ground arith
side_for-agrees neutral side e = absurd (cc e)
side_for-agrees sell side e = ground arith
side_for-agrees strong_sell side e = ground arith

module _ {F : Type 0} ⦃f : Float F⦄ where
  -- The distance to the EMA does not speak against the side.
  abbrev pub WithTrend : OrderSide → F → Type 0
  WithTrend OrderSide.buy dist = f.lt dist nought ≡ false
  WithTrend OrderSide.sell dist = f.lt nought dist ≡ false

  -- Everything a proposal rests on, at the time and in the state in which it is published.
  pub record IsJustified (now symbol : ℕ) (s : DecisionAgent F) (p : TradeProposal F) : Type 0 where
    pub trading : s.trading_halted ≡ false
    pub fused :
        IsFused s.aggregator now
          (get symbol s.latest_technical)
          (get symbol s.latest_sentiment)
          p.signal
    pub side_agrees : agrees p.side p.signal.direction ≡ true
    pub trend :
        (t : TechnicalSignal F) (dist : F)
        → get symbol s.latest_technical ≡ some t
        → t.ema_50_dist ≡ number dist
        → WithTrend p.side dist
    pub readable :
        (t : TechnicalSignal F) → get symbol s.latest_technical ≡ some t → t.ema_50_dist ≢ malformed
    pub size_positive : leb_ℤ p.requested_size_usd (pos 0) ≡ false
    pub size_capped : p.requested_size_usd ≤ℤ f.to_decimal s.builder.max_order_size_usd

  requested_size-capped :
      (b : ProposalBuilder F) (value : Decimal)
      → requested_size b value ≤ℤ f.to_decimal b.max_order_size_usd
  unfolding requested_size
  requested_size-capped b value = ground arith

  validated-built :
      (q p : TradeProposal F)
      → validated q ≡ built p
      → (p ≡ q) × (leb_ℤ p.requested_size_usd (pos 0) ≡ false)
  unfolding validated
  validated-built q p e = elim (Bool-cases (leb_ℤ q.requested_size_usd (pos 0))) [
    | inl none_left ↦ absurd (cc (rw (none_left, validated) at e))
    | inr positive ↦
        let same : built q ≡ built p = rw (positive, validated) at e in
        let p_is : p ≡ q = cc in (p_is, rw p_is positive)
  ]

  build-proposal :
      (b : ProposalBuilder F) (pid : ℕ) (a : AggregatedSignal F) (value : Decimal)
      (p : TradeProposal F)
      → build b pid a value ≡ built p
      → (side : OrderSide) × (side_for a.direction ≡ some side)
        × (p ≡ proposal_for b pid a value side)
        × (leb_ℤ p.requested_size_usd (pos 0) ≡ false)
  unfolding build
  build-proposal b pid a value p e = elim (Option-cases (side_for a.direction)) [
    | inl flat ↦ absurd (cc (rw (flat, build) at e))
    | inr (side, is) ↦
        let (p_is, positive) =
          validated-built (proposal_for b pid a value side) p (rw (is, build) at e) in
        (side, is, p_is, positive)
  ]

  outcome_of-proposed :
      (o : Built F) (p : TradeProposal F) → outcome_of o ≡ proposed p → o ≡ built p
  outcome_of-proposed no_proposal p e = absurd (cc e)
  outcome_of-proposed invalid p e = absurd (cc e)
  outcome_of-proposed (built q) p e = cc e

  after_trend-proposed :
      (pid : ℕ) (s : DecisionAgent F) (a : AggregatedSignal F) (t : Trend) (p : TradeProposal F)
      → after_trend pid s a t ≡ proposed p
      → (t ≡ passed) × (build s.builder pid a (f.to_decimal s.paper_initial_balance_usd) ≡ built p)
  unfolding after_trend
  after_trend-proposed pid s a unreadable p e = absurd (cc e)
  after_trend-proposed pid s a rejected p e = absurd (cc e)
  after_trend-proposed pid s a passed p e = (
    refl,
    outcome_of-proposed (build s.builder pid a (f.to_decimal s.paper_initial_balance_usd)) p e,
  )

  trend_of-passed :
      (d : SignalDirection) (side : OrderSide) (dist : F)
      → agrees side d ≡ true
      → trend_of d dist ≡ passed
      → WithTrend side dist
  unfolding trend_of
  trend_of-passed d OrderSide.buy dist h e = elim (Bool-cases (f.lt dist nought)) [
    | inl below ↦ absurd (cc (rw (h, below, trend_of) at e))
    | inr fine ↦ fine
  ]
  trend_of-passed d OrderSide.sell dist h e = elim (Bool-cases (f.lt nought dist)) [
    | inl above ↦ elim (Bool-cases (is_bullish d && f.lt dist nought)) [
      | inl also ↦ absurd (cc (rw (also, trend_of) at e))
      | inr not_long ↦ absurd (cc (rw (not_long, h, above, trend_of) at e))
    ]
    | inr fine ↦ fine
  ]

  trend_filter-number :
      (d : SignalDirection) (t : TechnicalSignal F) (dist : F)
      → t.ema_50_dist ≡ number dist
      → trend_filter d (some t) ≡ trend_of d dist
  unfolding trend_filter
  trend_filter-number d t dist e = rw e refl

  trend_filter-malformed :
      (d : SignalDirection) (t : TechnicalSignal F)
      → t.ema_50_dist ≡ malformed
      → trend_filter d (some t) ≡ unreadable
  unfolding trend_filter
  trend_filter-malformed d t e = rw e refl

  after_aggregation-proposed :
      (pid : ℕ) (s : DecisionAgent F) (t : Option (TechnicalSignal F))
      (o : Option (AggregatedSignal F)) (p : TradeProposal F)
      → after_aggregation pid s t o ≡ proposed p
      → (a : AggregatedSignal F) × (o ≡ some a)
        × (trend_filter a.direction t ≡ passed)
        × (build s.builder pid a (f.to_decimal s.paper_initial_balance_usd) ≡ built p)
  unfolding after_aggregation
  after_aggregation-proposed pid s t none p e = absurd (cc e)
  after_aggregation-proposed pid s t (some a) p e =
      let (trend, is_built) = after_trend-proposed pid s a (trend_filter a.direction t) p e in
      (a, refl, trend, is_built)

  -- The justification once the stages of the pipeline are known.
  stages-IsJustified :
      (now pid symbol : ℕ) (s : DecisionAgent F) (p : TradeProposal F) (a : AggregatedSignal F)
      → s.trading_halted ≡ false
      → aggregate s.aggregator now symbol
          (get symbol s.latest_technical)
          (get symbol s.latest_sentiment)
        ≡ some a
      → trend_filter a.direction (get symbol s.latest_technical) ≡ passed
      → build s.builder pid a (f.to_decimal s.paper_initial_balance_usd) ≡ built p
      → IsJustified now symbol s p
  stages-IsJustified now pid symbol s p a trading fused trend is_built =
      let value = f.to_decimal s.paper_initial_balance_usd in
      let (side, side_is, p_is, positive) = build-proposal s.builder pid a value p is_built in
      let agreed = side_for-agrees a.direction side side_is in
      rw p_is (record {
        trading = trading;
        fused = aggregate-IsFused s.aggregator now symbol _ _ a fused;
        side_agrees = agreed;
        trend = λ t dist cached is.
            trend_of-passed a.direction side dist agreed
              (sym (trend_filter-number a.direction t dist is) ∙ (rw cached at trend));
        readable = λ t cached is. cc (trend_filter-malformed a.direction t is, rw cached at trend);
        size_positive = rw p_is at positive;
        size_capped = requested_size-capped s.builder value;
      })

  -- A proposal is published only while trading is not halted; it rests on fresh, confident signals
  -- from the caches, its side agrees with their fused direction, the trend filter does not speak
  -- against it, and its size is positive and
  -- respects the configured maximum.
  pub propose-IsJustified :
      (now pid symbol : ℕ) (s : DecisionAgent F) (p : TradeProposal F)
      → try_aggregate_and_propose now pid symbol s ≡ proposed p
      → IsJustified now symbol s p
  unfolding try_aggregate_and_propose
  propose-IsJustified now pid symbol s p e = elim (Bool-cases s.trading_halted) [
    | inl stopped ↦ absurd (cc (rw (stopped, try_aggregate_and_propose) at e))
    | inr trading ↦
        let technical = get symbol s.latest_technical in
        let fused = aggregate s.aggregator now symbol technical (get symbol s.latest_sentiment) in
        let (a, is, trend, is_built) =
          after_aggregation-proposed pid s technical fused p
            (rw (trading, try_aggregate_and_propose) at e) in
        stages-IsJustified now pid symbol s p a trading is trend is_built
  ]
