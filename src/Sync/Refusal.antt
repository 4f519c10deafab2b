-- ===== src/Sync/Refusal.antt =====
-- An order that the broker refuses: agents/execution/agent.py publishes a rejected result for it, which
-- agents/risk/agent.py takes as the release of what it reserved.
use multi_agent_trading_syst.Prelude.{ℕ, ◌≡◌, refl, true, false, none, some}
use multi_agent_trading_syst.Prelude.Decimal.{Decimal}
use multi_agent_trading_syst.Prelude.Dict.{get, has_key}
use multi_agent_trading_syst.Prelude.Float.{Float}
use multi_agent_trading_syst.Models.Trade.{RiskAssessment, is_approved}
use multi_agent_trading_syst.Broker.State.{Broker}
use multi_agent_trading_syst.Broker.Order.{err, OrderError, Draw, place_order}
use multi_agent_trading_syst.Broker.Equity.{place_order-Accounts}
use multi_agent_trading_syst.Risk.Drawdown.{PortfolioState, open_position}
use multi_agent_trading_syst.Risk.Agent.{RiskAgent, apply_execution_result, mark_seen, released}
use multi_agent_trading_syst.Risk.Reservation.{IsFlat, apply-released}
use multi_agent_trading_syst.Execution.Agent.{
  ExecutionAgent, failure_result, published, handle_assessment,
}

module _ {F : Type 0} ⦃f : Float F⦄ (a : RiskAssessment F) (d : Draw) (rid : ℕ) where
  refused-handled :
      (s : ExecutionAgent) (why : OrderError) (b' : Broker)
      → s.trading_halted ≡ false
      → is_approved a.decision ≡ true
      → place_order a d rid s.broker ≡ (err why, b')
      → handle_assessment a d rid s ≡ (some (failure_result a rid), record s { broker = b' })
  unfolding handle_assessment published
  refused-handled s why b' trading approved refused = rw (trading, approved, refused) refl

  refused-keeps :
      (b : Broker) (why : OrderError) (b' : Broker)
      → get a.proposal_id b.filled_orders ≡ none
      → place_order a d rid b ≡ (err why, b')
      → b' ≡ b
  refused-keeps b why b' fresh refused = rw refused at (place_order-Accounts a d rid b fresh)

  -- An approved opening order that the broker refuses, for whatever reason, leaves no trace but its
  -- published failure: the portfolio is as it was, and when the Risk agent applies the failure, its
  -- ledger is as it was before the approval reserved a size for the order.
  pub refused-released :
      (size : Decimal) (ledger : PortfolioState) (risk : RiskAgent F) (s : ExecutionAgent)
      (why : OrderError) (b' : Broker)
      → s.trading_halted ≡ false
      → is_approved a.decision ≡ true
      → get a.proposal_id s.broker.filled_orders ≡ none
      → place_order a d rid s.broker ≡ (err why, b')
      → IsFlat a.original_proposal.symbol ledger
      → risk.portfolio
        ≡ open_position a.original_proposal.symbol size (some a.original_proposal.side) ledger
      → has_key rid risk.seen_results ≡ false
      → (handle_assessment a d rid s ≡ (some (failure_result a rid), s))
        × (apply_execution_result (failure_result a rid) risk ≡ (
          released,
          record risk { portfolio = ledger; seen_results = mark_seen rid risk.seen_results },
        ))
  unfolding failure_result
  refused-released size ledger risk s why b' trading approved fresh refused flat reserved new =
      let same = refused-keeps s.broker why b' fresh refused in
      (
        rw same at (refused-handled s why b' trading approved refused),
        apply-released (failure_result a rid) size ledger risk new refl flat reserved,
      )
