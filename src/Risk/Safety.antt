-- ===== src/Risk/Safety.antt =====
-- The Risk agent as the last line of defence (agents/risk/agent.py): what an approval
-- implies.
use multi_agent_trading_syst.Prelude.{ℕ, ◌≡◌, refl, Bool, true, false, Bool-cases, inl, inr, ◌||◌}
use multi_agent_trading_syst.Prelude.Float.{Float}
use multi_agent_trading_syst.Models.Trade.{TradeProposal, RejectionReason}
use multi_agent_trading_syst.Risk.Drawdown.{PortfolioState, daily_loss_limit_breached}
use multi_agent_trading_syst.Risk.Agent.{
  RiskAgent, Snapshot, evaluate, evaluate_daily, snapshot, day_of, reject, rejects, halts,
}
use multi_agent_trading_syst.Risk.Approval.{IsApproved, IsCleared, evaluate_drawdown-IsCleared}

module _ {F : Type 0} ⦃f : Float F⦄ where
  -- The agent once the daily counters are reset, and whether the daily limit is breached then.
  abbrev pub daily_check : ℕ → RiskAgent F → Bool × PortfolioState
  daily_check now s =
      daily_loss_limit_breached s.settings.max_daily_loss_pct (day_of now) s.portfolio

  abbrev pub reset_agent : ℕ → RiskAgent F → RiskAgent F
  reset_agent now s = record s { portfolio = (daily_check now s).1 }

  -- The checks that stand before the limits.
  abbrev pub is_halted : RiskAgent F → Bool
  is_halted s = s.breaker.is_tripped || s.trading_halted

  -- When trading is not halted the evaluation goes on to the limits.
  pub evaluate-trading :
      (now aid : ℕ) (p : TradeProposal F) (s : RiskAgent F)
      → is_halted s ≡ false
      → evaluate now aid p s ≡ evaluate_daily now aid p (snapshot s.portfolio) (daily_check now s) s
  unfolding evaluate
  evaluate-trading now aid p s h = elim (Bool-cases s.breaker.is_tripped) [
    | inl tripped ↦ absurd (cc (simp tripped at h))
    | inr closed ↦ simp (closed, simp closed at h)
  ]

  -- When trading is halted every proposal is rejected, and the agent stays as it is.
  pub evaluate-halted :
      (now aid : ℕ) (p : TradeProposal F) (s : RiskAgent F)
      → is_halted s ≡ true
      → evaluate now aid p s
        ≡ rejects aid p RejectionReason.circuit_breaker_active (snapshot s.portfolio) s
  unfolding evaluate
  evaluate-halted now aid p s h = elim (Bool-cases s.breaker.is_tripped) [
    | inl tripped ↦ simp tripped
    | inr closed ↦ simp (closed, simp closed at h)
  ]

  evaluate_daily-IsCleared :
      (now aid : ℕ) (p : TradeProposal F) (snap : Snapshot F) (s : RiskAgent F)
      (out : Bool × PortfolioState)
      → IsApproved (evaluate_daily now aid p snap out s)
      → (out.0 ≡ false)
        × IsCleared now p snap
            (record s { portfolio = out.1 })
            (evaluate_daily now aid p snap out s)
  unfolding evaluate_daily halts reject
  evaluate_daily-IsCleared now aid p snap s (true, ledger) h = absurd (cc h)
  evaluate_daily-IsCleared now aid p snap s (false, ledger) h =
      (refl, evaluate_drawdown-IsCleared now aid p snap (record s { portfolio = ledger }) h)

  -- An approval implies that trading is not halted, that neither the daily loss nor the drawdown
  -- limit is breached, that the signal is fresh, and that the proposal either closes the position on
  -- its symbol or opens one on a flat symbol, with room for it and a size that the ledger reserves. The
  -- size is at most the requested one, and within the share of the portfolio and the maximum of an order
  -- unless it is no more than the minimum order.
  pub evaluate-approved :
      (now aid : ℕ) (p : TradeProposal F) (s : RiskAgent F)
      → IsApproved (evaluate now aid p s)
      → (is_halted s ≡ false)
        × ((daily_check now s).0 ≡ false)
        × IsCleared now p (snapshot s.portfolio) (reset_agent now s) (evaluate now aid p s)
  unfolding reject
  evaluate-approved now aid p s h = elim (Bool-cases (is_halted s)) [
    | inl halted ↦ absurd (cc (rw (evaluate-halted now aid p s halted) at h))
    | inr trading ↦
        let same = evaluate-trading now aid p s trading in
        let (daily, cleared) =
          evaluate_daily-IsCleared now aid p (snapshot s.portfolio) s (daily_check now s)
            (rw same at h) in
        (trading, daily, rw same cleared)
  ]
