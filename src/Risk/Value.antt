-- ===== src/Risk/Value.antt =====
-- What evaluating a proposal does to the ledger (agents/risk/agent.py).
use multi_agent_trading_syst.Prelude.{
  ℕ, ◌≤◌, ◌<◌, ◌≡◌, ◌≢◌, refl, ◌∙◌, sym, Bool, true, false, Option, none, some, arith, Bool-cases,
  inl, inr, leb, ltb, if◌then◌else◌, ◌^◌, ◌*◌,
}
use multi_agent_trading_syst.Prelude.Int.{ltb_ℤ, leb_ℤ}
use multi_agent_trading_syst.Prelude.Dict.{get, length-put_new}
use multi_agent_trading_syst.Prelude.Float.{Float}
use multi_agent_trading_syst.Models.Trade.{
  TradeProposal, RejectionReason, OrderSide, same_side, OrderSide,
}
use multi_agent_trading_syst.Risk.Drawdown.{
  PortfolioState, portfolio_value_usd, open_positions_count, total_drawdown_limit_breached,
  position_side, open_position, daily_loss_limit_breached,
}
use multi_agent_trading_syst.Risk.Sizer.{calculate, get_stop_loss_pct}
use multi_agent_trading_syst.Risk.Bounds.{calculate_bounds}
use multi_agent_trading_syst.Risk.Ledger.{open_position-value, position_side-flat}
use multi_agent_trading_syst.Risk.Agent.{
  RiskAgent, Verdict, Snapshot, evaluate, evaluate_daily, evaluate_drawdown, evaluate_position,
  evaluate_size, approve_open, approve_close, signal_age, snapshot, reject, rejects, halts,
}
use multi_agent_trading_syst.Risk.Safety.{is_halted, daily_check, evaluate-halted, evaluate-trading}

-- What every evaluation keeps, whatever its verdict: the value of the ledger; a number of positions
-- within the limit; and an order is never refused as too small, since the sizer never goes below the
-- minimum.
pub record IsKept {F : Type 0} (s : RiskAgent F) (v : Verdict F) : Type 0 where
  pub value : portfolio_value_usd v.agent.portfolio ≡ portfolio_value_usd s.portfolio
  pub count :
      open_positions_count s.portfolio ≤ s.settings.max_open_positions
      → open_positions_count v.agent.portfolio ≤ s.settings.max_open_positions
  pub never_small : v.assessment.rejection_reason ≢ some RejectionReason.order_size_too_small

module _ {F : Type 0} where
  rejects-IsKept :
      (aid : ℕ) (p : TradeProposal F) (r : RejectionReason) (snap : Snapshot F) (s : RiskAgent F)
      → r ≢ RejectionReason.order_size_too_small
      → IsKept s (rejects aid p r snap s)
  unfolding reject
  rejects-IsKept aid p r snap s h = record {
    value = refl;
    count = λ c. c;
    never_small = λ e. h (ground arith);
  }

  approve_close-IsKept :
      (aid : ℕ) (p : TradeProposal F) (snap : Snapshot F) (s : RiskAgent F)
      → IsKept s (approve_close aid p snap s)
  unfolding approve_close
  approve_close-IsKept aid p snap s = record { value = refl; count = λ c. c; never_small = λ e. cc }

  approve_open-IsKept :
      (aid : ℕ) (p : TradeProposal F) (stop : F) (size : _) (snap : Snapshot F) (s : RiskAgent F)
      → get p.symbol s.portfolio.open_positions ≡ none
      → open_positions_count s.portfolio < s.settings.max_open_positions
      → IsKept s (approve_open aid p stop size snap s)
  unfolding approve_open open_position
  approve_open-IsKept aid p stop size snap s flat room =
      let approved = if leb_ℤ p.requested_size_usd size then p.requested_size_usd else size in
      record {
        value = open_position-value p.symbol approved (some p.side) s.portfolio flat;
        count =
            λ c. omega (arith, length-put_new p.symbol approved s.portfolio.open_positions flat);
        never_small = λ e. cc;
      }

module _ {F : Type 0} ⦃f : Float F⦄ where
  evaluate_size-IsKept :
      (aid : ℕ) (p : TradeProposal F) (snap : Snapshot F) (s : RiskAgent F)
      → snap.count ≡ open_positions_count s.portfolio
      → get p.symbol s.portfolio.open_positions ≡ none
      → IsKept s (evaluate_size aid p snap s)
  unfolding evaluate_size
  evaluate_size-IsKept aid p snap s counted flat =
      let z = s.settings.sizer in
      let stop = get_stop_loss_pct p in
      let size = calculate z snap.value stop in
      elim (Bool-cases (leb s.settings.max_open_positions snap.count)) [
        | inl full ↦
            rw (full, evaluate_size)
              (rejects-IsKept aid p RejectionReason.max_open_positions snap s (λ e. cc))
        | inr room ↦ elim (Bool-cases (ltb_ℤ size (f.to_decimal z.min_order_usd))) [
          | inl small ↦ absurd (ground (arith, calculate_bounds z snap.value stop))
          | inr large ↦
              rw (room, large, evaluate_size)
                (approve_open-IsKept aid p stop size snap s flat (ground arith))
        ]
      ]

  evaluate_position-IsKept :
      (aid : ℕ) (p : TradeProposal F) (snap : Snapshot F) (o : Option OrderSide) (s : RiskAgent F)
      → snap.count ≡ open_positions_count s.portfolio
      → position_side p.symbol s.portfolio ≡ o
      → IsKept s (evaluate_position aid p snap o s)
  unfolding evaluate_position
  evaluate_position-IsKept aid p snap none s counted e =
      evaluate_size-IsKept aid p snap s counted (position_side-flat p.symbol s.portfolio e)
  evaluate_position-IsKept aid p snap (some held) s counted e =
      elim (Bool-cases (same_side held p.side)) [
        | inl stacked ↦
            rw (stacked, evaluate_position)
              (rejects-IsKept aid p RejectionReason.duplicate_signal snap s (λ e'. cc))
        | inr opposite ↦ rw (opposite, evaluate_position) (approve_close-IsKept aid p snap s)
      ]

  evaluate_drawdown-IsKept :
      (now aid : ℕ) (p : TradeProposal F) (snap : Snapshot F) (s : RiskAgent F)
      → snap.count ≡ open_positions_count s.portfolio
      → IsKept s (evaluate_drawdown now aid p snap s)
  unfolding evaluate_drawdown halts reject
  evaluate_drawdown-IsKept now aid p snap s counted =
      let stale =
        ltb (s.settings.max_data_staleness_seconds * 10 ^ 6)
          (signal_age now p.signal.technical_signal) in
      let breached = total_drawdown_limit_breached s.settings.max_total_drawdown_pct s.portfolio in
      elim (Bool-cases breached) [
        | inl over ↦
            rw (over, evaluate_drawdown)
              (record { value = refl; count = λ c. c; never_small = λ e. cc })
        | inr sound ↦ elim (Bool-cases stale) [
          | inl old ↦
              rw (sound, old, evaluate_drawdown)
                (rejects-IsKept aid p RejectionReason.stale_market_data snap s (λ e. cc))
          | inr fresh ↦
              rw (sound, fresh, evaluate_drawdown)
                (evaluate_position-IsKept aid p snap _ s counted refl)
        ]
      ]

  evaluate_daily-IsKept :
      (now aid : ℕ) (p : TradeProposal F) (snap : Snapshot F) (out : Bool × PortfolioState)
      (s : RiskAgent F)
      → snap.count ≡ open_positions_count out.1
      → IsKept (record s { portfolio = out.1 }) (evaluate_daily now aid p snap out s)
  unfolding evaluate_daily halts reject
  evaluate_daily-IsKept now aid p snap (true, ledger) s counted = record {
    value = refl;
    count = λ c. c;
    never_small = λ e. cc;
  }
  evaluate_daily-IsKept now aid p snap (false, ledger) s counted =
      evaluate_drawdown-IsKept now aid p snap (record s { portfolio = ledger }) counted

  -- The daily reset moves no money.
  daily_check-keeps :
      (now : ℕ) (s : RiskAgent F)
      → (portfolio_value_usd (daily_check now s).1 ≡ portfolio_value_usd s.portfolio)
        × (open_positions_count (daily_check now s).1 ≡ open_positions_count s.portfolio)
  unfolding daily_loss_limit_breached
  daily_check-keeps now s = ground arith

  -- Whatever the verdict, evaluating a proposal leaves the value of the ledger as it was (a
  -- reservation only moves cash), never takes the number of positions over the limit, and never
  -- rejects an order as too small.
  pub evaluate-IsKept :
      (now aid : ℕ) (p : TradeProposal F) (s : RiskAgent F) → IsKept s (evaluate now aid p s)
  evaluate-IsKept now aid p s = elim (Bool-cases (is_halted s)) [
    | inl halted ↦
        rw (evaluate-halted now aid p s halted)
          (rejects-IsKept aid p RejectionReason.circuit_breaker_active _ s (λ e. cc))
    | inr trading ↦
        let (value, count) = daily_check-keeps now s in
        let kept =
          evaluate_daily-IsKept now aid p (snapshot s.portfolio) (daily_check now s) s
            (sym count) in
        rw (evaluate-trading now aid p s trading) (record {
          value = kept.value ∙ value;
          count = λ c. kept.count (rw count c);
          never_small = kept.never_small;
        })
  ]
