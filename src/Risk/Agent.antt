-- ===== src/Risk/Agent.antt =====
-- agents/risk/agent.py: `_evaluate`, `_emergency_halt` and `_apply_execution_result`.
use multi_agent_trading_syst.Prelude.{
  ℕ, ◌+◌, ◌-◌, ◌*◌, ◌/◌, ◌^◌, Bool, Option, none, some, ltb, leb, if◌then◌else◌, length, tail, ◌&&◌,
}
use multi_agent_trading_syst.Prelude.Int.{pos, ◌+ℤ◌, ltb_ℤ, leb_ℤ}
use multi_agent_trading_syst.Prelude.Decimal.{Decimal}
use multi_agent_trading_syst.Prelude.Dict.{Dict, get, put, has_key}
use multi_agent_trading_syst.Prelude.Float.{Float}
use multi_agent_trading_syst.Models.Signals.{TechnicalSignal}
use multi_agent_trading_syst.Models.Trade.{
  OrderSide, RiskDecision, RejectionReason, TradeProposal, RiskAssessment, ExecutionResult,
  same_side, is_successful,
}
use multi_agent_trading_syst.Risk.Drawdown.{
  PortfolioState, portfolio_value_usd, open_positions_count, daily_loss_pct,
  daily_loss_limit_breached, total_drawdown_limit_breached, position_side, open_position,
  adjust_position_cost, close_position,
}
use multi_agent_trading_syst.Risk.Breaker.{
  CircuitBreaker, HaltReason, daily_loss, total_drawdown, trip,
}
use multi_agent_trading_syst.Risk.Sizer.{PositionSizer, calculate, get_stop_loss_pct}

pub record RiskSettings (F : Type 0) : Type 0 where
  pub max_daily_loss_pct : F
  pub max_total_drawdown_pct : F
  pub max_open_positions : ℕ
  pub max_data_staleness_seconds : ℕ
  pub sizer : PositionSizer F

-- `trading_halted` is the flag of the base agent; the keys of `seen_results` are result ids.
pub record RiskAgent (F : Type 0) : Type 0 where
  pub settings : RiskSettings F
  pub portfolio : PortfolioState
  pub breaker : CircuitBreaker
  pub trading_halted : Bool
  pub seen_results : Dict (Unit {0})

-- What evaluating a proposal gives: the assessment, the agent after it, and the reason of the emergency
-- halt that it makes, if any. What reaches the bus then is `emergency_halt`.
pub record Verdict (F : Type 0) : Type 0 where
  pub assessment : RiskAssessment F
  pub agent : RiskAgent F
  pub emergency : Option HaltReason

-- How the bus behaves in `_emergency_halt`: whether it is connected, and whether the write of the halt
-- key and the publication succeed. One that fails raises, and the exception is only logged.
pub record HaltBus : Type 0 where
  pub connected : Bool
  pub writes : Bool
  pub publishes : Bool

-- The reason that was written to the halt key, and the override that was published.
pub record Broadcast : Type 0 where
  pub halt_key : Option HaltReason
  pub override : Option HaltReason

abbrev pub published : Bool → HaltReason → Option HaltReason
published succeeds why = if succeeds then some why else none

-- `_emergency_halt` on the bus: the key is written first, and a failure to do so skips the rest.
unfoldable pub emergency_halt : HaltBus → HaltReason → Broadcast
emergency_halt bus why =
    if bus.connected
    then (if bus.writes
        then record { halt_key = some why; override = published bus.publishes why }
        else record { halt_key = none; override = none })
    else record { halt_key = none; override = published bus.publishes why }

-- What evaluating a proposal puts on the bus.
unfoldable pub announced : HaltBus → Option HaltReason → Broadcast
unfolding emergency_halt
announced bus none = record { halt_key = none; override = none }
announced bus (some why) = emergency_halt bus why

-- The UTC day of a time in microseconds.
abbrev pub day_of : ℕ → ℕ
day_of now = now / (86400 * 10 ^ 6)

-- `_signal_age_seconds`, in microseconds: zero without a technical signal or if it is in the future.
abbrev pub signal_age : {F : Type 0} → ℕ → Option (TechnicalSignal F) → ℕ
signal_age now none = 0
signal_age now (some t) = now - t.timestamp

-- The portfolio figures that an assessment carries, read before the checks.
pub record Snapshot (F : Type 0) : Type 0 where
  pub value : Decimal
  pub loss : F
  pub count : ℕ

module _ {F : Type 0} where
  -- `_reject`
  unfoldable pub reject : ℕ → TradeProposal F → RejectionReason → Snapshot F → RiskAssessment F
  reject aid p reason snap = record {
    assessment_id = aid;
    proposal_id = p.proposal_id;
    decision = RiskDecision.rejected;
    rejection_reason = some reason;
    approved_size_usd = none;
    approved_stop_loss_pct = none;
    approved_take_profit_pct = none;
    portfolio_value_usd = snap.value;
    current_daily_loss_pct = snap.loss;
    open_positions_count = snap.count;
    original_proposal = p;
  }

  abbrev pub rejects : ℕ → TradeProposal F → RejectionReason → Snapshot F → RiskAgent F → Verdict F
  rejects aid p reason snap s = record {
    assessment = reject aid p reason snap;
    agent = s;
    emergency = none;
  }

  -- The breaker that `_emergency_halt` trips, and the rejection that follows.
  unfoldable pub halts :
      ℕ → ℕ → TradeProposal F → HaltReason → RejectionReason → Snapshot F → RiskAgent F → Verdict F
  unfolding trip reject
  halts now aid p why reason snap s = record {
    assessment = reject aid p reason snap;
    agent = record s { breaker = trip why now s.breaker };
    emergency = some why;
  }

  -- Step 6, on the opposite side of an open position: a close, sized to the position.
  unfoldable pub approve_close : ℕ → TradeProposal F → Snapshot F → RiskAgent F → Verdict F
  approve_close aid p snap s = record {
    assessment = record {
      assessment_id = aid;
      proposal_id = p.proposal_id;
      decision = RiskDecision.approved;
      rejection_reason = none;
      approved_size_usd = get p.symbol s.portfolio.open_positions;
      approved_stop_loss_pct = none;
      approved_take_profit_pct = none;
      portfolio_value_usd = snap.value;
      current_daily_loss_pct = snap.loss;
      open_positions_count = snap.count;
      original_proposal = p;
    };
    agent = s;
    emergency = none;
  }

  -- Step 10: approved at the requested size, or modified to the smaller one, which is reserved.
  unfoldable pub approve_open :
      ℕ → TradeProposal F → F → Decimal → Snapshot F → RiskAgent F → Verdict F
  unfolding open_position
  approve_open aid p stop size snap s =
      let enough = leb_ℤ p.requested_size_usd size in
      let approved = if enough then p.requested_size_usd else size in
      record {
        assessment = record {
          assessment_id = aid;
          proposal_id = p.proposal_id;
          decision = if enough then RiskDecision.approved else RiskDecision.modified;
          rejection_reason = none;
          approved_size_usd = some approved;
          approved_stop_loss_pct = some stop;
          approved_take_profit_pct = p.suggested_take_profit_pct;
          portfolio_value_usd = snap.value;
          current_daily_loss_pct = snap.loss;
          open_positions_count = snap.count + 1;
          original_proposal = p;
        };
        agent = record s { portfolio = open_position p.symbol approved (some p.side) s.portfolio };
        emergency = none;
      }

module _ {F : Type 0} ⦃f : Float F⦄ where
  -- Steps 7 to 10.
  unfoldable pub evaluate_size : ℕ → TradeProposal F → Snapshot F → RiskAgent F → Verdict F
  unfolding approve_open
  evaluate_size aid p snap s =
      let z = s.settings.sizer in
      let stop = get_stop_loss_pct p in
      let size = calculate z snap.value stop in
      if leb s.settings.max_open_positions snap.count
      then rejects aid p RejectionReason.max_open_positions snap s
      else if ltb_ℤ size (f.to_decimal z.min_order_usd)
      then rejects aid p RejectionReason.order_size_too_small snap s
      else approve_open aid p stop size snap s

  -- Step 6.
  unfoldable pub evaluate_position :
      ℕ → TradeProposal F → Snapshot F → Option OrderSide → RiskAgent F → Verdict F
  unfolding approve_close evaluate_size
  evaluate_position aid p snap none s = evaluate_size aid p snap s
  evaluate_position aid p snap (some held) s =
      if same_side held p.side
      then rejects aid p RejectionReason.duplicate_signal snap s
      else approve_close aid p snap s

  -- Steps 4 and 5.
  unfoldable pub evaluate_drawdown : ℕ → ℕ → TradeProposal F → Snapshot F → RiskAgent F → Verdict F
  unfolding halts evaluate_position
  evaluate_drawdown now aid p snap s =
      if total_drawdown_limit_breached s.settings.max_total_drawdown_pct s.portfolio
      then halts now aid p total_drawdown RejectionReason.total_drawdown_limit snap s
      else if ltb (s.settings.max_data_staleness_seconds * 10 ^ 6)
          (signal_age now p.signal.technical_signal)
      then rejects aid p RejectionReason.stale_market_data snap s
      else evaluate_position aid p snap (position_side p.symbol s.portfolio) s

  -- Step 3. The daily reset stays in the agent on every later step.
  unfoldable pub evaluate_daily :
      ℕ → ℕ → TradeProposal F → Snapshot F → Bool × PortfolioState → RiskAgent F → Verdict F
  unfolding halts evaluate_drawdown
  evaluate_daily now aid p snap (breached, ledger) s =
      let s' = record s { portfolio = ledger } in
      if breached
      then halts now aid p daily_loss RejectionReason.daily_loss_limit snap s'
      else evaluate_drawdown now aid p snap s'

  abbrev pub snapshot : PortfolioState → Snapshot F
  snapshot ledger = record {
    value = portfolio_value_usd ledger;
    loss = daily_loss_pct ledger;
    count = open_positions_count ledger;
  }

  -- `_evaluate`: the checks in order, at the time `now`.
  unfoldable pub evaluate : ℕ → ℕ → TradeProposal F → RiskAgent F → Verdict F
  unfolding evaluate_daily daily_loss_limit_breached
  evaluate now aid p s =
      let snap = snapshot s.portfolio in
      if s.breaker.is_tripped
      then rejects aid p RejectionReason.circuit_breaker_active snap s
      else if s.trading_halted
      then rejects aid p RejectionReason.circuit_breaker_active snap s
      else evaluate_daily now aid p snap
          (daily_loss_limit_breached s.settings.max_daily_loss_pct (day_of now) s.portfolio) s

-- What `_apply_execution_result` did with a result.
pub data Applied : Type 0 where
  duplicate released ignored closed reconciled adopted : Applied

abbrev pub seen_results_max : ℕ
seen_results_max = 1000

-- `_seen_results`: the newest id at the end; past the limit the oldest goes.
unfoldable pub mark_seen : ℕ → Dict (Unit {0}) → Dict (Unit {0})
mark_seen rid seen =
    let more = put rid tt seen in if ltb seen_results_max (length more) then tail more else more

abbrev pub or_zero : Option Decimal → Decimal
or_zero none = pos 0
or_zero (some d) = d

-- A result counts as a fill if its status says so and it filled something.
abbrev pub is_fill : ExecutionResult → Bool
is_fill r = is_successful r.status && ltb 0 r.filled_quantity

-- The cost of an opening fill, fee included.
abbrev pub actual_cost : ExecutionResult → Decimal
actual_cost r = or_zero r.total_cost_usd +ℤ or_zero r.fee_usd

-- The ledger after a new result, by the side of the position that is held on its symbol.
unfoldable pub apply_to_ledger :
    ExecutionResult → Option OrderSide → PortfolioState → Applied × PortfolioState
apply_to_ledger r none ledger =
    if is_fill r
    then (adopted, open_position r.symbol (actual_cost r) (some r.side) ledger)
    else (ignored, ledger)
apply_to_ledger r (some held) ledger =
    if is_fill r
    then (if same_side held r.side
        then (reconciled, adjust_position_cost r.symbol (actual_cost r) ledger)
        else (closed, close_position r.symbol (or_zero r.realized_pnl_usd) ledger))
    else (if same_side held r.side
        then (released, close_position r.symbol (pos 0) ledger)
        else (ignored, ledger))

module _ {F : Type 0} where
  abbrev pub with_ledger :
      RiskAgent F → Dict (Unit {0}) → Applied × PortfolioState → Applied × RiskAgent F
  with_ledger s seen (what, ledger) = (what, record s { portfolio = ledger; seen_results = seen })

  -- `_apply_execution_result`
  unfoldable pub apply_execution_result : ExecutionResult → RiskAgent F → Applied × RiskAgent F
  unfolding mark_seen apply_to_ledger
  apply_execution_result r s =
      if has_key r.result_id s.seen_results
      then (duplicate, s)
      else with_ledger s (mark_seen r.result_id s.seen_results)
          (apply_to_ledger r (position_side r.symbol s.portfolio) s.portfolio)
