-- ===== src/Execution/Agent.antt =====
-- agents/execution/agent.py: the order loop, the ticker listener and the stop-loss monitor, over the
-- paper broker. What is published on `execution.result` is returned.
use multi_agent_trading_syst.Prelude.{
  ℕ, ◌*◌, Bool, true, Option, none, some, List, [], ◌∷◌, if◌then◌else◌, ◌||◌, ◌&&◌, not, is_some,
}
use multi_agent_trading_syst.Prelude.Int.{pos, ltb_ℤ}
use multi_agent_trading_syst.Prelude.Decimal.{Decimal, place8}
use multi_agent_trading_syst.Prelude.Dict.{Dict, get, put}
use multi_agent_trading_syst.Prelude.Float.{Float, nought}
use multi_agent_trading_syst.Models.Trade.{
  OrderSide, OrderStatus, RiskAssessment, ExecutionResult, is_approved,
}
use multi_agent_trading_syst.Broker.State.{Broker, BrokerPosition, get_positions}
use multi_agent_trading_syst.Broker.Order.{
  Result, ok, err, Draw, OrderIds, place_order, close_position,
}

pub record ExecutionAgent : Type 0 where
  pub broker : Broker
  pub trading_halted : Bool
  pub last_price : Dict Decimal

-- `_publish_failure`: a rejected result that fills nothing.
unfoldable pub failure_result : {F : Type 0} → RiskAssessment F → ℕ → ExecutionResult
failure_result a rid =
    let p = a.original_proposal in
    record {
      result_id = rid;
      proposal_id = a.proposal_id;
      assessment_id = a.assessment_id;
      symbol = p.symbol;
      side = p.side;
      order_type = p.order_type;
      status = OrderStatus.rejected;
      requested_quantity = 0;
      filled_quantity = 0;
      average_fill_price = none;
      total_cost_usd = none;
      fee_usd = none;
      realized_pnl_usd = none;
      is_paper = true;
    }

-- What is published for the outcome of `place_order`.
unfoldable pub published :
    {F : Type 0} → RiskAssessment F → ℕ → Result ExecutionResult → ExecutionResult
unfolding failure_result
published a rid (ok r) = r
published a rid (err e) = failure_result a rid

-- One assessment in `run_loop`: skipped while halted or if it is rejected, else placed.
unfoldable pub handle_assessment :
    {F : Type 0} ⦃f : Float F⦄
    → RiskAssessment F
    → Draw
    → ℕ
    → ExecutionAgent
    → Option ExecutionResult × ExecutionAgent
unfolding place_order published
handle_assessment a d rid s =
    if s.trading_halted
    then (none, s)
    else if is_approved a.decision
    then (let (out, b) = place_order a d rid s.broker in
        (some (published a rid out), record s { broker = b }))
    else (none, s)

-- One ticker in `_consume_tickers`.
unfoldable pub on_ticker : ℕ → Decimal → ExecutionAgent → ExecutionAgent
on_ticker symbol last s =
    if ltb_ℤ (pos 0) last then record s { last_price = put symbol last s.last_price } else s

-- The price in a cached signal, if it can be read and is positive.
abbrev positive : Option Decimal → Option Decimal
positive none = none
positive (some d) = if ltb_ℤ (pos 0) d then some d else none

abbrev price_or : Option Decimal → Option Decimal → Option Decimal
price_or (some d) cached = some d
price_or none cached = positive cached

-- `_current_price`: the last ticker, or else the price of the latest cached signal.
unfoldable pub current_price : (ℕ → Option Decimal) → ℕ → ExecutionAgent → Option Decimal
current_price cached symbol s = price_or (get symbol s.last_price) (cached symbol)

pub data Breach : Type 0 where
  stop_loss take_profit : Breach

abbrev pub close_if :
    Option Breach → ℕ → Decimal → OrderIds → Broker → Option ExecutionResult × Broker
close_if none symbol price ids b = (none, b)
close_if (some _) symbol price ids b = close_position symbol (some price) ids b

abbrev pub cons_some : Option ExecutionResult → List ExecutionResult → List ExecutionResult
cons_some none rs = rs
cons_some (some r) rs = r ∷ rs

module _ {F : Type 0} ⦃f : Float F⦄ where
  -- The gain of a position as a fraction of its entry price.
  abbrev pub pnl_pct : OrderSide → F → F → F
  pnl_pct OrderSide.buy entry current = f.div (f.sub current entry) entry
  pnl_pct OrderSide.sell entry current = f.div (f.sub entry current) entry

  -- The thresholds of `_check_and_maybe_close`.
  unfoldable pub breach_of : F → F → OrderSide → F → F → Option Breach
  breach_of sl tp side entry current =
      if f.le entry nought || f.le current nought
      then none
      else if f.le (pnl_pct side entry current) (f.neg sl)
      then some stop_loss
      else if f.le tp (pnl_pct side entry current)
      then some take_profit
      else none

  -- The breach of a position at a price.
  abbrev pub breach_at : F → F → BrokerPosition → Decimal → Option Breach
  breach_at sl tp p price =
      breach_of sl tp p.side (f.of_decimal (pos (p.entry_price * place8))) (f.of_decimal price)

  -- `_check_and_maybe_close`
  unfoldable pub check_and_maybe_close :
      F → F → BrokerPosition → Decimal → OrderIds → Broker → Option ExecutionResult × Broker
  unfolding breach_of close_position
  check_and_maybe_close sl tp p price ids b =
      close_if (breach_at sl tp p price) p.symbol price ids b

  unfoldable pub check_priced :
      F → F → BrokerPosition → Option Decimal → OrderIds → Broker → Option ExecutionResult × Broker
  unfolding check_and_maybe_close
  check_priced sl tp p none ids b = (none, b)
  check_priced sl tp p (some price) ids b = check_and_maybe_close sl tp p price ids b

  -- The loop of one monitor cycle, over the positions that it read; `ids` gives fresh ids, and
  -- `publishes` says for which symbols the publication of a result succeeds. One that fails raises after
  -- the position is closed, and the exception ends the cycle.
  unfoldable pub monitor_positions :
      F
      → F
      → (ℕ → Option Decimal)
      → (ℕ → OrderIds)
      → (ℕ → Bool)
      → List BrokerPosition
      → Broker
      → List ExecutionResult × Broker
  unfolding check_priced
  monitor_positions sl tp price ids publishes [] b = ([], b)
  monitor_positions sl tp price ids publishes (p ∷ ps) b =
      let (r, b') = check_priced sl tp p (price p.symbol) (ids p.symbol) b in
      let (rs, b'') = monitor_positions sl tp price ids publishes ps b' in
      if is_some r && not (publishes p.symbol) then ([], b') else (cons_some r rs, b'')

  -- One cycle of `_paper_position_monitor`, in which no order is handled and no ticker arrives.
  unfoldable pub monitor_cycle :
      F
      → F
      → (ℕ → Option Decimal)
      → (ℕ → OrderIds)
      → (ℕ → Bool)
      → ExecutionAgent
      → List ExecutionResult × ExecutionAgent
  unfolding monitor_positions current_price get_positions
  monitor_cycle sl tp cached ids publishes s =
      let price = λ (symbol : ℕ). current_price cached symbol s in
      let (rs, b) = monitor_positions sl tp price ids publishes (get_positions s.broker) s.broker in
      (rs, record s { broker = b })
