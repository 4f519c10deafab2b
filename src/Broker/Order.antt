-- ===== src/Broker/Order.antt =====
-- agents/execution/paper_broker.py: `place_order`, `_close` and `close_position`.
-- `place_order` sleeps once; `begin_order` is what it does before and `finish_order` what it does
-- after, so that other calls can come in between. Random draws and fresh ids are arguments.
use multi_agent_trading_syst.Prelude.{
  ℕ, ◌+◌, ◌*◌, ◌/◌, ◌^◌, Bool, true, Option, none, some, ◌==◌, if◌then◌else◌,
}
use multi_agent_trading_syst.Prelude.Int.{pos, negsuc, ◌+ℤ◌, ◌-ℤ◌, sub_ℕ, ltb_ℤ}
use multi_agent_trading_syst.Prelude.Decimal.{Decimal, place8, cent, notional_of, quantize_cent}
use multi_agent_trading_syst.Prelude.Dict.{get, put, remove}
use multi_agent_trading_syst.Prelude.Float.{Float}
use multi_agent_trading_syst.Models.Signals.{TechnicalSignal}
use multi_agent_trading_syst.Models.Trade.{
  OrderSide, OrderType, OrderStatus, RiskAssessment, ExecutionResult, same_side, effective_size_usd,
}
use multi_agent_trading_syst.Broker.State.{PaperPosition, Broker, remember}

-- What `place_order` raises. `price_rounds_to_zero` is decimal's DivisionByZero.
pub data OrderError : Type 0 where
  not_paper_mode no_reference_price bad_reference_price already_open no_open_position : OrderError
  no_effective_size price_rounds_to_zero quantity_is_zero insufficient_balance : OrderError

pub data Result (A : Type 0) : Type 0 where
  ok : A → Result A
  err : OrderError → Result A

-- `random.random() < 0.20`, and `random.uniform(0.60, 0.99)` in units of 10^-17.
pub record Draw : Type 0 where
  pub is_partial : Bool
  pub fill_ratio : ℕ

-- `ref_price * (1 ± 0.0005)` cut to 8 places; the reference is in units of 10^-24.
unfoldable pub price_up : ℕ → ℕ
price_up ref = ref * 10005 / (10000 * place8)

unfoldable pub price_down : ℕ → ℕ
price_down ref = ref * 9995 / (10000 * place8)

unfoldable pub fill_price : OrderSide → ℕ → ℕ
unfolding price_up price_down
fill_price OrderSide.buy ref = price_up ref
fill_price OrderSide.sell ref = price_down ref

-- 0.1% of a notional, cut to whole cents.
unfoldable pub taker_fee : ℕ → ℕ
taker_fee notional = notional / (1000 * cent) * cent

-- The size over the price, cut to 8 places.
unfoldable pub quantity_for : ℕ → ℕ → ℕ
quantity_for size price = size / (price * 10 ^ 8)

pub record Fill : Type 0 where
  pub price : ℕ
  pub requested : ℕ
  pub quantity : ℕ
  pub status : OrderStatus

-- The partial fill: a cut quantity, or the whole one if the cut leaves nothing.
unfoldable pub draw_fill : Draw → ℕ → ℕ → Fill
draw_fill d price requested =
    let cut = requested * d.fill_ratio / 10 ^ 17 in
    if d.is_partial
    then (if cut == 0
        then record {
          price = price;
          requested = requested;
          quantity = requested;
          status = OrderStatus.filled;
        }
        else record {
          price = price;
          requested = requested;
          quantity = cut;
          status = OrderStatus.partially_filled;
        })
    else record {
      price = price;
      requested = requested;
      quantity = requested;
      status = OrderStatus.filled;
    }

-- Fill price, requested quantity and partial fill of an opening order.
unfoldable pub compute_fill : OrderSide → ℕ → Decimal → Draw → Result Fill
unfolding fill_price quantity_for draw_fill
compute_fill side ref (negsuc _) d = err no_effective_size
compute_fill side ref (pos size) d =
    let price = fill_price side ref in
    let requested = quantity_for size price in
    if size == 0
    then err no_effective_size
    else if price == 0
    then err price_rounds_to_zero
    else if requested == 0
    then err quantity_is_zero
    else ok (draw_fill d price requested)

-- The notional and the fee of a fill together.
unfoldable pub total_cost : Fill → ℕ
unfolding taker_fee
total_cost x = let notional = notional_of x.quantity x.price in notional + taker_fee notional

pub record OrderIds : Type 0 where
  pub result_id : ℕ
  pub proposal_id : ℕ
  pub assessment_id : ℕ

-- The cash that closing a position at an exit price returns.
unfoldable pub cash_returned : PaperPosition → ℕ → Decimal
unfolding taker_fee ◌+ℤ◌ ◌-ℤ◌
cash_returned p exit =
    let notional = notional_of p.quantity exit in
    let fee = taker_fee notional in
    elim p.side [
      | OrderSide.buy ↦ sub_ℕ notional fee
      | OrderSide.sell ↦
          p.cost_usd +ℤ sub_ℕ (notional_of p.quantity p.entry_price) notional -ℤ pos fee
    ]

abbrev pub closing_side : OrderSide → OrderSide
closing_side OrderSide.buy = OrderSide.sell
closing_side OrderSide.sell = OrderSide.buy

-- A long is sold slightly below the reference, a short bought back slightly above.
abbrev pub exit_price : OrderSide → ℕ → ℕ
exit_price side ref = fill_price (closing_side side) ref

-- The result that a close reports.
unfoldable pub close_result : PaperPosition → ℕ → ℕ → OrderIds → ExecutionResult
unfolding quantize_cent taker_fee
close_result p symbol exit ids =
    let notional = notional_of p.quantity exit in
    record {
      result_id = ids.result_id;
      proposal_id = ids.proposal_id;
      assessment_id = ids.assessment_id;
      symbol = symbol;
      side = closing_side p.side;
      order_type = OrderType.market;
      status = OrderStatus.filled;
      requested_quantity = p.quantity;
      filled_quantity = p.quantity;
      average_fill_price = some exit;
      total_cost_usd = some (pos notional);
      fee_usd = some (pos (taker_fee notional));
      realized_pnl_usd = some (quantize_cent (cash_returned p exit -ℤ p.cost_usd));
      is_paper = true;
    }

-- The state after a position is closed: it is gone, and its cash is back.
unfoldable pub settle : PaperPosition → ℕ → ℕ → Broker → Broker
settle p symbol exit b = record b {
  cash_balance = b.cash_balance +ℤ cash_returned p exit;
  positions = remove symbol b.positions;
}

-- `_close`
unfoldable pub close : ℕ → ℕ → OrderIds → Broker → Option ExecutionResult × Broker
unfolding close_result settle fill_price
close symbol ref ids b = elim (get symbol b.positions) [
  | none ↦ (none, b)
  | some p ↦
      let exit = exit_price p.side ref in
      (some (close_result p symbol exit ids), settle p symbol exit b)
]

-- The reference of `close_position`: a positive price, or else the entry price.
unfoldable pub close_reference : Option Decimal → PaperPosition → ℕ
close_reference none p = p.entry_price * place8
close_reference (some (negsuc _)) p = p.entry_price * place8
close_reference (some (pos n)) p = if n == 0 then p.entry_price * place8 else n

-- `close_position`
unfoldable pub close_position :
    ℕ → Option Decimal → OrderIds → Broker → Option ExecutionResult × Broker
unfolding close close_reference
close_position symbol price ids b = elim (get symbol b.positions) [
  | none ↦ (none, b)
  | some p ↦ close symbol (close_reference price p) ids b
]

-- The result that an opening fill reports.
unfoldable pub open_result : ℕ → OrderSide → OrderType → Fill → OrderIds → ExecutionResult
unfolding taker_fee
open_result symbol side kind x ids =
    let notional = notional_of x.quantity x.price in
    record {
      result_id = ids.result_id;
      proposal_id = ids.proposal_id;
      assessment_id = ids.assessment_id;
      symbol = symbol;
      side = side;
      order_type = kind;
      status = x.status;
      requested_quantity = x.requested;
      filled_quantity = x.quantity;
      average_fill_price = some x.price;
      total_cost_usd = some (pos notional);
      fee_usd = some (pos (taker_fee notional));
      realized_pnl_usd = none;
      is_paper = true;
    }

-- The position that an opening fill leaves.
abbrev pub opened : ℕ → OrderSide → Fill → PaperPosition
opened symbol side x = record {
  symbol = symbol;
  side = side;
  quantity = x.quantity;
  entry_price = x.price;
  cost_usd = pos (total_cost x);
}

-- The portfolio after an opening fill: its cost leaves the cash, and the position is there.
unfoldable pub reserve : ℕ → OrderSide → Fill → Broker → Broker
unfolding total_cost
reserve symbol side x b = record b {
  cash_balance = b.cash_balance -ℤ pos (total_cost x);
  positions = put symbol (opened symbol side x) b.positions;
}

-- Cash check, new position and result of an opening fill.
unfoldable pub open_position :
    ℕ → OrderSide → OrderType → Fill → OrderIds → Broker → Result ExecutionResult × Broker
unfolding total_cost open_result remember reserve
open_position symbol side kind x ids b =
    let result = open_result symbol side kind x ids in
    if ltb_ℤ b.cash_balance (pos (total_cost x))
    then (err insufficient_balance, b)
    else (ok result, remember ids.proposal_id result (reserve symbol side x b))

-- An order on a symbol with an open position: no stacking; the opposite side closes it.
unfoldable pub against_existing :
    PaperPosition → ℕ → OrderSide → ℕ → OrderIds → Broker → Result ExecutionResult × Broker
unfolding close remember
against_existing p symbol side ref ids b =
    if same_side p.side side
    then (err already_open, b)
    else let (r, b') = close symbol ref ids b in
      elim r [
        | none ↦ (err no_open_position, b')
        | some result ↦ (ok result, remember ids.proposal_id result b')
      ]

-- The rest of `place_order` for a fill that was computed or refused.
unfoldable pub open_if_ok :
    ℕ → OrderSide → OrderType → OrderIds → Result Fill → Broker → Result ExecutionResult × Broker
unfolding open_position
open_if_ok symbol side kind ids (err e) b = (err e, b)
open_if_ok symbol side kind ids (ok x) b = open_position symbol side kind x ids b

module _ {F : Type 0} where
  abbrev pub order_ids : ℕ → RiskAssessment F → OrderIds
  order_ids result_id a = record {
    result_id = result_id;
    proposal_id = a.proposal_id;
    assessment_id = a.assessment_id;
  }

  -- `place_order` after the sleep.
  unfoldable pub finish_order :
      RiskAssessment F → ℕ → Draw → ℕ → Broker → Result ExecutionResult × Broker
  unfolding against_existing open_if_ok compute_fill
  finish_order a ref d result_id b =
      let p = a.original_proposal in
      let ids = order_ids result_id a in
      elim (get p.symbol b.positions) [
        | some held ↦ against_existing held p.symbol p.side ref ids b
        | none ↦
            open_if_ok p.symbol p.side p.order_type ids
              (compute_fill p.side ref (effective_size_usd a) d) b
      ]

  -- `place_order` once the reference price is known or refused.
  unfoldable pub resume_order :
      RiskAssessment F → Draw → ℕ → Result ℕ → Broker → Result ExecutionResult × Broker
  unfolding finish_order
  resume_order a d result_id (err e) b = (err e, b)
  resume_order a d result_id (ok ref) b = finish_order a ref d result_id b

-- What the first part of `place_order` comes to: a cached result, or the reference price it found or
-- refused.
pub data Started : Type 0 where
  cached : ExecutionResult → Started
  priced : Result ℕ → Started

-- `ref_price <= 0`
abbrev pub positive_price : Decimal → Result ℕ
positive_price (negsuc _) = err bad_reference_price
positive_price (pos n) = if n == 0 then err bad_reference_price else ok n

module _ {F : Type 0} ⦃f : Float F⦄ where
  abbrev pub reference_price : Option (TechnicalSignal F) → Result ℕ
  reference_price none = err no_reference_price
  reference_price (some t) = positive_price (f.to_decimal t.price)

  -- `place_order` before the sleep.
  unfoldable pub begin_order : RiskAssessment F → Broker → Started
  begin_order a b =
      if b.paper_mode
      then elim (get a.proposal_id b.filled_orders) [
        | some r ↦ cached r
        | none ↦ priced (reference_price a.original_proposal.signal.technical_signal)
      ]
      else priced (err not_paper_mode)

  -- `place_order`, when nothing else runs during its sleep.
  unfoldable pub place_order :
      RiskAssessment F → Draw → ℕ → Broker → Result ExecutionResult × Broker
  unfolding begin_order resume_order
  place_order a d result_id b = elim (begin_order a b) [
    | cached r ↦ (ok r, b)
    | priced r ↦ resume_order a d result_id r b
  ]
