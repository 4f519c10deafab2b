-- ===== src/Mt5/Orders.antt =====
-- agents/execution/mt5_bridge.py: what the bridge sends for an order and reads from a response.
-- Quantities and prices of a response are in units of 10^-8.
use multi_agent_trading_syst.Prelude.{
  ℕ, Bool, true, false, Option, none, some, if◌then◌else◌, ltb, leb, ◌==◌,
}
use multi_agent_trading_syst.Prelude.Int.{pos, pos_part, leb_ℤ, ◌+ℤ◌, ◌-ℤ◌, ◌*ℤ◌}
use multi_agent_trading_syst.Prelude.Decimal.{
  Decimal, unit, place8, half_even, half_even_ℤ, mul_decimal, div_decimal, notional_of,
}
use multi_agent_trading_syst.Prelude.Float.{Float, nought, max_float, min_float, or_float}
use multi_agent_trading_syst.Models.Signals.{TechnicalSignal}
use multi_agent_trading_syst.Models.Trade.{
  OrderSide, OrderType, OrderStatus, RiskAssessment, ExecutionResult, effective_size_usd,
}
use multi_agent_trading_syst.Mt5.Mapper.{SymbolMapper, to_mt5}

-- The lot sizes of the broker.
pub record Lots (F : Type 0) : Type 0 where
  pub min_volume : F
  pub max_volume : F
  pub volume_step : F

-- The commands, without the entries that are the same in each.
pub data Command (F : Type 0) : Type 0 where
  place_order_command :
      (proposal_id symbol : ℕ) (side : OrderSide) (volume stop_loss_pct take_profit_pct : F)
      → Command F
  cancel_order_command : (order_id symbol : ℕ) → Command F
  close_position_command : (symbol : ℕ) → Command F
  modify_stops_command : (order_id symbol : ℕ) (stop_loss take_profit : F) → Command F

pub data ResponseStatus : Type 0 where
  ok_status error_status other_status : ResponseStatus

-- What the terminal posts; an entry may be missing.
pub record Response : Type 0 where
  pub command_id : ℕ
  pub status : ResponseStatus
  pub order_id : ℕ
  pub fill_quantity : Option ℕ
  pub fill_price : Option ℕ
  pub is_buy : Bool

-- What the bridge raises.
pub data BridgeError : Type 0 where
  unknown_symbol no_effective_size no_reference_price order_rejected no_response : BridgeError

pub data Outcome (A : Type 0) : Type 0 where
  done : A → Outcome A
  failed : BridgeError → Outcome A

-- `(size / price).quantize(Decimal("0.00000001"))`
unfoldable quantity_at : Decimal → Decimal → Decimal
unfolding half_even half_even_ℤ ◌*ℤ◌ div_decimal
quantity_at size price = half_even_ℤ (div_decimal size (pos_part price)) place8 *ℤ pos place8

module _ {F : Type 0} ⦃f : Float F⦄ where
  -- `_clamp_volume`
  unfoldable pub clamp_volume : Lots F → F → F
  clamp_volume l volume =
      let stepped =
        f.round_to 2 (f.mul (f.round_to 0 (f.div volume l.volume_step)) l.volume_step) in
      min_float (max_float stepped l.min_volume) l.max_volume

  abbrev price_of : Option (TechnicalSignal F) → Decimal
  price_of none = pos 0
  price_of (some t) = f.to_decimal t.price

  -- `_get_ref_price`
  abbrev pub get_ref_price : RiskAssessment F → Decimal
  get_ref_price a = price_of a.original_proposal.signal.technical_signal

  unfoldable volume_for : Lots F → Decimal → Decimal → Outcome F
  unfolding clamp_volume quantity_at
  volume_for l size price =
      if leb_ℤ size (pos 0)
      then failed BridgeError.no_effective_size
      else if leb_ℤ price (pos 0)
      then failed BridgeError.no_reference_price
      else done (clamp_volume l (f.of_decimal (quantity_at size price)))

  -- `_resolve_volume`; `approved_quantity` is a field of the assessment that only test orders set.
  unfoldable pub resolve_volume : Lots F → Option F → RiskAssessment F → Outcome F
  unfolding clamp_volume volume_for
  resolve_volume l (some approved_quantity) a = done (clamp_volume l approved_quantity)
  resolve_volume l none a = volume_for l (effective_size_usd a) (get_ref_price a)

  -- `_compute_stops`: the stop-loss and the take-profit price.
  unfoldable pub compute_stops : Decimal → OrderSide → RiskAssessment F → F × F
  unfolding mul_decimal ◌+ℤ◌ ◌-ℤ◌
  compute_stops price side a =
      let stop = f.to_decimal (or_float a.approved_stop_loss_pct (f.lit 2 100)) in
      let take = f.to_decimal (or_float a.approved_take_profit_pct (f.lit 4 100)) in
      if leb_ℤ price (pos 0) then (nought, nought) else elim side [
        | OrderSide.buy ↦ (
          f.of_decimal (mul_decimal price (pos unit -ℤ stop)),
          f.of_decimal (mul_decimal price (pos unit +ℤ take)),
        )
        | OrderSide.sell ↦ (
          f.of_decimal (mul_decimal price (pos unit +ℤ stop)),
          f.of_decimal (mul_decimal price (pos unit -ℤ take)),
        )
      ]

  abbrev command_with : RiskAssessment F → ℕ → Outcome F → Outcome (Command F)
  command_with a symbol (failed e) = failed e
  command_with a symbol (done volume) = done (
      place_order_command a.proposal_id symbol a.original_proposal.side volume
        (or_float a.approved_stop_loss_pct (f.lit 1 100))
        (or_float a.approved_take_profit_pct (f.lit 15 1000)))

  unfoldable command_for : Lots F → Option F → RiskAssessment F → Option ℕ → Outcome (Command F)
  unfolding resolve_volume
  command_for l approved a none = failed BridgeError.unknown_symbol
  command_for l approved a (some symbol) = command_with a symbol (resolve_volume l approved a)

  -- `place_order` up to its wait: the command that is queued.
  unfoldable pub place_command :
      SymbolMapper → Lots F → Option F → RiskAssessment F → Outcome (Command F)
  unfolding command_for
  place_command m l approved a = command_for l approved a (to_mt5 m a.original_proposal.symbol)

abbrev or_units : Option ℕ → ℕ → ℕ
or_units none d = d
or_units (some n) d = n

-- `fill_quantity * fill_price if fill_price else None`
abbrev cost_of : ℕ → ℕ → Option Decimal
cost_of quantity price = if price == 0 then none else some (pos (notional_of quantity price))

module _ {F : Type 0} where
  -- `place_order` after its wait, for the volume that was sent.
  unfoldable pub place_result : ℕ → ℕ → RiskAssessment F → Option Response → Outcome ExecutionResult
  place_result rid volume a none = failed BridgeError.no_response
  place_result rid volume a (some r) =
      let p = a.original_proposal in
      let quantity = or_units r.fill_quantity volume in
      let price = or_units r.fill_price 0 in
      elim r.status [
        | error_status ↦ failed BridgeError.order_rejected
        | _ ↦ done record {
          result_id = rid;
          proposal_id = a.proposal_id;
          assessment_id = a.assessment_id;
          symbol = p.symbol;
          side = p.side;
          order_type = p.order_type;
          status = if leb volume quantity then OrderStatus.filled else OrderStatus.partially_filled;
          requested_quantity = volume;
          filled_quantity = quantity;
          average_fill_price = some price;
          total_cost_usd = cost_of quantity price;
          fee_usd = none;
          realized_pnl_usd = none;
          is_paper = false;
        }
      ]

-- The three fresh ids of a result of `close_position`.
pub record CloseIds : Type 0 where
  pub result_id : ℕ
  pub proposal_id : ℕ
  pub assessment_id : ℕ

-- `close_position` after its wait: a timeout and a refusal give no result.
unfoldable pub close_result : CloseIds → ℕ → Option Response → Option ExecutionResult
close_result ids symbol none = none
close_result ids symbol (some r) =
    let quantity = or_units r.fill_quantity 0 in
    let price = or_units r.fill_price 0 in
    elim r.status [
      | error_status ↦ none
      | _ ↦ some record {
        result_id = ids.result_id;
        proposal_id = ids.proposal_id;
        assessment_id = ids.assessment_id;
        symbol = symbol;
        side = if r.is_buy then OrderSide.buy else OrderSide.sell;
        order_type = OrderType.market;
        status = if ltb 0 quantity then OrderStatus.filled else OrderStatus.rejected;
        requested_quantity = quantity;
        filled_quantity = quantity;
        average_fill_price = if ltb 0 price then some price else none;
        total_cost_usd = cost_of quantity price;
        fee_usd = none;
        realized_pnl_usd = none;
        is_paper = false;
      }
    ]

-- `cancel_order` and `modify_stops` after their wait.
abbrev pub is_ok : Response → Bool
is_ok r = elim r.status [ ok_status ↦ true | _ ↦ false ]
