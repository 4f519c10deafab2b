-- ===== src/Broker/Opening.antt =====
-- What an opening fill of the paper broker is and what it costs (paper_broker.py).
use multi_agent_trading_syst.Prelude.{
  ℕ, ◌*◌, ◌≤◌, ◌<◌, ◌^◌, ◌≡◌, refl, Option, none, some, arith, Bool-cases, inl, inr,
}
use multi_agent_trading_syst.Prelude.Int.{pos, ltb_ℤ, ◌≤ℤ◌, ◌-ℤ◌, int_laws, parts_of_eq}
use multi_agent_trading_syst.Prelude.Decimal.{Decimal}
use multi_agent_trading_syst.Prelude.Dict.{get, get-put_self}
use multi_agent_trading_syst.Models.Trade.{
  RiskAssessment, ExecutionResult, OrderSide, OrderType, effective_size_usd,
}
use multi_agent_trading_syst.Broker.State.{PaperPosition, Broker, remember}
use multi_agent_trading_syst.Broker.Order.{
  Result, ok, err, Draw, Fill, OrderIds, settle, reserve, open_position, open_if_ok, finish_order,
  total_cost, exit_price, close_position, open_result, order_ids, compute_fill, opened,
  cash_returned, close_reference, fill_price,
}
use multi_agent_trading_syst.Broker.Fill.{
  IsFillFor, compute_fill-IsFillFor, total_cost-le, cash_returned-opened-le,
}
use multi_agent_trading_syst.Broker.Equity.{
  equity, used_margin-remove, used_margin-put_new, close-held,
}

-- The one way in which an opening order succeeds.
pub record IsOpening (symbol : ℕ) (side : OrderSide) (kind : OrderType) (ids : OrderIds) (x : Fill)
    (b : Broker) (r : ExecutionResult) (b' : Broker) : Type 0 where
  pub covered : pos (total_cost x) ≤ℤ b.cash_balance
  pub result_is : r ≡ open_result symbol side kind x ids
  pub state_is : b' ≡ remember ids.proposal_id r (reserve symbol side x b)

open_position-IsOpening :
    (symbol : ℕ) (side : OrderSide) (kind : OrderType) (x : Fill) (ids : OrderIds) (b : Broker)
    (r : ExecutionResult) (b' : Broker)
    → open_position symbol side kind x ids b ≡ (ok r, b')
    → IsOpening symbol side kind ids x b r b'
unfolding open_position
open_position-IsOpening symbol side kind x ids b r b' e =
    elim (Bool-cases (ltb_ℤ b.cash_balance (pos (total_cost x)))) [
      | inl short ↦ absurd (cc (rw short at e))
      | inr enough ↦
          let made = rw enough at e in
          record { covered = ground arith; result_is = cc; state_is = cc }
    ]

open_if_ok-IsOpening :
    (symbol : ℕ) (side : OrderSide) (kind : OrderType) (ids : OrderIds) (f : Result Fill)
    (b : Broker) (r : ExecutionResult) (b' : Broker)
    → open_if_ok symbol side kind ids f b ≡ (ok r, b')
    → (x : Fill) × (f ≡ ok x) × IsOpening symbol side kind ids x b r b'
unfolding open_if_ok
open_if_ok-IsOpening symbol side kind ids (err _) b r b' e = cc
open_if_ok-IsOpening symbol side kind ids (ok x) b r b' e =
    (x, refl, open_position-IsOpening symbol side kind x ids b r b' e)

module _ {F : Type 0} (a : RiskAssessment F) (ref : ℕ) (d : Draw) (rid : ℕ) where
  -- Placing an order on a flat symbol succeeds only as an opening fill, of the computed fill.
  pub finish_order-IsOpening :
      (b : Broker) (r : ExecutionResult) (b' : Broker)
      → get a.original_proposal.symbol b.positions ≡ none
      → finish_order a ref d rid b ≡ (ok r, b')
      → let p = a.original_proposal in
        (x : Fill) × (compute_fill p.side ref (effective_size_usd a) d ≡ ok x)
        × IsOpening p.symbol p.side p.order_type (order_ids rid a) x b r b'
  unfolding finish_order
  finish_order-IsOpening b r b' flat e =
      let p = a.original_proposal in
      open_if_ok-IsOpening p.symbol p.side p.order_type (order_ids rid a) _ b r b'
        (rw (flat, finish_order) at e)

module _ {F : Type 0} (a : RiskAssessment F) (ref : ℕ) (d : Draw) (rid size : ℕ)
    (sized : effective_size_usd a ≡ pos size) (ratio : d.fill_ratio ≤ 10 ^ 17) where
  pub finish_order-fill :
      (b : Broker) (r : ExecutionResult) (b' : Broker)
      → get a.original_proposal.symbol b.positions ≡ none
      → finish_order a ref d rid b ≡ (ok r, b')
      → let p = a.original_proposal in
        (x : Fill) × IsFillFor p.side ref size x
        × IsOpening p.symbol p.side p.order_type (order_ids rid a) x b r b'
  finish_order-fill b r b' flat e =
      let p = a.original_proposal in
      let (x, made, o) = finish_order-IsOpening a ref d rid b r b' flat e in
      (x, compute_fill-IsFillFor p.side ref size d ratio (rw sized at made), o)

  -- A successful opening order spends at most the approved size and a tenth of a percent, never
  -- more than the cash at hand, and fills some quantity, no more than it asked for.
  pub finish_order-spends :
      (b : Broker) (r : ExecutionResult) (b' : Broker)
      → get a.original_proposal.symbol b.positions ≡ none
      → finish_order a ref d rid b ≡ (ok r, b')
      → (spent : ℕ) × (b'.cash_balance ≡ b.cash_balance -ℤ pos spent)
        × (spent * 1000 ≤ size * 1001)
        × (pos 0 ≤ℤ b'.cash_balance)
        × (0 < r.filled_quantity)
        × (r.filled_quantity ≤ r.requested_quantity)
  unfolding remember reserve open_result
  finish_order-spends b r b' flat e =
      let (x, h, o) = finish_order-fill b r b' flat e in
      (
        total_cost x,
        rw o.state_is refl,
        total_cost-le h,
        rw o.state_is (omega (int_laws, o.covered)),
        rw o.result_is h.filled_pos,
        rw o.result_is h.filled_le,
      )

settle-equity-le :
    (p : PaperPosition) (symbol exit cost : ℕ) (b : Broker)
    → get symbol b.positions ≡ some p
    → p.cost_usd ≡ pos cost
    → cash_returned p exit ≤ℤ pos cost
    → equity (settle p symbol exit b) ≤ℤ equity b
unfolding settle
settle-equity-le p symbol exit cost b held price h =
    omega
      (int_laws, h, parts_of_eq price, parts_of_eq (used_margin-remove symbol p b.positions held))

reserve-equity :
    (symbol : ℕ) (side : OrderSide) (x : Fill) (b : Broker)
    → get symbol b.positions ≡ none
    → equity (reserve symbol side x b) ≡ equity b
unfolding reserve
reserve-equity symbol side x b flat =
    omega
      (int_laws, parts_of_eq (used_margin-put_new symbol (opened symbol side x) b.positions flat))

close_position-held :
    (p : PaperPosition) (symbol : ℕ) (price : Option Decimal) (ids : OrderIds) (b : Broker)
    → get symbol b.positions ≡ some p
    → (close_position symbol price ids b).1
      ≡ settle p symbol (exit_price p.side (close_reference price p)) b
unfolding close_position
close_position-held p symbol price ids b held =
    rw (held, close_position) (rw (close-held p symbol (close_reference price p) ids b held))

close_reference-given :
    (ref : ℕ) (p : PaperPosition) → 0 < ref → close_reference (some (pos ref)) p ≡ ref
unfolding close_reference
close_reference-given ref p h = ground arith

opened-settle-le :
    (symbol : ℕ) (side : OrderSide) (ref pid : ℕ) (x : Fill) (r : ExecutionResult) (b : Broker)
    → get symbol b.positions ≡ none
    → x.price ≡ fill_price side ref
    → equity (
        settle
          (opened symbol side x)
          symbol
          (exit_price side ref)
          (remember pid r (reserve symbol side x b)))
      ≤ℤ equity b
unfolding remember reserve
opened-settle-le symbol side ref pid x r b flat at =
    let p = opened symbol side x in
    let there = get-put_self symbol p b.positions in
    let loss =
      settle-equity-le p symbol (exit_price side ref) (total_cost x)
        (remember pid r (reserve symbol side x b)) there refl
        (cash_returned-opened-le symbol side ref x at) in
    omega (arith, loss, parts_of_eq (reserve-equity symbol side x b flat))

module _ {F : Type 0} (a : RiskAssessment F) (ref : ℕ) (d : Draw) (rid size : ℕ)
    (sized : effective_size_usd a ≡ pos size) (ratio : d.fill_ratio ≤ 10 ^ 17) where
  -- No money is made by opening a position and closing it at the reference price it was opened at:
  -- the equity after both is at most what it was before.
  pub open_close-loses :
      (ids : OrderIds) (b : Broker) (r : ExecutionResult) (b' : Broker)
      → 0 < ref
      → get a.original_proposal.symbol b.positions ≡ none
      → finish_order a ref d rid b ≡ (ok r, b')
      → equity (close_position a.original_proposal.symbol (some (pos ref)) ids b').1 ≤ℤ equity b
  unfolding remember reserve
  open_close-loses ids b r b' positive flat e =
      let p = a.original_proposal in
      let (x, h, o) = finish_order-fill a ref d rid size sized ratio b r b' flat e in
      let held = opened p.symbol p.side x in
      rw
        (
          o.state_is,
          close_position-held held p.symbol (some (pos ref)) ids
              (remember a.proposal_id r (reserve p.symbol p.side x b))
              (get-put_self p.symbol held b.positions),
          close_reference-given ref held positive,
        )
        (opened-settle-le p.symbol p.side ref a.proposal_id x r b flat h.price_at)
