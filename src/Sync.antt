-- ===== src/Sync.antt =====
-- The Risk agent's ledger beside the paper broker's portfolio: agents/risk/agent.py applies the results
-- that agents/execution/agent.py publishes for the broker's fills.
mod Refusal
mod Tests
use multi_agent_trading_syst.Prelude.{
  ℕ, suc, ◌≤◌, ◌<◌, ◌^◌, ◌≡◌, refl, ap, ◌∙◌, sym, true, false, Option, none, some, arith,
  if◌then◌else◌, ◌==◌,
}
use multi_agent_trading_syst.Prelude.Int.{pos, ◌-ℤ◌, int_laws, +ℤ_pos}
use multi_agent_trading_syst.Prelude.Decimal.{Decimal, notional_of, quantize_cent}
use multi_agent_trading_syst.Prelude.Rounding.{quantize_cent-near}
use multi_agent_trading_syst.Prelude.Dict.{
  get, has_key, get-put, get-remove_ne, get-remove, get-remove_self, IsDict,
}
use multi_agent_trading_syst.Models.Trade.{
  OrderSide, OrderType, RiskAssessment, ExecutionResult, same_side, effective_size_usd,
  is_successful,
}
use multi_agent_trading_syst.Broker.State.{PaperPosition, Broker, remember}
use multi_agent_trading_syst.Broker.Order.{
  Result, ok, Draw, Fill, OrderIds, finish_order, reserve, settle, total_cost, opened, open_result,
  order_ids, close_result, cash_returned, exit_price, closing_side,
}
use multi_agent_trading_syst.Broker.Session.{IsWithinHalfCents}
use multi_agent_trading_syst.Broker.Equity.{against_existing-opposite}
use multi_agent_trading_syst.Broker.Opening.{finish_order-fill}
use multi_agent_trading_syst.Risk.Drawdown.{
  PortfolioState, position_side, open_position, close_position,
}
use multi_agent_trading_syst.Risk.Reservation.{apply-reconciled, apply-closed}
use multi_agent_trading_syst.Risk.Agent.{
  RiskAgent, is_fill, actual_cost, apply_execution_result, or_zero,
}

abbrev cost_of : Option PaperPosition → Option Decimal
cost_of none = none
cost_of (some p) = some p.cost_usd

abbrev side_of : Option PaperPosition → Option OrderSide
side_of none = none
side_of (some p) = some p.side

-- The ledger has the broker's positions, with their costs and sides, and its cash up to n half cents.
pub record InSync (n : ℕ) (ledger : PortfolioState) (b : Broker) : Type 0 where
  pub cash : IsWithinHalfCents n ledger.current_balance_usd b.cash_balance
  pub costs : (k : ℕ) → get k ledger.open_positions ≡ cost_of (get k b.positions)
  pub sides : (k : ℕ) → position_side k ledger ≡ side_of (get k b.positions)

position_side-open :
    (k symbol : ℕ) (size : Decimal) (side : OrderSide) (s : PortfolioState)
    → position_side k (open_position symbol size (some side) s)
      ≡ (if k == symbol then some side else position_side k s)
unfolding position_side open_position
position_side-open k symbol size side s =
    ground (arith, get-put k symbol size s.open_positions, get-put k symbol side s.position_sides)

-- Booking the cost of an opening fill in a ledger that agreed before.
pub open-InSync :
    (n symbol : ℕ) (side : OrderSide) (x : Fill) (ledger : PortfolioState) (b : Broker)
    → InSync n ledger b
    → InSync n
        (open_position symbol (pos (total_cost x)) (some side) ledger)
        (reserve symbol side x b)
unfolding open_position reserve
open-InSync n symbol side x ledger b h = record {
  cash = omega (int_laws, h.cash);
  costs = λ k. ground (
    arith,
    get-put k symbol (pos (total_cost x)) ledger.open_positions,
    get-put k symbol (opened symbol side x) b.positions,
    h.costs k,
  );
  sides = λ k.
      rw (position_side-open k symbol (pos (total_cost x)) side ledger)
        (ground (arith, get-put k symbol (opened symbol side x) b.positions, h.sides k));
}

position_side-close :
    (k symbol : ℕ) (pnl : Decimal) (s : PortfolioState)
    → IsDict s.open_positions
    → position_side k (close_position symbol pnl s)
      ≡ (if k == symbol then none else position_side k s)
unfolding position_side close_position
position_side-close k symbol pnl s h =
    ground (arith, get-remove k symbol s.open_positions h, get-remove_ne k symbol s.position_sides)

-- Booking the reported PnL of a close in a ledger that agreed before: one more half cent.
pub close-InSync :
    (n symbol exit : ℕ) (ids : OrderIds) (p : PaperPosition) (ledger : PortfolioState) (b : Broker)
    → InSync n ledger b
    → IsDict ledger.open_positions
    → IsDict b.positions
    → get symbol b.positions ≡ some p
    → let pnl = or_zero (close_result p symbol exit ids).realized_pnl_usd in
      InSync (suc n) (close_position symbol pnl ledger) (settle p symbol exit b)
unfolding close_position settle close_result
close-InSync n symbol exit ids p ledger b h dict dict' held =
    let pnl = quantize_cent (cash_returned p exit -ℤ p.cost_usd) in
    let near = quantize_cent-near (cash_returned p exit -ℤ p.cost_usd) in
    let cost = h.costs symbol ∙ ap cost_of held in
    record {
      cash = rw cost (omega (int_laws, h.cash, near));
      costs = λ k. ground (
        arith,
        get-remove k symbol ledger.open_positions dict,
        get-remove k symbol b.positions dict',
        h.costs k,
      );
      sides = λ k.
          rw (position_side-close k symbol pnl ledger dict)
            (ground (arith, get-remove k symbol b.positions dict', h.sides k));
    }

remember-InSync :
    (n pid : ℕ) (r : ExecutionResult) (ledger : PortfolioState) (b : Broker)
    → InSync n ledger b
    → InSync n ledger (remember pid r b)
unfolding remember
remember-InSync n pid r ledger b h = record { cash = h.cash; costs = h.costs; sides = h.sides }

open_result-facts :
    (symbol : ℕ) (side : OrderSide) (kind : OrderType) (x : Fill) (ids : OrderIds)
    → 0 < x.quantity
    → is_successful x.status ≡ true
    → let r = open_result symbol side kind x ids in
      (is_fill r ≡ true) × (actual_cost r ≡ pos (total_cost x))
unfolding open_result total_cost
open_result-facts symbol side kind x ids some_filled status =
    (ground arith, omega (int_laws, +ℤ_pos (notional_of x.quantity x.price) _))

module _ {F : Type 0} (a : RiskAssessment F) (ref : ℕ) (d : Draw) (rid size : ℕ)
    (sized : effective_size_usd a ≡ pos size) (ratio : d.fill_ratio ≤ 10 ^ 17) where
  -- An opening order from end to end: the Risk agent has reserved some size for it in a ledger that
  -- agreed with the broker, the broker fills it, and the Risk agent applies the published result.
  -- Then the two agree as closely as before.
  pub opening-InSync :
      (n : ℕ) (reserved : Decimal) (ledger : PortfolioState) (s : RiskAgent F) (b : Broker)
      (r : ExecutionResult) (b' : Broker)
      → InSync n ledger b
      → s.portfolio
        ≡ open_position a.original_proposal.symbol reserved (some a.original_proposal.side) ledger
      → get a.original_proposal.symbol b.positions ≡ none
      → finish_order a ref d rid b ≡ (ok r, b')
      → has_key rid s.seen_results ≡ false
      → InSync n (apply_execution_result r s).1.portfolio b'
  unfolding open_result
  opening-InSync n reserved ledger s b r b' h e flat done new =
      let p = a.original_proposal in
      let (x, fill, o) = finish_order-fill a ref d rid size sized ratio b r b' flat done in
      let made = open_result p.symbol p.side p.order_type x (order_ids rid a) in
      let (counts, cost) =
        open_result-facts p.symbol p.side p.order_type x (order_ids rid a) fill.filled_pos
          fill.counts_as_filled in
      rw (o.state_is, o.result_is, apply-reconciled made reserved ledger s new counts e, cost)
        (remember-InSync n a.proposal_id made _ _ (open-InSync n p.symbol p.side x ledger b h))

close_position-flat :
    (symbol : ℕ) (pnl : Decimal) (s : PortfolioState)
    → IsDict s.open_positions
    → get symbol (close_position symbol pnl s).open_positions ≡ none
unfolding close_position
close_position-flat symbol pnl s h = get-remove_self symbol s.open_positions h

settled-flat :
    (pid : ℕ) (r : ExecutionResult) (p : PaperPosition) (symbol exit : ℕ) (b : Broker)
    → IsDict b.positions
    → get symbol (remember pid r (settle p symbol exit b)).positions ≡ none
unfolding remember settle
settled-flat pid r p symbol exit b h = get-remove_self symbol b.positions h

closing_side-differs : (side : OrderSide) → same_side side (closing_side side) ≡ false
closing_side-differs OrderSide.buy = refl
closing_side-differs OrderSide.sell = refl

close_result-facts :
    (p : PaperPosition) (symbol exit : ℕ) (ids : OrderIds)
    → 0 < p.quantity
    → let r = close_result p symbol exit ids in
      (is_fill r ≡ true) × (same_side p.side r.side ≡ false)
unfolding close_result
close_result-facts p symbol exit ids h = (ground arith, closing_side-differs p.side)

ok_pair :
    {A B : Type 0} (x r : A) (b b' : B)
    → ◌≡◌ {A = Result A × B} (ok x, b) (ok r, b')
    → (r ≡ x) × (b' ≡ b)
ok_pair x r b b' e = (cc, cc)

module _ {F : Type 0} (a : RiskAssessment F) (ref : ℕ) (d : Draw) (rid : ℕ) where
  -- A closing order from end to end: the broker holds a position on the other side of the order, in
  -- agreement with the ledger, and closes it, and the Risk agent applies the published result. Then
  -- its symbol is flat in both, the other positions agree as before, and the two cash balances agree
  -- up to one more half cent.
  pub closing-InSync :
      (n : ℕ) (held : PaperPosition) (s : RiskAgent F) (b : Broker) (r : ExecutionResult)
      (b' : Broker)
      → InSync n s.portfolio b
      → IsDict s.portfolio.open_positions
      → IsDict b.positions
      → get a.original_proposal.symbol b.positions ≡ some held
      → 0 < held.quantity
      → same_side held.side a.original_proposal.side ≡ false
      → finish_order a ref d rid b ≡ (ok r, b')
      → has_key rid s.seen_results ≡ false
      → InSync (suc n) (apply_execution_result r s).1.portfolio b'
        × (get a.original_proposal.symbol (apply_execution_result r s).1.portfolio.open_positions
            ≡ none)
        × (get a.original_proposal.symbol b'.positions ≡ none)
  unfolding finish_order close_result
  closing-InSync n held s b r b' h dict dict' e some_held opposite done new =
      let p = a.original_proposal in
      let ids = order_ids rid a in
      let exit = exit_price held.side ref in
      let result = close_result held p.symbol exit ids in
      let made : (ok result, remember a.proposal_id result (settle held p.symbol exit b))
          ≡ (ok r, b') =
        sym (against_existing-opposite held p.symbol p.side ref ids b e opposite)
        ∙ (rw (e, finish_order) at done) in
      let (counts, differs) = close_result-facts held p.symbol exit ids some_held in
      let (r_is, b_is) =
        ok_pair result r (remember a.proposal_id result (settle held p.symbol exit b)) b' made in
      rw
        (
          r_is,
          b_is,
          apply-closed result held.side s new counts (h.sides p.symbol ∙ ap side_of e) differs,
        )
        (
          remember-InSync (suc n) a.proposal_id result _ _
              (close-InSync n p.symbol exit ids held s.portfolio b h dict dict' e),
          close_position-flat p.symbol (or_zero result.realized_pnl_usd) s.portfolio dict,
          settled-flat a.proposal_id result held p.symbol exit b dict',
        )
