-- ===== src/Risk/Reservation.antt =====
-- The life of a reservation in the Risk agent's ledger (drawdown_monitor.py, agent.py): made on
-- approval, then released by a failed order or replaced by the cost of the fill.
use multi_agent_trading_syst.Prelude.{ℕ, ◌≡◌, refl, true, false, none, some, if◌then◌else◌}
use multi_agent_trading_syst.Prelude.Int.{ℤ, pos, ◌+ℤ◌, ◌-ℤ◌, int_laws}
use multi_agent_trading_syst.Prelude.Decimal.{Decimal}
use multi_agent_trading_syst.Prelude.Dict.{get, has_key, get-put_self, remove-put_new, put-put}
use multi_agent_trading_syst.Models.Trade.{OrderSide, ExecutionResult, same_side}
use multi_agent_trading_syst.Risk.Drawdown.{
  PortfolioState, position_side, open_position, adjust_position_cost, close_position,
}
use multi_agent_trading_syst.Risk.Ledger.{adjust_position_cost-held}
use multi_agent_trading_syst.Risk.Agent.{
  RiskAgent, released, reconciled, closed, or_zero, is_fill, actual_cost, apply_to_ledger,
  apply_execution_result, mark_seen, with_ledger,
}

-- The symbol is in neither dict of the ledger.
pub record IsFlat (symbol : ℕ) (s : PortfolioState) : Type 0 where
  pub no_cost : get symbol s.open_positions ≡ none
  pub no_side : get symbol s.position_sides ≡ none

same_side_refl : (side : OrderSide) → same_side side side ≡ true
same_side_refl OrderSide.buy = refl
same_side_refl OrderSide.sell = refl

-- A position that was just opened is held on its side.
pub position_side-open :
    (symbol : ℕ) (size : Decimal) (side : OrderSide) (s : PortfolioState)
    → position_side symbol (open_position symbol size (some side) s) ≡ some side
unfolding position_side open_position
position_side-open symbol size side s =
    rw (get-put_self symbol size s.open_positions, get-put_self symbol side s.position_sides)

give_back : (cash size : ℤ) → cash -ℤ size +ℤ (size +ℤ pos 0) ≡ cash
give_back cash size = omega int_laws

add_zero : (x : ℤ) → x +ℤ pos 0 ≡ x
add_zero x = omega int_laws

pub close-open :
    (symbol : ℕ) (size : Decimal) (side : OrderSide) (s : PortfolioState)
    → IsFlat symbol s
    → close_position symbol (pos 0) (open_position symbol size (some side) s) ≡ s
unfolding close_position open_position
close-open symbol size side s flat = rw (
  get-put_self symbol size s.open_positions,
  remove-put_new symbol size s.open_positions flat.no_cost,
  remove-put_new symbol side s.position_sides flat.no_side,
  give_back s.current_balance_usd size,
  add_zero s.daily_realized_pnl,
)

module _ {F : Type 0} where
  -- A result with a new id goes to the ledger, and its id is marked as seen.
  pub apply-new :
      (r : ExecutionResult) (s : RiskAgent F)
      → has_key r.result_id s.seen_results ≡ false
      → apply_execution_result r s
        ≡ with_ledger s
            (mark_seen r.result_id s.seen_results)
            (apply_to_ledger r (position_side r.symbol s.portfolio) s.portfolio)
  unfolding apply_execution_result
  apply-new r s new = rw new

apply_to_ledger-opened :
    (r : ExecutionResult) (size : Decimal) (ledger : PortfolioState)
    → let opened = open_position r.symbol size (some r.side) ledger in
      apply_to_ledger r (position_side r.symbol opened) opened ≡ (
        if is_fill r
        then (reconciled, adjust_position_cost r.symbol (actual_cost r) opened)
        else (released, close_position r.symbol (pos 0) opened))
unfolding apply_to_ledger
apply_to_ledger-opened r size ledger =
    rw (position_side-open r.symbol size r.side ledger, same_side_refl r.side)

exchange : (cash size actual : ℤ) → cash -ℤ size +ℤ (size -ℤ actual) ≡ cash -ℤ actual
exchange cash size actual = omega int_laws

adjust-open :
    (symbol : ℕ) (actual size : Decimal) (side : OrderSide) (s : PortfolioState)
    → adjust_position_cost symbol actual (open_position symbol size (some side) s)
      ≡ open_position symbol actual (some side) s
unfolding open_position
adjust-open symbol actual size side s = rw (
  adjust_position_cost-held symbol actual size (open_position symbol size (some side) s)
      (get-put_self symbol size s.open_positions),
  put-put symbol actual size s.open_positions,
  exchange s.current_balance_usd size actual,
)

module _ {F : Type 0} where
  -- A failed opening order returns the ledger to what it was before the approval reserved its size.
  pub apply-released :
      (r : ExecutionResult) (size : Decimal) (ledger : PortfolioState) (s : RiskAgent F)
      → has_key r.result_id s.seen_results ≡ false
      → is_fill r ≡ false
      → IsFlat r.symbol ledger
      → s.portfolio ≡ open_position r.symbol size (some r.side) ledger
      → apply_execution_result r s ≡ (
        released,
        record s { portfolio = ledger; seen_results = mark_seen r.result_id s.seen_results },
      )
  apply-released r size ledger s new fails flat e = rw (
    apply-new r s new,
    e,
    apply_to_ledger-opened r size ledger,
    fails,
    close-open r.symbol size r.side ledger flat,
  )

  -- An opening fill leaves the ledger as if its actual cost, fee included, had been reserved in the
  -- first place, whatever size the approval had reserved.
  pub apply-reconciled :
      (r : ExecutionResult) (size : Decimal) (ledger : PortfolioState) (s : RiskAgent F)
      → has_key r.result_id s.seen_results ≡ false
      → is_fill r ≡ true
      → s.portfolio ≡ open_position r.symbol size (some r.side) ledger
      → apply_execution_result r s ≡ (
        reconciled,
        record s {
          portfolio = open_position r.symbol (actual_cost r) (some r.side) ledger;
          seen_results = mark_seen r.result_id s.seen_results;
        },
      )
  apply-reconciled r size ledger s new fills e = rw (
    apply-new r s new,
    e,
    apply_to_ledger-opened r size ledger,
    fills,
    adjust-open r.symbol (actual_cost r) size r.side ledger,
  )

  -- A fill on the other side of a held position closes it with the PnL that the fill reports.
  pub apply-closed :
      (r : ExecutionResult) (held : OrderSide) (s : RiskAgent F)
      → has_key r.result_id s.seen_results ≡ false
      → is_fill r ≡ true
      → position_side r.symbol s.portfolio ≡ some held
      → same_side held r.side ≡ false
      → apply_execution_result r s ≡ (
        closed,
        record s {
          portfolio = close_position r.symbol (or_zero r.realized_pnl_usd) s.portfolio;
          seen_results = mark_seen r.result_id s.seen_results;
        },
      )
  unfolding apply_to_ledger
  apply-closed r held s new fills e opposite = rw (apply-new r s new, e, fills, opposite)
