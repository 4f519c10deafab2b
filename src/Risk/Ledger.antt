-- ===== src/Risk/Ledger.antt =====
-- What each call does to the value of the Risk agent's ledger (drawdown_monitor.py, agent.py).
use mathlib.Core.Path.{subst}
use multi_agent_trading_syst.Prelude.{
  ℕ, Bool, true, false, not, ◌&&◌, ltb, if◌then◌else◌, ◌≡◌, refl, ◌∙◌, Option, none, some, [], ◌∷◌,
  arith, Bool-cases, Option-cases, inl, inr,
}
use multi_agent_trading_syst.Prelude.Int.{ℤ, pos, ◌+ℤ◌, ◌-ℤ◌, int_laws, parts_of_eq}
use multi_agent_trading_syst.Prelude.Decimal.{Decimal}
use multi_agent_trading_syst.Prelude.Dict.{Dict, get, put, remove, has_key}
use multi_agent_trading_syst.Models.Trade.{
  OrderSide, OrderStatus, filled, partially_filled, pending, open_order, cancelled, expired,
  is_successful, ExecutionResult, same_side,
}
use multi_agent_trading_syst.Risk.Drawdown.{
  PortfolioState, portfolio_value_usd, sum_values, position_side, open_position,
  adjust_position_cost, close_position,
}
use multi_agent_trading_syst.Risk.Agent.{
  apply_to_ledger, or_zero, RiskAgent, apply_execution_result, is_fill, actual_cost,
}

pub sum_values-put_new :
    (k : ℕ) (v : Decimal) (d : Dict Decimal)
    → get k d ≡ none
    → sum_values (put k v d) ≡ sum_values d +ℤ v
sum_values-put_new k v [] e = omega int_laws
sum_values-put_new k v (x ∷ d) e = grind (int_laws, sum_values-put_new k v d)

pub sum_values-put_old :
    (k : ℕ) (v w : Decimal) (d : Dict Decimal)
    → get k d ≡ some w
    → sum_values (put k v d) +ℤ w ≡ sum_values d +ℤ v
sum_values-put_old k v w [] e = cc
sum_values-put_old k v w (x ∷ d) e = grind (int_laws, sum_values-put_old k v w d)

pub sum_values-remove :
    (k : ℕ) (w : Decimal) (d : Dict Decimal)
    → get k d ≡ some w
    → sum_values (remove k d) +ℤ w ≡ sum_values d
sum_values-remove k w [] e = cc
sum_values-remove k w (x ∷ d) e = grind (int_laws, sum_values-remove k w d)

-- A symbol is flat in the ledger exactly when it has no position side.
pub position_side-flat :
    (symbol : ℕ) (s : PortfolioState)
    → position_side symbol s ≡ none
    → get symbol s.open_positions ≡ none
unfolding position_side
position_side-flat symbol s e = ground arith

pub position_side-held :
    (symbol : ℕ) (s : PortfolioState) {side : OrderSide}
    → position_side symbol s ≡ some side
    → (cost : Decimal) × (get symbol s.open_positions ≡ some cost)
unfolding position_side
position_side-held symbol s e = elim (Option-cases (get symbol s.open_positions)) [
  | inl flat ↦ absurd (ground arith)
  | inr held ↦ held
]

pub open_position-value :
    (symbol : ℕ) (size : Decimal) (side : Option OrderSide) (s : PortfolioState)
    → get symbol s.open_positions ≡ none
    → portfolio_value_usd (open_position symbol size side s) ≡ portfolio_value_usd s
unfolding open_position
open_position-value symbol size side s flat =
    omega (int_laws, parts_of_eq (sum_values-put_new symbol size s.open_positions flat))

pub adjust_position_cost-held :
    (symbol : ℕ) (actual w : Decimal) (s : PortfolioState)
    → get symbol s.open_positions ≡ some w
    → adjust_position_cost symbol actual s ≡ record s {
      current_balance_usd = s.current_balance_usd +ℤ (w -ℤ actual);
      open_positions = put symbol actual s.open_positions;
    }
unfolding adjust_position_cost
adjust_position_cost-held symbol actual w s held = rw (held, adjust_position_cost)

-- Replacing a reserved cost never changes the value.
pub adjust_position_cost-value :
    (symbol : ℕ) (actual : Decimal) (s : PortfolioState)
    → portfolio_value_usd (adjust_position_cost symbol actual s) ≡ portfolio_value_usd s
unfolding adjust_position_cost
adjust_position_cost-value symbol actual s = elim (Option-cases (get symbol s.open_positions)) [
  | inl flat ↦ rw (flat, adjust_position_cost)
  | inr (w, held) ↦
      rw (adjust_position_cost-held symbol actual w s held)
        (omega (int_laws, parts_of_eq (sum_values-put_old symbol actual w s.open_positions held)))
]

pub close_position-value :
    (symbol : ℕ) (pnl w : Decimal) (s : PortfolioState)
    → get symbol s.open_positions ≡ some w
    → portfolio_value_usd (close_position symbol pnl s) ≡ portfolio_value_usd s +ℤ pnl
unfolding close_position
close_position-value symbol pnl w s held =
    rw held (omega (int_laws, parts_of_eq (sum_values-remove symbol w s.open_positions held)))

-- The status of a result that stands for an executed order.
abbrev pub is_executed : OrderStatus → Bool
is_executed filled = true
is_executed partially_filled = true
is_executed pending = false
is_executed open_order = false
is_executed cancelled = false
is_executed OrderStatus.rejected = false
is_executed expired = false

abbrev pub is_opposite : Option OrderSide → OrderSide → Bool
is_opposite none side = false
is_opposite (some OrderSide.buy) OrderSide.buy = false
is_opposite (some OrderSide.buy) OrderSide.sell = true
is_opposite (some OrderSide.sell) OrderSide.buy = true
is_opposite (some OrderSide.sell) OrderSide.sell = false

-- The result of an executed order that filled something, on the other side of the position that is
-- held on its symbol.
abbrev pub is_closing_fill : Option OrderSide → ExecutionResult → Bool
is_closing_fill held r = is_executed r.status && ltb 0 r.filled_quantity && is_opposite held r.side

-- The PnL of a closing fill.
abbrev pub closing_pnl : Bool → ExecutionResult → Decimal
closing_pnl closes r = if closes then or_zero r.realized_pnl_usd else pos 0

-- What an application of a result has done to the ledger's value: it books the PnL, or nothing.
abbrev pub Books : ExecutionResult → Bool → PortfolioState → PortfolioState → Type 0
Books r closes before after =
    portfolio_value_usd after ≡ portfolio_value_usd before +ℤ closing_pnl closes r

is_closing_fill-agrees :
    (held : OrderSide) (r : ExecutionResult)
    → (is_fill r && not (same_side held r.side)) ≡ is_closing_fill (some held) r
is_closing_fill-agrees held r = go r.status held r.side
  where
    sides :
        (executed : Bool) (x y : OrderSide)
        → ((executed && ltb 0 r.filled_quantity) && not (same_side x y))
          ≡ (executed && ltb 0 r.filled_quantity && is_opposite (some x) y)
    sides e OrderSide.buy OrderSide.buy = ground arith
    sides e OrderSide.buy OrderSide.sell = ground arith
    sides e OrderSide.sell OrderSide.buy = ground arith
    sides e OrderSide.sell OrderSide.sell = ground arith

    go :
        (status : OrderStatus) (x y : OrderSide)
        → ((is_successful status && ltb 0 r.filled_quantity) && not (same_side x y))
          ≡ (is_executed status && ltb 0 r.filled_quantity && is_opposite (some x) y)
    go filled x y = sides true x y
    go partially_filled x y = sides true x y
    go pending x y = sides false x y
    go open_order x y = sides false x y
    go cancelled x y = sides false x y
    go OrderStatus.rejected x y = sides false x y
    go expired x y = sides false x y

plus_zero : (a : ℤ) → a ≡ a +ℤ pos 0
plus_zero a = omega int_laws

held-Books :
    (r : ExecutionResult) (held : OrderSide) (s : PortfolioState)
    → position_side r.symbol s ≡ some held
    → Books r (is_fill r && not (same_side held r.side)) s (apply_to_ledger r (some held) s).1
unfolding apply_to_ledger
held-Books r held s e =
    let (w, cost) = position_side-held r.symbol s e in
    elim (Bool-cases (is_fill r)) [
      | inl fills ↦ elim (Bool-cases (same_side held r.side)) [
        | inl same ↦
            rw (fills, same) (adjust_position_cost-value r.symbol (actual_cost r) s ∙ plus_zero _)
        | inr opposite ↦
            rw (fills, opposite)
              (close_position-value r.symbol (or_zero r.realized_pnl_usd) w s cost)
      ]
      | inr fails ↦ elim (Bool-cases (same_side held r.side)) [
        | inl same ↦ rw (fails, same) (close_position-value r.symbol (pos 0) w s cost)
        | inr opposite ↦ rw (fails, opposite) (plus_zero _)
      ]
    ]

no_close-Books : (r : ExecutionResult) → closing_pnl (is_closing_fill none r) r ≡ pos 0
no_close-Books r = ground arith

flat-Books :
    (r : ExecutionResult) (s : PortfolioState)
    → position_side r.symbol s ≡ none
    → Books r (is_closing_fill none r) s (apply_to_ledger r none s).1
unfolding apply_to_ledger
flat-Books r s e = rw (no_close-Books r) (elim (Bool-cases (is_fill r)) [
  | inl fills ↦ rw fills (
      open_position-value r.symbol (actual_cost r) (some r.side) s (position_side-flat r.symbol s e)
      ∙ plus_zero _)
  | inr fails ↦ rw fails (plus_zero _)
])

pub apply_to_ledger-Books :
    (r : ExecutionResult) (o : Option OrderSide) (s : PortfolioState)
    → position_side r.symbol s ≡ o
    → Books r (is_closing_fill o r) s (apply_to_ledger r o s).1
apply_to_ledger-Books r none s e = flat-Books r s e
apply_to_ledger-Books r (some held) s e =
    subst (λ c. Books r c s (apply_to_ledger r (some held) s).1) (is_closing_fill-agrees held r)
      (held-Books r held s e)

module _ {F : Type 0} where
  -- Applying an execution result changes the value of the ledger by the PnL that it reports if it is new,
  -- stands for an executed order that filled something, and is on the other side of the position that
  -- is held on its symbol. Any other result leaves the value as it was.
  pub apply_execution_result-value :
      (r : ExecutionResult) (s : RiskAgent F)
      → portfolio_value_usd (apply_execution_result r s).1.portfolio
        ≡ portfolio_value_usd s.portfolio
          +ℤ closing_pnl
              (not (has_key r.result_id s.seen_results)
                && is_closing_fill (position_side r.symbol s.portfolio) r)
              r
  unfolding apply_execution_result
  apply_execution_result-value r s = elim (Bool-cases (has_key r.result_id s.seen_results)) [
    | inl again ↦ rw again (plus_zero _)
    | inr new ↦
        rw new (apply_to_ledger-Books r (position_side r.symbol s.portfolio) s.portfolio refl)
  ]
