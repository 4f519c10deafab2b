-- ===== src/Risk/Bounds.antt =====
-- Bounds on the sizes that the Risk agent approves (position_sizer.py, agent.py step 10).
use multi_agent_trading_syst.Prelude.{arith, ◌⊎◌, inl, inr, Bool-cases}
use multi_agent_trading_syst.Prelude.Int.{ℤ, ◌≤ℤ◌, min_ℤ, max_ℤ, leb_ℤ}
use multi_agent_trading_syst.Prelude.Decimal.{Decimal, mul_decimal}
use multi_agent_trading_syst.Prelude.Float.{Float}
use multi_agent_trading_syst.Risk.Sizer.{PositionSizer, calculate, max_from_pct, raw_size}

-- A size is within the caps: at most the configured share of the portfolio value and at most the
-- configured maximum, unless it is no more than the minimum order, which has no upper cap.
abbrev pub IsWithinCaps : {F : Type 0} ⦃f : Float F⦄ → PositionSizer F → Decimal → Decimal → Type 0
IsWithinCaps ⦃f⦄ z value size =
    (size ≤ℤ f.to_decimal z.min_order_usd)
    ⊎ ((size ≤ℤ mul_decimal (f.to_decimal z.max_position_pct) value)
        × (size ≤ℤ f.to_decimal z.max_order_usd))

clamp-least : (raw a b lo : ℤ) → lo ≤ℤ max_ℤ (min_ℤ (min_ℤ raw a) b) lo
clamp-least raw a b lo = ground arith

clamp-cases :
    (raw a b lo : ℤ) → let x = max_ℤ (min_ℤ (min_ℤ raw a) b) lo in (x ≤ℤ lo) ⊎ ((x ≤ℤ a) × (x ≤ℤ b))
clamp-cases raw a b lo = elim (Bool-cases (leb_ℤ (max_ℤ (min_ℤ (min_ℤ raw a) b) lo) lo)) [
  | inl floor ↦ inl (ground (arith, floor))
  | inr above ↦ inr (ground (arith, above), ground (arith, above))
]

module _ {F : Type 0} ⦃f : Float F⦄ where
  -- What is smaller is within the caps too.
  pub smaller-IsWithinCaps :
      (z : PositionSizer F) (value size less : Decimal)
      → less ≤ℤ size
      → IsWithinCaps z value size
      → IsWithinCaps z value less
  smaller-IsWithinCaps z value size less h (inl floor) = inl (ground arith)
  smaller-IsWithinCaps z value size less h (inr (share, most)) = inr (ground arith, ground arith)

  -- Whatever the portfolio and the stop, the size is at least the minimum order and within the caps.
  pub calculate_bounds :
      (z : PositionSizer F) (value : Decimal) (stop : F)
      → (f.to_decimal z.min_order_usd ≤ℤ calculate z value stop)
        × IsWithinCaps z value (calculate z value stop)
  unfolding calculate
  calculate_bounds z value stop =
      let raw = raw_size z value stop in
      let share = max_from_pct z value in
      let most = f.to_decimal z.max_order_usd in
      let floor = f.to_decimal z.min_order_usd in
      (clamp-least raw share most floor, clamp-cases raw share most floor)
