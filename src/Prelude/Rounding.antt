-- ===== src/Prelude/Rounding.antt =====
-- How far the roundings of decimals can be off.
use Prim.Native.Nat.{ℕ, ◌+◌, ◌*◌, ◌≤◌}
use native.Mathlib.Omega.{arith}
use multi_agent_trading_syst.Prelude.Int.{pos, negsuc, ◌*ℤ◌, pos_part, neg_part}
use multi_agent_trading_syst.Prelude.Decimal.{Decimal, cent, half_even, half_even_ℤ, quantize_cent}

-- Rounding to even is at most half a unit off.
pub half_even-near :
    (n : ℕ)
    → (2 * (half_even n cent * cent) ≤ 2 * n + cent)
      × (2 * n ≤ 2 * (half_even n cent * cent) + cent)
unfolding half_even
half_even-near n = ground arith

-- Twice the distance of two amounts is at most a cent.
abbrev pub IsWithinHalfCent : Decimal → Decimal → Type 0
IsWithinHalfCent x y =
    (2 * (pos_part x + neg_part y) ≤ 2 * (pos_part y + neg_part x) + cent)
    × (2 * (pos_part y + neg_part x) ≤ 2 * (pos_part x + neg_part y) + cent)

pub quantize_cent-near : (x : Decimal) → IsWithinHalfCent (quantize_cent x) x
unfolding quantize_cent half_even_ℤ ◌*ℤ◌
quantize_cent-near (pos n) = ground (arith, half_even-near n)
quantize_cent-near (negsuc n) = ground (arith, half_even-near (n + 1))
