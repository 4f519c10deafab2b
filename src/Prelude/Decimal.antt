-- ===== src/Prelude/Decimal.antt =====
-- Python's `Decimal` as a whole number of units of 10^-24, and the roundings that the code asks for.
-- Prices and quantities are quantized to 8 places: those are kept as naturals, in units of 10^-8.
use Prim.Native.Nat.{ℕ, ◌+◌, ◌*◌, ◌/◌, ◌%◌, ◌^◌}
use multi_agent_trading_syst.Prelude.Tests.{ltb, ◌==◌, if◌then◌else◌}
use multi_agent_trading_syst.Prelude.Int.{ℤ, pos, negsuc, ◌*ℤ◌, sub_ℕ}

abbrev pub Decimal : Type 0
Decimal = ℤ

-- One dollar, in units.
abbrev pub unit : ℕ
unit = 10 ^ 24

-- One cent, in units.
abbrev pub cent : ℕ
cent = 10 ^ 22

-- 0.00000001, in units.
abbrev pub place8 : ℕ
place8 = 10 ^ 16

-- A natural quotient, rounded to the nearest and a tie to the even neighbour (`ROUND_HALF_EVEN`).
unfoldable pub half_even : ℕ → ℕ → ℕ
half_even n d =
    let q = n / d in
    let r = n % d in
    if ltb (2 * r) d then q else if ltb d (2 * r) then q + 1 else if q % 2 == 0 then q else q + 1

-- The same on a signed numerator: the sign is kept and the magnitude is rounded.
unfoldable pub half_even_ℤ : ℤ → ℕ → ℤ
half_even_ℤ (pos n) d = pos (half_even n d)
half_even_ℤ (negsuc n) d = sub_ℕ 0 (half_even (n + 1) d)

-- `a * b` of two decimals.
unfoldable pub mul_decimal : Decimal → Decimal → Decimal
unfolding half_even half_even_ℤ
mul_decimal a b = half_even_ℤ (a *ℤ b) unit

-- `a / b` for a positive `b`.
unfoldable pub div_decimal : Decimal → ℕ → Decimal
unfolding half_even half_even_ℤ
div_decimal a b = half_even_ℤ (a *ℤ pos unit) b

-- `x.quantize(Decimal("0.01"))`
unfoldable pub quantize_cent : Decimal → Decimal
unfolding half_even half_even_ℤ
quantize_cent x = half_even_ℤ x cent *ℤ pos cent

-- The notional of a quantity at a price, both in units of 10^-8.
abbrev pub notional_of : ℕ → ℕ → ℕ
notional_of qty price = qty * price * 10 ^ 8
