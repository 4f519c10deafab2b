-- ===== src/Prelude/Fixed.antt =====
-- Numbers with 12 decimal places, an instance that meets the laws asked of floats. Tests run on it.
use native.Mathlib.Nat.{le_trans, div-mul-le_self, le-div_iff_mul-le, add-div_right}
use Prim.Native.Nat.{ℕ, zero, suc, ◌+◌, ◌-◌, ◌*◌, ◌/◌, ◌^◌, ◌≤◌, ◌<◌}
use mathlib.Core.Path.{◌≡◌, refl}
use mathlib.Core.Bool.{true}
use native.Mathlib.Omega.{arith}
use multi_agent_trading_syst.Prelude.Int.{
  ℤ, pos, negsuc, ◌+ℤ◌, ◌-ℤ◌, ◌*ℤ◌, ltb_ℤ, leb_ℤ, sub_ℕ, pos_part, neg_part,
}
use multi_agent_trading_syst.Prelude.Decimal.{half_even, half_even_ℤ}
use multi_agent_trading_syst.Prelude.Float.{Float, IsOrdered}

-- One, in units of 10^-12.
abbrev pub one : ℕ
one = 10 ^ 12

abbrev pub Fixed : Type 0
Fixed = ℤ

abbrev neg_ℤ : ℤ → ℤ
neg_ℤ x = sub_ℕ (neg_part x) (pos_part x)

-- Rounded quotients and products, and the conversions.
unfoldable pub div_fixed : ℤ → ℤ → ℤ
unfolding half_even_ℤ half_even ◌*ℤ◌
div_fixed a (pos n) = half_even_ℤ (a *ℤ pos one) n
div_fixed a (negsuc n) = half_even_ℤ (neg_ℤ a *ℤ pos one) (n + 1)

unfoldable pub mul_fixed : ℤ → ℤ → ℤ
unfolding half_even_ℤ half_even ◌*ℤ◌
mul_fixed a b = half_even_ℤ (a *ℤ b) one

unfoldable pub round4_fixed : ℤ → ℤ
unfolding half_even_ℤ half_even ◌*ℤ◌
round4_fixed a = half_even_ℤ a (10 ^ 8) *ℤ pos (10 ^ 8)

unfoldable pub round_to_fixed : ℕ → ℤ → ℤ
unfolding half_even_ℤ half_even ◌*ℤ◌
round_to_fixed n a = let grain = 10 ^ (12 - n) in half_even_ℤ a grain *ℤ pos grain

unfoldable pub decimal_of_fixed : ℤ → ℤ
unfolding ◌*ℤ◌
decimal_of_fixed a = a *ℤ pos one

unfoldable pub fixed_of_decimal : ℤ → ℤ
unfolding half_even_ℤ half_even
fixed_of_decimal a = half_even_ℤ a one

-- The whole root by Newton's rounds from above; 128 rounds are enough for the numbers of the tests.
unfoldable pub root_from : ℕ → ℕ → ℕ → ℕ
root_from zero n r = r
root_from (suc k) n r = root_from k n ((r + n / r) / 2)

unfoldable pub sqrt_fixed : ℤ → ℤ
unfolding root_from
sqrt_fixed (pos n) = pos (root_from 128 (n * one) (n + one))
sqrt_fixed (negsuc n) = pos 0

abbrev lit_fixed : ℕ → ℕ → ℤ
lit_fixed n d = pos (n * one / d)

instance abbrev pub fixed_float : Float Fixed
fixed_float = record {
  le = leb_ℤ;
  lt = ltb_ℤ;
  add = λ a b. a +ℤ b;
  sub = λ a b. a -ℤ b;
  mul = mul_fixed;
  div = div_fixed;
  neg = neg_ℤ;
  lit = lit_fixed;
  sqrt = sqrt_fixed;
  round_to = round_to_fixed;
  round4 = round4_fixed;
  to_decimal = decimal_of_fixed;
  of_decimal = fixed_of_decimal;
  ratio = div_fixed;
}

div_mono : (a b d : ℕ) → a ≤ b → a / d ≤ b / d
div_mono a b zero h = omega arith
div_mono a b (suc d) h =
    (le-div_iff_mul-le {k = suc d} {x = a / suc d} {y = b} (omega arith)).1
      (le_trans (div-mul-le_self a (suc d)) h)

div_strict : (n m d : ℕ) → n < m → m ≤ d → d ≤ 100 → n * one / d < m * one / d
div_strict n m zero h k small = absurd (omega arith)
div_strict n m (suc d) h k small =
    let gap : n * one + suc d ≤ m * one = omega arith in
    let up : (n * one + suc d) / suc d ≤ m * one / suc d = div_mono _ _ (suc d) gap in
    omega (arith, up, add-div_right (n * one) {k = suc d} (omega arith))

half_even_mono : (n m : ℕ) → n ≤ m → half_even n (10 ^ 8) ≤ half_even m (10 ^ 8)
unfolding half_even
half_even_mono n m h = ground arith

half_even_whole : (q : ℕ) → half_even (q * 10 ^ 8) (10 ^ 8) ≡ q
unfolding half_even
half_even_whole q = ground arith

up_scaled : (a b : ℕ) → a ≤ b → leb_ℤ (pos a *ℤ pos (10 ^ 8)) (pos b *ℤ pos (10 ^ 8)) ≡ true
unfolding ◌*ℤ◌
up_scaled a b h = ground arith

down_scaled :
    (a b : ℕ) → b ≤ a → leb_ℤ (sub_ℕ 0 a *ℤ pos (10 ^ 8)) (sub_ℕ 0 b *ℤ pos (10 ^ 8)) ≡ true
unfolding ◌*ℤ◌
down_scaled a b h = ground arith

across_scaled : (a b : ℕ) → leb_ℤ (sub_ℕ 0 a *ℤ pos (10 ^ 8)) (pos b *ℤ pos (10 ^ 8)) ≡ true
unfolding ◌*ℤ◌
across_scaled a b = ground arith

scaled_whole : (q : ℕ) → pos q *ℤ pos (10 ^ 8) ≡ pos (q * 10 ^ 8)
unfolding ◌*ℤ◌
scaled_whole q = ground arith

round4_fixed_mono : (x y : ℤ) → leb_ℤ x y ≡ true → leb_ℤ (round4_fixed x) (round4_fixed y) ≡ true
unfolding round4_fixed half_even_ℤ
round4_fixed_mono (pos n) (pos m) h = up_scaled _ _ (half_even_mono n m (ground arith))
round4_fixed_mono (pos n) (negsuc m) h = absurd (ground arith)
round4_fixed_mono (negsuc n) (pos m) h = across_scaled _ _
round4_fixed_mono (negsuc n) (negsuc m) h =
    down_scaled _ _ (half_even_mono (m + 1) (n + 1) (ground arith))

round4_fixed_whole : (n : ℕ) → round4_fixed (pos (n * one / 1)) ≡ pos (n * one / 1)
unfolding round4_fixed half_even_ℤ
round4_fixed_whole n =
    let whole : n * one / 1 ≡ n * 10 ^ 4 * 10 ^ 8 = omega arith in
    rw (whole, half_even_whole (n * 10 ^ 4)) (scaled_whole (n * 10 ^ 4))

pub Fixed-IsOrdered : IsOrdered Fixed
unfolding round4_fixed half_even_ℤ half_even ◌*ℤ◌
Fixed-IsOrdered = record {
  le_refl = λ x. ground arith;
  le_trans = λ x y z h k. ground arith;
  lt-eq-not-le = λ x y. ground arith;
  lit_mono = λ n m d h. ground (arith, div_mono (n * one) (m * one) d (omega arith));
  lit_strict = λ n m d h k small. ground (arith, div_strict n m d h k small);
  neg_anti = λ x y h. ground arith;
  neg_nought = refl;
  le_total = λ x y. ground arith;
  round4_mono = round4_fixed_mono;
  round4_whole = round4_fixed_whole;
  round4-neg_one = refl;
}
