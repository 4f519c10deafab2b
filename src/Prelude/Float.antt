-- ===== src/Prelude/Float.antt =====
-- Python floats, through an interface: what the code does with them, and the laws of their order.
-- The laws hold for the finite values that configuration, prices and indicators give; NaN is no value.
use Prim.Native.Nat.{ℕ, ◌≤◌, ◌<◌}
use mathlib.Core.Path.{◌≡◌}
use mathlib.Core.Bool.{Bool, true, not, ◌&&◌, ◌||◌}
use mathlib.Core.Option.{Option, none, some}
use multi_agent_trading_syst.Prelude.Tests.{if◌then◌else◌}
use multi_agent_trading_syst.Prelude.Decimal.{Decimal}

pub record Float (F : Type 0) : Type 0 where
  pub le : F → F → Bool
  pub lt : F → F → Bool
  pub add : F → F → F
  pub sub : F → F → F
  pub mul : F → F → F
  pub div : F → F → F
  pub neg : F → F
  -- The literal n / d, such as 65 / 100 for 0.65.
  pub lit : ℕ → ℕ → F
  -- `math.sqrt(x)`
  pub sqrt : F → F
  -- `round(x, n)`, and `round(x)` for no places.
  pub round_to : ℕ → F → F
  -- `round(x, 4)`
  pub round4 : F → F
  -- `Decimal(str(x))`
  pub to_decimal : F → Decimal
  -- `float(d)`
  pub of_decimal : Decimal → F
  -- `float(a / b)` of two decimals.
  pub ratio : Decimal → Decimal → F

module _ {F : Type 0} ⦃f : Float F⦄ where
  abbrev pub nought : F
  nought = f.lit 0 1

  -- `max(a, b)` and `min(a, b)` return their first argument on a tie.
  abbrev pub max_float : F → F → F
  max_float a b = if f.lt a b then b else a

  abbrev pub min_float : F → F → F
  min_float a b = if f.lt b a then b else a

  -- `x or default` on an optional float: None and zero both give the default.
  abbrev pub or_float : Option F → F → F
  or_float none d = d
  or_float (some x) d = if f.le x nought && f.le nought x then d else x

pub record IsOrdered (F : Type 0) ⦃f : Float F⦄ : Type 0 where
  pub le_refl : (x : F) → f.le x x ≡ true
  pub le_total : (x y : F) → (f.le x y || f.le y x) ≡ true
  pub le_trans : (x y z : F) → f.le x y ≡ true → f.le y z ≡ true → f.le x z ≡ true
  pub lt-eq-not-le : (x y : F) → f.lt x y ≡ not (f.le y x)
  pub lit_mono : (n m d : ℕ) → n ≤ m → f.le (f.lit n d) (f.lit m d) ≡ true
  pub lit_strict : (n m d : ℕ) → n < m → m ≤ d → d ≤ 100 → f.lt (f.lit n d) (f.lit m d) ≡ true
  pub neg_anti : (x y : F) → f.le x y ≡ true → f.le (f.neg y) (f.neg x) ≡ true
  pub neg_nought : f.neg (f.lit 0 1) ≡ f.lit 0 1
  pub round4_mono : (x y : F) → f.le x y ≡ true → f.le (f.round4 x) (f.round4 y) ≡ true
  pub round4_whole : (n : ℕ) → f.round4 (f.lit n 1) ≡ f.lit n 1
  pub round4-neg_one : f.round4 (f.neg (f.lit 1 1)) ≡ f.neg (f.lit 1 1)
