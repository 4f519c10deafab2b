-- ===== src/Technical/Series.antt =====
-- Price series and the libraries that compute on them (agents/technical_analysis/indicators.py).
-- A series is oldest first; `none` is NaN. TA-Lib and the NumPy reductions are parameters.
use multi_agent_trading_syst.Prelude.{
  ℕ, zero, suc, Bool, false, Option, none, some, List, [], ◌∷◌, ltb, ◌==◌, if◌then◌else◌, length,
}
use multi_agent_trading_syst.Prelude.Deque.{last}
use multi_agent_trading_syst.Prelude.Float.{Float, nought}

pub record Bands (F : Type 0) : Type 0 where
  pub upper : F
  pub middle : F
  pub lower : F

-- The MACD line, its signal line and their difference.
pub record MacdLines (F : Type 0) : Type 0 where
  pub line : List (Option F)
  pub signal : List (Option F)
  pub histogram : List (Option F)

-- `talib.RSI`, `talib.MACD`, `talib.BBANDS`, `talib.EMA` and `talib.ATR`.
pub record Talib (F : Type 0) : Type 0 where
  pub rsi : List F → ℕ → List (Option F)
  pub macd : List F → ℕ → ℕ → ℕ → MacdLines F
  pub bbands : List F → ℕ → F → List (Option (Bands F))
  pub ema : List F → ℕ → List (Option F)
  pub atr : List F → List F → List F → ℕ → List (Option F)

-- `np.mean` and `np.std` with `ddof=0`.
pub record Numpy (F : Type 0) : Type 0 where
  pub mean : List F → F
  pub std : List F → F

-- `TALIB_AVAILABLE` is whether `talib` is there.
pub record Libraries (F : Type 0) : Type 0 where
  pub talib : Option (Talib F)
  pub numpy : Numpy F

-- Why an indicator has no result: an array that is too short, a NaN in the last place, or an array
-- without the element that is asked for.
pub data Trouble : Type 0 where
  too_short : (required available : ℕ) → Trouble
  nan_value : Trouble
  index_error : Trouble

pub data Computed (A : Type 0) : Type 0 where
  computed : A → Computed A
  refused : Trouble → Computed A

module _ {A B : Type 0} where
  abbrev pub and_then : Computed A → (A → Computed B) → Computed B
  and_then (computed x) k = k x
  and_then (refused t) k = refused t

module _ {ℓ} {A : Type ℓ} where
  abbrev pub nth : ℕ → List A → Option A
  nth n [] = none
  nth zero (x ∷ _) = some x
  nth (suc n) (_ ∷ xs) = nth n xs

  abbrev pub take : ℕ → List A → List A
  take zero xs = []
  take (suc n) [] = []
  take (suc n) (x ∷ xs) = x ∷ take n xs

  abbrev pub replicate : ℕ → A → List A
  replicate zero x = []
  replicate (suc n) x = x ∷ replicate n x

  abbrev pub reverse_onto : List A → List A → List A
  reverse_onto [] ys = ys
  reverse_onto (x ∷ xs) ys = reverse_onto xs (x ∷ ys)

  -- `xs[-1 - n]`
  abbrev pub from_end : ℕ → List A → Option A
  from_end n xs = nth n (reverse_onto xs [])

module _ {A : Type 0} where
  -- `_validate_length`, and then what follows it.
  unfoldable pub validate_length : {B : Type 0} → List A → ℕ → Computed B → Computed B
  validate_length xs required after =
      if ltb (length xs) required then refused (too_short required (length xs)) else after

  -- An element of an array, which may be NaN.
  abbrev pub indexed : Option A → Computed A
  indexed none = refused index_error
  indexed (some x) = computed x

  -- `_check_nan`
  abbrev pub check_nan : Option A → Computed A
  check_nan none = refused nan_value
  check_nan (some x) = computed x

module _ {A : Type 0} where
  -- The last element, which has to be a number.
  abbrev pub current : List (Option A) → Computed A
  current xs = and_then (indexed (last xs)) check_nan

-- `period or default`
abbrev pub or_period : Option ℕ → ℕ → ℕ
or_period none d = d
or_period (some n) d = if n == 0 then d else n

module _ {F : Type 0} ⦃f : Float F⦄ where
  abbrev pub abs : F → F
  abs x = if f.lt x nought then f.neg x else x

  -- A comparison with NaN is false.
  abbrev pub above : F → Option F → Bool
  above x none = false
  above x (some y) = f.lt y x

  abbrev pub exceeds : Option F → Option F → Bool
  exceeds none y = false
  exceeds (some x) y = above x y
