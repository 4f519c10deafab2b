-- ===== src/Technical/Fallback.antt =====
-- The NumPy fallbacks of agents/technical_analysis/indicators.py, which run where TA-Lib is missing.
-- `np.diff`, `np.where`, `np.isnan` and `np.maximum` act element by element and are written out.
use multi_agent_trading_syst.Prelude.{
  ℕ, ◌+◌, ◌-◌, Option, none, some, List, [], ◌∷◌, ◌++◌, ltb, leb, if◌then◌else◌, length, map,
}
use multi_agent_trading_syst.Prelude.Deque.{drop, take_last}
use multi_agent_trading_syst.Prelude.Float.{Float, nought, max_float}
use multi_agent_trading_syst.Technical.Series.{Bands, MacdLines, Numpy, nth, take, replicate, abs}

module _ {A : Type 0} where
  -- `np.where(~np.isnan(data))[0]`, counted from an offset.
  abbrev pub valid_indices : ℕ → List (Option A) → List ℕ
  valid_indices i [] = []
  valid_indices i (none ∷ xs) = valid_indices (i + 1) xs
  valid_indices i (some _ ∷ xs) = i ∷ valid_indices (i + 1) xs

  abbrev pub numbers : List (Option A) → List A
  numbers [] = []
  numbers (none ∷ xs) = numbers xs
  numbers (some x ∷ xs) = x ∷ numbers xs

  -- `np.full(n, np.nan)`
  abbrev pub all_nan : ℕ → List (Option A)
  all_nan n = replicate n none

module _ {F : Type 0} ⦃f : Float F⦄ where
  abbrev smooth : F → Option F → F → Option F
  smooth alpha none x = none
  smooth alpha (some last) x = some (f.add (f.mul x alpha) (f.mul last (f.sub (f.lit 1 1) alpha)))

  -- The loop of `_ema_numpy`, after the seed.
  unfoldable pub ema_rest : F → Option F → List (Option F) → List (Option F)
  ema_rest alpha last [] = []
  ema_rest alpha last (none ∷ xs) = none ∷ ema_rest alpha none xs
  ema_rest alpha last (some x ∷ xs) = let r = smooth alpha last x in r ∷ ema_rest alpha r xs

  -- The seed stands at the index of the valid value that completes the period.
  unfoldable pub ema_seeded : Numpy F → List (Option F) → ℕ → Option ℕ → Option ℕ → List (Option F)
  unfolding ema_rest
  ema_seeded np series period (some first_valid) (some start) =
      let seed_values = drop first_valid (take (start + 1) series) in
      let seed = some (np.mean (numbers (take_last period seed_values))) in
      all_nan start ++ (seed ∷ ema_rest (f.lit 2 (period + 1)) seed (drop (start + 1) series))
  ema_seeded np series period _ _ = all_nan (length series)

  -- `_ema_numpy`, for a positive period.
  unfoldable pub ema_numpy : Numpy F → List (Option F) → ℕ → List (Option F)
  unfolding ema_seeded
  ema_numpy np series period =
      let valid = valid_indices 0 series in
      if ltb (length valid) period
      then all_nan (length series)
      else ema_seeded np series period (nth 0 valid) (nth (period - 1) valid)

  -- `np.diff`
  abbrev pub diff : List F → List F
  diff [] = []
  diff (x ∷ []) = []
  diff (x ∷ y ∷ ys) = f.sub y x ∷ diff (y ∷ ys)

  abbrev pub gain : F → F
  gain d = if f.lt nought d then d else nought

  abbrev pub loss : F → F
  loss d = if f.lt d nought then f.neg d else nought

  -- Wilder's smoothing: `(average * (period - 1) + value) / period`.
  abbrev pub wilder : ℕ → F → F → F
  wilder period average x = f.div (f.add (f.mul average (f.lit (period - 1) 1)) x) (f.lit period 1)

  abbrev rsi_value : F → F → F
  rsi_value avg_gain avg_loss =
      let rs = if f.lt nought avg_loss then f.div avg_gain avg_loss else f.lit 100 1 in
      f.sub (f.lit 100 1) (f.div (f.lit 100 1) (f.add (f.lit 1 1) rs))

  -- The loop of `_rsi_numpy` over the changes after the first period.
  unfoldable pub rsi_rest : ℕ → F → F → List F → List (Option F)
  rsi_rest period avg_gain avg_loss [] = []
  rsi_rest period avg_gain avg_loss (d ∷ ds) =
      let g = wilder period avg_gain (gain d) in
      let l = wilder period avg_loss (loss d) in some (rsi_value g l) ∷ rsi_rest period g l ds

  -- `_rsi_numpy`: the value of the change i stands at the index i + 1.
  unfoldable pub rsi_numpy : Numpy F → List F → ℕ → List (Option F)
  unfolding rsi_rest
  rsi_numpy np closes period =
      let deltas = diff closes in
      if ltb (length deltas) period
      then all_nan (length closes)
      else all_nan (period + 1)
        ++ rsi_rest period (np.mean (take period (map gain deltas)))
            (np.mean (take period (map loss deltas))) (drop period deltas)

  abbrev minus : Option F → Option F → Option F
  minus (some x) (some y) = some (f.sub x y)
  minus _ _ = none

  abbrev pub zip_minus : List (Option F) → List (Option F) → List (Option F)
  zip_minus (x ∷ xs) (y ∷ ys) = minus x y ∷ zip_minus xs ys
  zip_minus _ _ = []

  -- `_macd_numpy`
  unfoldable pub macd_numpy : Numpy F → List F → ℕ → ℕ → ℕ → MacdLines F
  unfolding ema_numpy
  macd_numpy np closes fast slow signal =
      let series = map (λ x. some x) closes in
      let macd_line = zip_minus (ema_numpy np series fast) (ema_numpy np series slow) in
      let signal_line = ema_numpy np macd_line signal in
      record { line = macd_line; signal = signal_line; histogram = zip_minus macd_line signal_line }

  abbrev pub bands_of : Numpy F → F → List F → Bands F
  bands_of np std_dev window =
      let mid = np.mean window in
      let width = f.mul std_dev (np.std window) in
      record { upper = f.add mid width; middle = mid; lower = f.sub mid width }

  -- The loop of `_bbands_numpy`, by the start of the window.
  unfoldable pub bbands_rest : Numpy F → ℕ → F → List F → List (Option (Bands F))
  bbands_rest np period std_dev [] = []
  bbands_rest np period std_dev (x ∷ xs) =
      let rest = bbands_rest np period std_dev xs in
      if leb period (length (x ∷ xs))
      then some (bands_of np std_dev (take period (x ∷ xs))) ∷ rest
      else []

  -- `_bbands_numpy`
  unfoldable pub bbands_numpy : Numpy F → List F → ℕ → F → List (Option (Bands F))
  unfolding bbands_rest
  bbands_numpy np closes period std_dev =
      let before = if ltb (length closes) (period - 1) then length closes else period - 1 in
      replicate before none ++ bbands_rest np period std_dev closes

  abbrev true_range : F → F → F → F
  true_range last h l = max_float (f.sub h l) (max_float (abs (f.sub h last)) (abs (f.sub l last)))

  -- From the second bar on; the first argument is the close before.
  abbrev pub true_ranges : F → List F → List F → List F → List F
  true_ranges last (h ∷ hs) (l ∷ ls) (c ∷ cs) = true_range last h l ∷ true_ranges c hs ls cs
  true_ranges last _ _ _ = []

  abbrev pub all_true_ranges : List F → List F → List F → List F
  all_true_ranges (_ ∷ hs) (_ ∷ ls) (c ∷ cs) = true_ranges c hs ls cs
  all_true_ranges _ _ _ = []

  -- The loop of `_atr_numpy`.
  unfoldable pub atr_rest : ℕ → F → List F → List (Option F)
  atr_rest period last [] = []
  atr_rest period last (x ∷ xs) = let r = wilder period last x in some r ∷ atr_rest period r xs

  -- `_atr_numpy`
  unfoldable pub atr_numpy : Numpy F → List F → List F → List F → ℕ → List (Option F)
  unfolding atr_rest
  atr_numpy np highs lows closes period =
      let tr = all_true_ranges highs lows closes in
      let first = np.mean (take period tr) in
      if ltb (length tr) period
      then all_nan (length closes)
      else all_nan period ++ (some first ∷ atr_rest period first (drop period tr))
