-- ===== src/Learning/Indicators.antt =====
-- The NumPy indicators of agents/technical_analysis/ml/feature_engineer.py. A series is oldest first and
-- `none` is NaN. A loop that fills an array from left to right is a function by clauses that gives one
-- element for each value it reads.
use multi_agent_trading_syst.Prelude.{
  ℕ, ◌+◌, Bool, Option, none, some, List, [], ◌∷◌, ◌++◌, leb, ◌==◌, if◌then◌else◌, length, map,
}
use multi_agent_trading_syst.Prelude.Deque.{take_last}
use multi_agent_trading_syst.Prelude.Float.{Float, nought}
use multi_agent_trading_syst.Technical.Series.{Bands, Numpy}
use multi_agent_trading_syst.Technical.Fallback.{
  diff, all_true_ranges, gain, loss, wilder, bands_of, zip_minus,
}

-- `math.log`, `math.sin`, `math.cos`, `math.pi` and `math.isfinite`.
pub record Maths (F : Type 0) : Type 0 where
  pub log : F → F
  pub sin : F → F
  pub cos : F → F
  pub pi : F
  pub is_finite : F → Bool

-- A smoothed average: how it starts from the values of the first period, how a value changes it, and
-- what stands in the array for it, at first and later.
pub record Smoothing (X S F : Type 0) : Type 0 where
  pub period : ℕ
  pub seed : List X → S
  pub first : S → F
  pub step : S → X → S
  pub value : S → F

module _ {X S F : Type 0} (k : Smoothing X S F) where
  -- After the seed. A NaN input leaves NaN in the array, and what is computed from it is NaN.
  abbrev pub follow : Option S → List (Option X) → List (Option F)
  follow s [] = []
  follow (some s) (some x ∷ xs) = let s' = k.step s x in some (k.value s') ∷ follow (some s') xs
  follow none (some x ∷ xs) = none ∷ follow none xs
  follow s (none ∷ xs) = none ∷ follow none xs

  -- Before the seed, with the values seen so far: the array stays NaN until there are `period` values.
  unfoldable pub smoothed : List X → List (Option X) → List (Option F)
  smoothed seen [] = []
  smoothed seen (none ∷ xs) = none ∷ smoothed seen xs
  smoothed seen (some x ∷ xs) =
      let seen' = seen ++ (x ∷ []) in
      let s = k.seed seen' in
      let rest = smoothed seen' xs in
      if length seen' == k.period then some (k.first s) ∷ follow (some s) xs else none ∷ rest

module _ {F : Type 0} ⦃f : Float F⦄ where
  -- An exponential average: `x * alpha + last * (1 - alpha)` from the mean on.
  abbrev pub exponential : Numpy F → ℕ → Smoothing F F F
  exponential np period =
      let alpha = f.lit 2 (period + 1) in
      record {
        period = period;
        seed = np.mean;
        first = λ s. s;
        step = λ s x. f.add (f.mul x alpha) (f.mul s (f.sub (f.lit 1 1) alpha));
        value = λ s. s;
      }

  -- `_ema`
  unfoldable pub ema : Numpy F → ℕ → List F → List (Option F)
  unfolding smoothed
  ema np period values = smoothed (exponential np period) [] (map (λ x. some x) values)

  abbrev relative : F → F
  relative rs = f.sub (f.lit 100 1) (f.div (f.lit 100 1) (f.add (f.lit 1 1) rs))

  -- From the average gain and the average loss. The first value: an infinite ratio gives 100.
  abbrev first_rsi : Maths F → F × F → F
  first_rsi m a =
      let rs = f.div a.0 a.1 in
      if f.lt nought a.1
      then (if m.is_finite rs then relative rs else f.lit 100 1)
      else if f.lt nought a.0
      then f.lit 100 1
      else relative nought

  abbrev later_rsi : F × F → F
  later_rsi a =
      if f.lt nought a.1
      then relative (f.div a.0 a.1)
      else if f.lt nought a.0
      then f.lit 100 1
      else f.lit 50 1

  abbrev pub wilder_rsi : Numpy F → Maths F → ℕ → Smoothing F (F × F) F
  wilder_rsi np m period = record {
    period = period;
    seed = λ ds. (np.mean (map gain ds), np.mean (map loss ds));
    first = first_rsi m;
    step = λ a d. (wilder period a.0 (gain d), wilder period a.1 (loss d));
    value = later_rsi;
  }

  -- An array of which each element but the first comes from a change between two bars.
  abbrev pub after_first :
      {X : Type 0} → (List X → List (Option F)) → List F → List X → List (Option F)
  after_first series [] xs = []
  after_first series (_ ∷ _) xs = none ∷ series xs

  -- `_rsi`
  unfoldable pub rsi : Numpy F → Maths F → ℕ → List F → List (Option F)
  unfolding smoothed
  rsi np m period closes =
      after_first (smoothed (wilder_rsi np m period) []) closes (map (λ d. some d) (diff closes))

  abbrev pub wilder_range : Numpy F → ℕ → Smoothing F F F
  wilder_range np period = record {
    period = period;
    seed = np.mean;
    first = λ s. s;
    step = wilder period;
    value = λ s. s;
  }

  -- `_atr`
  unfoldable pub atr : Numpy F → ℕ → List F → List F → List F → List (Option F)
  unfolding smoothed
  atr np period highs lows closes =
      after_first (smoothed (wilder_range np period) []) closes
        (map (λ x. some x) (all_true_ranges highs lows closes))

  -- `_macd`, of which only the histogram is used. The signal line is seeded where the macd line has
  -- `signal_period` numbers.
  unfoldable pub macd_hist : Numpy F → ℕ → ℕ → ℕ → List F → List (Option F)
  unfolding ema smoothed
  macd_hist np fast slow signal_period closes =
      let macd_line = zip_minus (ema np fast closes) (ema np slow closes) in
      zip_minus macd_line (smoothed (exponential np signal_period) [] macd_line)

  -- The loop of `_bollinger`, with the closes seen so far: the window is the last period of them.
  unfoldable pub bands_from : Numpy F → ℕ → F → List F → List F → List (Option (Bands F))
  bands_from np period std_dev seen [] = []
  bands_from np period std_dev seen (x ∷ xs) =
      let seen' = seen ++ (x ∷ []) in
      let rest = bands_from np period std_dev seen' xs in
      let bands = bands_of np std_dev (take_last period seen') in
      (if leb period (length seen') then some bands else none) ∷ rest

  -- `_bollinger`
  unfoldable pub bollinger : Numpy F → ℕ → F → List F → List (Option (Bands F))
  unfolding bands_from
  bollinger np period std_dev closes = bands_from np period std_dev [] closes
