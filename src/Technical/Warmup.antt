-- ===== src/Technical/Warmup.antt =====
-- When the RSI can be computed without TA-Lib (agents/technical_analysis/indicators.py).
use multi_agent_trading_syst.Prelude.{
  ℕ, zero, suc, ◌+◌, ◌<◌, ◌≡◌, refl, ◌∙◌, true, false, Option, none, some, List, [], ◌∷◌, ◌++◌,
  arith, length, ltb, ◌==◌, if◌then◌else◌, Bool-cases, inl, inr, ap,
}
use multi_agent_trading_syst.Prelude.Deque.{last, drop, length-drop}
use multi_agent_trading_syst.Prelude.Float.{Float}
use multi_agent_trading_syst.Technical.Series.{
  Libraries, Numpy, Computed, computed, refused, nan_value, validate_length, current, or_period,
  and_then, from_end,
}
use multi_agent_trading_syst.Technical.Fallback.{all_nan, diff, rsi_rest, rsi_numpy}
use multi_agent_trading_syst.Technical.Results.{TechnicalAnalysisSettings, RsiResult}
use multi_agent_trading_syst.Technical.Oscillators.{compute_rsi, rsi_result}

module _ {ℓ} {A : Type ℓ} where
  last-append_cons : (xs : List A) (y : A) (ys : List A) → last (xs ++ (y ∷ ys)) ≡ last (y ∷ ys)
  last-append_cons [] y ys = refl
  last-append_cons (x ∷ []) y ys = refl
  last-append_cons (x ∷ z ∷ zs) y ys = last-append_cons (z ∷ zs) y ys

last-all_nan : {A : Type 0} (n : ℕ) → last (all_nan {A = A} (suc n) ++ []) ≡ some none
last-all_nan zero = refl
last-all_nan (suc n) = last-all_nan n

-- What `compute_rsi` is asked to give: the outcome for a number of closes.
pub data RsiOutcome : Type 0 where
  refused_short refused_nan given : RsiOutcome

unfoldable pub outcome_of : {F : Type 0} → Computed (RsiResult F) → RsiOutcome
outcome_of (computed r) = RsiOutcome.given
outcome_of (refused nan_value) = RsiOutcome.refused_nan
outcome_of (refused t) = RsiOutcome.refused_short

abbrev by_length : ℕ → ℕ → RsiOutcome
by_length count period =
    if ltb count (period + 1)
    then RsiOutcome.refused_short
    else if count == period + 1
    then RsiOutcome.refused_nan
    else RsiOutcome.given

module _ {F : Type 0} ⦃f : Float F⦄ where
  length-diff : (x : F) (xs : List F) → length (diff (x ∷ xs)) ≡ length xs
  length-diff x [] = refl
  length-diff x (y ∷ ys) = ap suc (length-diff y ys)

  last-rsi_rest :
      (period : ℕ) (ds : List F) (d g l : F)
      → (v : F) × (last (rsi_rest period g l (d ∷ ds)) ≡ some (some v))
  unfolding rsi_rest
  last-rsi_rest period [] d g l = (_, refl)
  last-rsi_rest period (e ∷ ds) d g l = last-rsi_rest period ds e _ _

  last_behind :
      (n period : ℕ) (ds : List F) (d g l : F)
      → (v : F) × (last (all_nan n ++ rsi_rest period g l (d ∷ ds)) ≡ some (some v))
  unfolding rsi_rest
  last_behind n period ds d g l =
      let (v, e) = last-rsi_rest period ds d g l in (v, last-append_cons (all_nan n) _ _ ∙ e)

  no_changes : (xs : List F) → length xs ≡ 0 → xs ≡ []
  no_changes [] h = refl
  no_changes (x ∷ xs) h = absurd (omega (arith, h))

  some_changes : (xs : List F) → 0 < length xs → (y : F) × ((ys : List F) × (xs ≡ y ∷ ys))
  some_changes [] h = absurd (omega (arith, h))
  some_changes (x ∷ xs) h = (x, (xs, refl))

  -- With one close more than the period there is no RSI value yet.
  rsi_numpy_exact :
      (np : Numpy F) (period : ℕ) (x : F) (xs : List F)
      → length xs ≡ period
      → last (rsi_numpy np (x ∷ xs) period) ≡ some none
  unfolding rsi_numpy
  rsi_numpy_exact np period x xs h =
      let deltas = diff (x ∷ xs) in
      let count = length-diff x xs in
      let none_left : drop period deltas ≡ [] =
        no_changes _ (omega (arith, length-drop period deltas, count, h)) in
      let long : ltb (length deltas) period ≡ false = ground (arith, count, h) in
      let more : period + 1 ≡ suc period = omega arith in
      rw (long, none_left, rsi_rest, more) (last-all_nan period)

  -- With two more there is one.
  rsi_numpy_long :
      (np : Numpy F) (period : ℕ) (x : F) (xs : List F)
      → period < length xs
      → (v : F) × (last (rsi_numpy np (x ∷ xs) period) ≡ some (some v))
  unfolding rsi_numpy
  rsi_numpy_long np period x xs h =
      let deltas = diff (x ∷ xs) in
      let count = length-diff x xs in
      let (d, (ds, left)) =
        some_changes (drop period deltas) (omega (arith, length-drop period deltas, count, h)) in
      let long : ltb (length deltas) period ≡ false = ground (arith, count, h) in
      rw (long, left) (last_behind (period + 1) period ds d _ _)

  outcome_by_length :
      (cfg : TechnicalAnalysisSettings F) (np : Numpy F) (period : ℕ) (closes : List F)
      → outcome_of (
          validate_length closes (period + 1) (
            and_then (current (rsi_numpy np closes period)) λ now.
              computed (rsi_result cfg period (from_end 1 (rsi_numpy np closes period)) now)))
        ≡ by_length (length closes) period
  unfolding validate_length outcome_of
  outcome_by_length cfg np period [] =
      let short : ltb 0 (period + 1) ≡ true = ground arith in rw short refl
  outcome_by_length cfg np period (x ∷ xs) =
      elim (Bool-cases (ltb (length (x ∷ xs)) (period + 1))) [
        | inl short ↦ rw short refl
        | inr long ↦ elim (Bool-cases (length (x ∷ xs) == period + 1)) [
          | inl exact ↦
              rw (long, exact, rsi_numpy_exact np period x xs (ground (arith, exact))) refl
          | inr more ↦
              let (v, e) = rsi_numpy_long np period x xs (ground (arith, long, more)) in
              rw (long, more, e) refl
        ]
      ]

  -- Without TA-Lib an RSI is given from two closes more than the period on. With just one more, which
  -- is what the length check asks for, the last value is NaN.
  pub compute_rsi-fallback :
      (cfg : TechnicalAnalysisSettings F) (lib : Libraries F) (asked : Option ℕ) (closes : List F)
      → lib.talib ≡ none
      → let period = or_period asked cfg.rsi_period in
        outcome_of (compute_rsi cfg lib asked closes) ≡ (
          if ltb (length closes) (period + 1)
          then RsiOutcome.refused_short
          else if length closes == period + 1
          then RsiOutcome.refused_nan
          else RsiOutcome.given)
  unfolding compute_rsi validate_length outcome_of
  compute_rsi-fallback cfg lib asked closes h =
      rw h (outcome_by_length cfg lib.numpy (or_period asked cfg.rsi_period) closes)
