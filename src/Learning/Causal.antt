-- ===== src/Learning/Causal.antt =====
-- The indicators of agents/technical_analysis/ml/feature_engineer.py on a part of a history.
use multi_agent_trading_syst.Prelude.{
  ℕ, zero, suc, ◌≡◌, refl, ap, ◌∙◌, Option, none, some, List, [], ◌∷◌, ◌++◌, ◌==◌, length, map,
  Bool-cases, inl, inr,
}
use multi_agent_trading_syst.Prelude.Float.{Float}
use multi_agent_trading_syst.Technical.Series.{Numpy, take}
use multi_agent_trading_syst.Technical.Fallback.{diff, true_ranges, all_true_ranges, zip_minus}
use multi_agent_trading_syst.Learning.Indicators.{
  Maths, Smoothing, exponential, wilder_rsi, wilder_range, follow, smoothed, ema, rsi, after_first,
  atr, macd_hist, bands_from,
}

module _ {A : Type 0} where
  take-empty : (n : ℕ) → take {A = A} n [] ≡ []
  take-empty zero = refl
  take-empty (suc n) = refl

module _ {A B : Type 0} where
  pub take-map : (n : ℕ) (g : A → B) (xs : List A) → take n (map g xs) ≡ map g (take n xs)
  take-map zero g xs = refl
  take-map (suc n) g [] = refl
  take-map (suc n) g (x ∷ xs) = ap (λ l. g x ∷ l) (take-map n g xs)

module _ {X S F : Type 0} (k : Smoothing X S F) where
  take-follow :
      (n : ℕ) (s : Option S) (xs : List (Option X))
      → take n (follow k s xs) ≡ follow k s (take n xs)
  take-follow zero s xs = refl
  take-follow (suc n) s [] = refl
  take-follow (suc n) (some s) (some x ∷ xs) =
      ap (λ l. some (k.value (k.step s x)) ∷ l) (take-follow n (some (k.step s x)) xs)
  take-follow (suc n) none (some x ∷ xs) = ap (λ l. none ∷ l) (take-follow n none xs)
  take-follow (suc n) s (none ∷ xs) = ap (λ l. none ∷ l) (take-follow n none xs)

  take-smoothed :
      (n : ℕ) (seen : List X) (xs : List (Option X))
      → take n (smoothed k seen xs) ≡ smoothed k seen (take n xs)
  unfolding smoothed
  take-smoothed zero seen xs = refl
  take-smoothed (suc n) seen [] = refl
  take-smoothed (suc n) seen (none ∷ xs) = ap (λ l. none ∷ l) (take-smoothed n seen xs)
  take-smoothed (suc n) seen (some x ∷ xs) =
      let seen' = seen ++ (x ∷ []) in
      elim (Bool-cases (length seen' == k.period)) [
        | inl full ↦
            rw full
              (ap (λ l. some (k.first (k.seed seen')) ∷ l) (take-follow n (some (k.seed seen')) xs))
        | inr open_ ↦ rw open_ (ap (λ l. none ∷ l) (take-smoothed n seen' xs))
      ]

module _ {F : Type 0} ⦃f : Float F⦄ where
  take-zip_minus :
      (n : ℕ) (xs ys : List (Option F))
      → take n (zip_minus xs ys) ≡ zip_minus (take n xs) (take n ys)
  take-zip_minus zero xs ys = refl
  take-zip_minus (suc n) [] ys = refl
  take-zip_minus (suc n) (x ∷ xs) [] = refl
  take-zip_minus (suc n) (x ∷ xs) (y ∷ ys) = rw (take-zip_minus n xs ys) refl

  take-diff : (n : ℕ) (xs : List F) → take n (diff xs) ≡ diff (take (suc n) xs)
  take-diff zero [] = refl
  take-diff zero (x ∷ xs) = refl
  take-diff (suc n) [] = refl
  take-diff (suc n) (x ∷ []) = refl
  take-diff (suc n) (x ∷ y ∷ ys) = ap (λ l. f.sub y x ∷ l) (take-diff n (y ∷ ys))

  take-true_ranges :
      (n : ℕ) (last : F) (hs ls cs : List F)
      → take n (true_ranges last hs ls cs) ≡ true_ranges last (take n hs) (take n ls) (take n cs)
  take-true_ranges zero last hs ls cs = refl
  take-true_ranges (suc n) last [] ls cs = refl
  take-true_ranges (suc n) last (h ∷ hs) [] cs = refl
  take-true_ranges (suc n) last (h ∷ hs) (l ∷ ls) [] = refl
  take-true_ranges (suc n) last (h ∷ hs) (l ∷ ls) (c ∷ cs) = rw (take-true_ranges n c hs ls cs) refl

  take-all_true_ranges :
      (n : ℕ) (hs ls cs : List F)
      → take n (all_true_ranges hs ls cs)
        ≡ all_true_ranges (take (suc n) hs) (take (suc n) ls) (take (suc n) cs)
  take-all_true_ranges n [] ls cs = take-empty n
  take-all_true_ranges n (h ∷ hs) [] cs = take-empty n
  take-all_true_ranges n (h ∷ hs) (l ∷ ls) [] = take-empty n
  take-all_true_ranges n (h ∷ hs) (l ∷ ls) (c ∷ cs) = take-true_ranges n c hs ls cs

  -- A smoothed series over numbers.
  take-smoothed_numbers :
      {X S : Type 0}
      → (k : Smoothing X S F) (n : ℕ) (xs : List X)
      → take n (smoothed k [] (map (λ x. some x) xs))
        ≡ smoothed k [] (map (λ x. some x) (take n xs))
  take-smoothed_numbers k n xs =
      take-smoothed k n [] (map (λ x. some x) xs) ∙ ap (smoothed k []) (take-map n (λ x. some x) xs)

  pub take-ema :
      (np : Numpy F) (period n : ℕ) (xs : List F)
      → take n (ema np period xs) ≡ ema np period (take n xs)
  unfolding ema
  take-ema np period n xs = take-smoothed_numbers (exponential np period) n xs

  -- A series that gives as many elements as it reads.
  take-after_first :
      {X : Type 0}
      → (series : List X → List (Option F)) (n : ℕ) (cs : List F) (xs xs' : List X)
      → take n (series xs) ≡ series xs'
      → take (suc n) (after_first series cs xs) ≡ after_first series (take (suc n) cs) xs'
  take-after_first series n [] xs xs' e = refl
  take-after_first series n (c ∷ cs) xs xs' e = ap (λ l. none ∷ l) e

  pub take-rsi :
      (np : Numpy F) (m : Maths F) (period n : ℕ) (xs : List F)
      → take n (rsi np m period xs) ≡ rsi np m period (take n xs)
  unfolding rsi
  take-rsi np m period zero xs = refl
  take-rsi np m period (suc n) xs =
      let k = wilder_rsi np m period in
      let series : List F → List (Option F) = λ ds. smoothed k [] (map (λ d. some d) ds) in
      let present : List F → List (Option F) = map (λ d. some d) in
      take-after_first (smoothed k []) n xs (present (diff xs)) (present (diff (take (suc n) xs)))
        (take-smoothed_numbers k n (diff xs) ∙ ap series (take-diff n xs))

  pub take-atr :
      (np : Numpy F) (period n : ℕ) (hs ls cs : List F)
      → take n (atr np period hs ls cs) ≡ atr np period (take n hs) (take n ls) (take n cs)
  unfolding atr
  take-atr np period zero hs ls cs = refl
  take-atr np period (suc n) hs ls cs =
      let k = wilder_range np period in
      let series : List F → List (Option F) = λ xs. smoothed k [] (map (λ x. some x) xs) in
      let present : List F → List (Option F) = map (λ x. some x) in
      let ranges = all_true_ranges (take (suc n) hs) (take (suc n) ls) (take (suc n) cs) in
      take-after_first (smoothed k []) n cs (present (all_true_ranges hs ls cs)) (present ranges) (
        take-smoothed_numbers k n (all_true_ranges hs ls cs)
        ∙ ap series (take-all_true_ranges n hs ls cs))

  pub take-macd_hist :
      (np : Numpy F) (fast slow signal_period n : ℕ) (xs : List F)
      → take n (macd_hist np fast slow signal_period xs)
        ≡ macd_hist np fast slow signal_period (take n xs)
  unfolding macd_hist
  take-macd_hist np fast slow signal_period n xs =
      let k = exponential np signal_period in
      let line = zip_minus (ema np fast xs) (ema np slow xs) in
      let same : take n line ≡ zip_minus (ema np fast (take n xs)) (ema np slow (take n xs)) =
        take-zip_minus n (ema np fast xs) (ema np slow xs)
        ∙ ap (λ l. zip_minus l (take n (ema np slow xs))) (take-ema np fast n xs)
        ∙ ap (zip_minus (ema np fast (take n xs))) (take-ema np slow n xs) in
      take-zip_minus n line (smoothed k [] line)
      ∙ ap (zip_minus (take n line)) (take-smoothed k n [] line)
      ∙ ap (λ l. zip_minus l (smoothed k [] l)) same

  pub take-bands_from :
      (np : Numpy F) (period : ℕ) (d : F) (n : ℕ) (seen xs : List F)
      → take n (bands_from np period d seen xs) ≡ bands_from np period d seen (take n xs)
  unfolding bands_from
  take-bands_from np period d zero seen xs = refl
  take-bands_from np period d (suc n) seen [] = refl
  take-bands_from np period d (suc n) seen (x ∷ xs) =
      rw (take-bands_from np period d n (seen ++ (x ∷ [])) xs) refl
