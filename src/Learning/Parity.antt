-- ===== src/Learning/Parity.antt =====
-- The features of training and of inference agree (agents/technical_analysis/ml/feature_engineer.py).
use multi_agent_trading_syst.Prelude.{
  ℕ, zero, suc, ◌+◌, ◌-◌, ◌≤◌, ◌<◌, ◌≡◌, refl, sym, ap, ◌∙◌, Option, none, some, List, [], ◌∷◌,
  arith, ltb, false, if◌then◌else◌, length, map, Bool-cases, inl, inr,
}
use multi_agent_trading_syst.Prelude.Deque.{last}
use multi_agent_trading_syst.Prelude.Float.{Float}
use multi_agent_trading_syst.Models.Market.{OhlcvCandle}
use multi_agent_trading_syst.MarketData.Buffer.{CandleBuffer, size}
use multi_agent_trading_syst.Technical.Series.{Numpy, Computed, computed, and_then, nth, take}
use multi_agent_trading_syst.Learning.Leakage.{length-take}
use multi_agent_trading_syst.Learning.Indicators.{Maths}
use multi_agent_trading_syst.Learning.Features.{Bars, bars_of, precomputed}
use multi_agent_trading_syst.Learning.Rows.{
  nan_to_num, view, assembled, row_from_precomputed, features_for_index, build_features, rows_from,
  matrix_row, build_feature_matrix,
}
use multi_agent_trading_syst.Learning.Causal.{take-map}
use multi_agent_trading_syst.Learning.Views.{first_bars, precomputed-first, view-first}
use multi_agent_trading_syst.Learning.Hygiene.{matrix_row-IsCleanRow, rows_from-again}

module _ {A B : Type 0} where
  length-map : (g : A → B) (xs : List A) → length (map g xs) ≡ length xs
  length-map g [] = refl
  length-map g (x ∷ xs) = ap suc (length-map g xs)

module _ {A : Type 0} where
  last-take : (i : ℕ) (xs : List A) → i < length xs → last (take (suc i) xs) ≡ nth i xs
  last-take i [] h = absurd (omega (arith, h))
  last-take zero (x ∷ xs) h = refl
  last-take (suc i) (x ∷ []) h = absurd (omega (arith, h))
  last-take (suc i) (x ∷ y ∷ ys) h = last-take i (y ∷ ys) (omega (arith, h))

  nth-inside : (i : ℕ) (xs : List A) → i < length xs → (x : A) × (nth i xs ≡ some x)
  nth-inside i [] h = absurd (omega (arith, h))
  nth-inside zero (x ∷ xs) h = (x, refl)
  nth-inside (suc i) (x ∷ xs) h = nth-inside i xs (omega (arith, h))

  rows_from-agree :
      (row_at row_at' : ℕ → Computed (Option A)) (n i : ℕ)
      → ((j : ℕ) → i ≤ j → j < i + n → row_at j ≡ row_at' j)
      → rows_from row_at n i ≡ rows_from row_at' n i
  unfolding rows_from
  rows_from-agree row_at row_at' zero i h = refl
  rows_from-agree row_at row_at' (suc n) i h =
      rw
        (
          h i (omega arith) (omega arith),
          rows_from-agree row_at row_at' n (suc i)
              (λ j a b. h j (omega (arith, a)) (omega (arith, b))),
        )
        refl

module _ {F : Type 0} ⦃f : Float F⦄ (np : Numpy F) (m : Maths F) where
  -- The row of a bar depends on the bars up to it only.
  row-first :
      (idx n : ℕ) (b : Bars F) (t : Option ℕ)
      → idx < n
      → row_from_precomputed np m idx (first_bars n b) t (precomputed np m (first_bars n b))
        ≡ row_from_precomputed np m idx b t (precomputed np m b)
  unfolding row_from_precomputed
  row-first idx n b t h =
      let seen =
        ap (view idx (first_bars n b)) (precomputed-first np m n b)
        ∙ view-first idx n h b (precomputed np m b) in
      ap
        (λ v.
          if ltb idx 59
          then computed none
          else and_then (assembled np m v t) (λ vec. computed (some (nan_to_num np m vec))))
        seen

  bars_of-take :
      (n : ℕ) (cs : List OhlcvCandle) → bars_of {F = F} (take n cs) ≡ first_bars n (bars_of cs)
  bars_of-take n cs =
      rw
        (
          take-map n (λ c. f.of_decimal c.open_price) cs,
          take-map n (λ c. f.of_decimal c.high) cs,
          take-map n (λ c. f.of_decimal c.low) cs,
          take-map n (λ c. f.of_decimal c.close) cs,
          take-map n (λ c. f.of_decimal c.volume) cs,
          take-map n (λ c. c.timestamp) cs,
        )
        refl

-- The buffer as it was when it held its first candles.
abbrev pub at_bar : ℕ → CandleBuffer → CandleBuffer
at_bar i b = record b { candles = take (suc i) b.candles }

module _ {F : Type 0} ⦃f : Float F⦄ (np : Numpy F) (m : Maths F) where
  build_features-held :
      (b : CandleBuffer)
      → 60 ≤ size b
      → build_features np m b ≡ (
          let bars = bars_of b.candles in
          features_for_index np m (length bars.closes - 1) bars (last bars.timestamps))
  unfolding build_features
  build_features-held b h = let long : ltb (size b) 60 ≡ false = ground (arith, h) in rw long refl

  matrix_row-timed :
      (b : Bars F) (i t : ℕ)
      → nth i b.timestamps ≡ some t
      → matrix_row np m b i ≡ row_from_precomputed np m i b (some t) (precomputed np m b)
  unfolding matrix_row
  matrix_row-timed b i t e = rw e refl

  features_for_index-row :
      (b : Bars F) (i t : ℕ)
      → nth i b.timestamps ≡ some t
      → features_for_index np m i (first_bars (suc i) b) (some t) ≡ matrix_row np m b i
  unfolding features_for_index
  features_for_index-row b i t e =
      row-first np m i (suc i) b (some t) (omega arith) ∙ sym (matrix_row-timed b i t e)

  build_features-row :
      (b : CandleBuffer) (i : ℕ)
      → 59 ≤ i
      → i < size b
      → build_features np m (at_bar i b) ≡ matrix_row np m (bars_of b.candles) i
  build_features-row b i warm inside =
      let cs = b.candles in
      let bars : Bars F = bars_of cs in
      let seen : Bars F = bars_of (take (suc i) cs) in
      let held : length (take (suc i) cs) ≡ suc i =
        length-take (suc i) cs (omega (arith, inside)) in
      let same : seen ≡ first_bars (suc i) bars = bars_of-take np m (suc i) cs in
      let latest : length seen.closes - 1 ≡ i =
        ground (arith, length-map (λ c. f.of_decimal c.close) (take (suc i) cs), held) in
      let many : i < length bars.timestamps =
        ground (arith, length-map (λ c. c.timestamp) cs, inside) in
      let (t, at_t) = nth-inside i bars.timestamps many in
      let time : last seen.timestamps ≡ some t =
        ap (λ s. last s.timestamps) same ∙ last-take i bars.timestamps many ∙ at_t in
      build_features-held (at_bar i b) (omega (arith, held, warm))
      ∙ ap (λ n. features_for_index np m n seen (last seen.timestamps)) latest
      ∙ ap (features_for_index np m i seen) time
      ∙ ap (λ s. features_for_index np m i s (some t)) same
      ∙ features_for_index-row bars i t at_t

  -- The training matrix over the candles of a buffer consists of the vectors that inference builds
  -- at each bar from the candles up to it, from the 60th candle on.
  pub build_feature_matrix-agree :
      (b : CandleBuffer)
      → (let bars = bars_of b.candles in build_feature_matrix np m (some bars.opens) bars)
        ≡ rows_from (λ i. build_features np m (at_bar i b)) (size b - 59) 59
  unfolding build_feature_matrix rows_from
  build_feature_matrix-agree b =
      let bars : Bars F = bars_of b.candles in
      let long : length bars.closes ≡ size b = length-map (λ c. f.of_decimal c.close) b.candles in
      let rows =
        rows_from-agree (λ i. build_features np m (at_bar i b)) (matrix_row np m bars) (size b - 59)
          59 (λ j warm inside. build_features-row b j warm (omega (arith, inside))) in
      let all_rows = matrix_row np m bars in
      elim (Bool-cases (ltb (length bars.closes) 60)) [
        | inl short ↦
            let no_row : size b - 59 ≡ 0 = ground (arith, short, long) in rw (short, no_row) refl
        | inr enough ↦ rw enough (
            rows_from-again np m all_rows (matrix_row-IsCleanRow np m bars)
              (length bars.closes - 59) 59
            ∙ ap (λ n. rows_from all_rows (n - 59) 59) long
            ∙ sym rows)
      ]
