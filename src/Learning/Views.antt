-- ===== src/Learning/Views.antt =====
-- The feature rows of training and of inference (agents/technical_analysis/ml/feature_engineer.py).
use mathlib.Core.Path.{fun_ext}
use multi_agent_trading_syst.Prelude.{
  ℕ, ◌+◌, ◌-◌, ◌≤◌, ◌<◌, ◌≡◌, refl, sym, ap, ◌∙◌, List, [], arith, ltb, Bool-cases, inl, inr,
}
use multi_agent_trading_syst.Prelude.Deque.{drop}
use multi_agent_trading_syst.Prelude.Float.{Float}
use multi_agent_trading_syst.Technical.Series.{Numpy, take, indexed}
use multi_agent_trading_syst.Learning.Leakage.{take-take, take-drop, nth-take}
use multi_agent_trading_syst.Learning.Indicators.{Maths, bollinger}
use multi_agent_trading_syst.Learning.Features.{Bars, Precomputed, precomputed, back, before}
use multi_agent_trading_syst.Learning.Rows.{view}
use multi_agent_trading_syst.Learning.Causal.{
  take-ema, take-rsi, take-atr, take-macd_hist, take-bands_from,
}

-- The first bars of a history, and the values of its indicators there.
abbrev pub first_bars : {F : Type 0} → ℕ → Bars F → Bars F
first_bars n b = record {
  opens = take n b.opens;
  highs = take n b.highs;
  lows = take n b.lows;
  closes = take n b.closes;
  volumes = take n b.volumes;
  timestamps = take n b.timestamps;
}

abbrev first_values : {F : Type 0} → ℕ → Precomputed F → Precomputed F
first_values n s = record {
  rsi_14 = take n s.rsi_14;
  rsi_7 = take n s.rsi_7;
  hist = take n s.hist;
  atr_14 = take n s.atr_14;
  bands = take n s.bands;
  ema_9 = take n s.ema_9;
  ema_21 = take n s.ema_21;
  ema_50 = take n s.ema_50;
}

module _ {F : Type 0} ⦃f : Float F⦄ (np : Numpy F) (m : Maths F) where
  take-bollinger :
      (n period : ℕ) (d : F) (xs : List F)
      → take n (bollinger np period d xs) ≡ bollinger np period d (take n xs)
  unfolding bollinger
  take-bollinger n period d xs = take-bands_from np period d n [] xs

  -- The indicators look back only.
  pub precomputed-first :
      (n : ℕ) (b : Bars F) → precomputed np m (first_bars n b) ≡ first_values n (precomputed np m b)
  precomputed-first n b =
      rw
        (
          take-rsi np m 14 n b.closes,
          take-rsi np m 7 n b.closes,
          take-macd_hist np 12 26 9 n b.closes,
          take-atr np 14 n b.highs b.lows b.closes,
          take-bollinger n 20 (f.lit 2 1) b.closes,
          take-ema np 9 n b.closes,
          take-ema np 21 n b.closes,
          take-ema np 50 n b.closes,
        )
        refl

module _ {A : Type 0} (idx n : ℕ) (inside : idx < n) (xs : List A) where
  back-take : back idx (take n xs) ≡ back idx xs
  back-take = fun_ext (λ lag. ap indexed (nth-take (idx - lag) n xs (omega (arith, inside))))

  before-take : before idx (take n xs) ≡ before idx xs
  before-take = fun_ext (λ k. elim (Bool-cases (ltb idx k)) [
    | inl early ↦ rw early (take-take idx n xs (omega (arith, inside)))
    | inr late ↦
        let at : idx - k + k ≤ n = ground (arith, late, inside) in
        rw late (
          take-drop k (idx - k) (take n xs)
          ∙ ap (drop (idx - k)) (take-take (idx - k + k) n xs at)
          ∙ sym (take-drop k (idx - k) xs))
  ])

module _ {F : Type 0} where
  -- What is read for a bar stands among the bars up to it.
  pub view-first :
      (idx n : ℕ)
      → idx < n
      → (b : Bars F) (s : Precomputed F)
      → view idx (first_bars n b) (first_values n s) ≡ view idx b s
  view-first idx n h b s = λ i. record {
    opens = back-take idx n h b.opens i;
    highs = back-take idx n h b.highs i;
    lows = back-take idx n h b.lows i;
    closes = back-take idx n h b.closes i;
    volumes = back-take idx n h b.volumes i;
    window = before-take idx n h b.volumes i;
    rsi_14 = back-take idx n h s.rsi_14 i;
    rsi_7 = back-take idx n h s.rsi_7 i;
    hist = back-take idx n h s.hist i;
    atr_14 = back-take idx n h s.atr_14 i;
    bands = back-take idx n h s.bands i;
    ema_9 = back-take idx n h s.ema_9 i;
    ema_21 = back-take idx n h s.ema_21 i;
    ema_50 = back-take idx n h s.ema_50 i;
  }
