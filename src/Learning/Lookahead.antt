-- ===== src/Learning/Lookahead.antt =====
-- The walk-forward strategy on two markets with the same past (backtest/walkforward.py, backtest/engine.py).
use multi_agent_trading_syst.Prelude.{
  ℕ, suc, ◌+◌, ◌-◌, ◌≤◌, ◌<◌, ◌≡◌, refl, sym, ap, ◌∙◌, Option, List, [], ◌∷◌, ◌++◌, arith, length,
  length-append, map,
}
use multi_agent_trading_syst.Prelude.Float.{Float}
use multi_agent_trading_syst.Models.Market.{OhlcvCandle}
use multi_agent_trading_syst.Models.Trade.{OrderSide}
use multi_agent_trading_syst.MarketData.Buffer.{CandleBuffer}
use multi_agent_trading_syst.Technical.Series.{take}
use multi_agent_trading_syst.Backtest.Engine.{BacktestConfig, EquityPoint, start_replay}
use multi_agent_trading_syst.Backtest.Lookahead.{
  IsPrefix, replay_all, replay_all-agree, replay_all-length, runs-IsPrefix,
}
use multi_agent_trading_syst.Learning.WalkForward.{
  Classifier, WalkForwardParams, label_generator_of, closes_of, history, decide, reached,
  run_walkforward_ml,
}
use multi_agent_trading_syst.Learning.Leakage.{take-append, take_shorter}
use multi_agent_trading_syst.Learning.Past.{Agrees, decision-past}

map-append {ℓ} :
    {A B : Type ℓ} (h : A → B) (xs ys : List A) → map h (xs ++ ys) ≡ map h xs ++ map h ys
map-append h [] ys = refl
map-append h (x ∷ xs) ys = ap (λ l. h x ∷ l) (map-append h xs ys)

length-map {ℓ} : {A B : Type ℓ} (h : A → B) (xs : List A) → length (map h xs) ≡ length xs
length-map h [] = refl
length-map h (x ∷ xs) = ap suc (length-map h xs)

module _ {F : Type 0} ⦃f : Float F⦄ where
  take-closes :
      (j : ℕ) (pre xs : List OhlcvCandle)
      → j ≤ length pre
      → take j (closes_of {F = F} (pre ++ xs)) ≡ take j (closes_of {F = F} pre)
  take-closes j pre xs h =
      ap (take j) (map-append _ pre xs)
      ∙ take-append j (closes_of pre) (closes_of xs)
          (omega (arith, h, length-map (λ c. f.of_decimal c.close) pre))

  prefix-Agrees :
      {R : Type 0} (start j : ℕ) (rows rows' : List R) (pre : List OhlcvCandle) (c d : OhlcvCandle)
      (cs ds : List OhlcvCandle)
      → take (length pre - start) rows ≡ take (length pre - start) rows'
      → j < length pre
      → Agrees start j rows rows'
          (closes_of {F = F} (pre ++ (c ∷ cs)))
          (closes_of {F = F} (pre ++ (d ∷ ds)))
  prefix-Agrees start j rows rows' pre c d cs ds same h = record {
    same_rows =
        take_shorter (j + 1 - start) (length pre - start) rows rows' (omega (arith, h)) same;
    same_closes =
        take-closes (j + 1) pre (c ∷ cs) (omega (arith, h))
        ∙ sym (take-closes (j + 1) pre (d ∷ ds) (omega (arith, h)));
    long = omega (
      arith,
      h,
      length-map (λ c. f.of_decimal c.close) (pre ++ (c ∷ cs)),
      length-append pre (c ∷ cs),
    );
    long' = omega (
      arith,
      h,
      length-map (λ c. f.of_decimal c.close) (pre ++ (d ∷ ds)),
      length-append pre (d ∷ ds),
    );
  }

module _ {R M F : Type 0} ⦃f : Float F⦄ (k : Classifier R M F) (wf : WalkForwardParams F) where
  -- Two walk-forward runs whose candles begin with the same bars, and whose feature rows agree on these
  -- bars, begin with the same points of the equity curve, one for each of these bars, whatever candles
  -- follow and whatever the classifier learns: no label reaches past the bar of a decision.
  pub run_walkforward_ml-past :
      (g : BacktestConfig F) (start : ℕ) (rows rows' : List R) (pre : List OhlcvCandle)
      (c d : OhlcvCandle) (cs ds : List OhlcvCandle)
      → take (length pre - start) rows ≡ take (length pre - start) rows'
      → (shown : List (EquityPoint F)) × (length shown ≡ length pre)
        × IsPrefix shown (run_walkforward_ml k wf g start rows (pre ++ (c ∷ cs))).curve
        × IsPrefix shown (run_walkforward_ml k wf g start rows' (pre ++ (d ∷ ds))).curve
  unfolding run_walkforward_ml
  run_walkforward_ml-past g start rows rows' pre c d cs ds same =
      let h = history (label_generator_of wf) start rows (closes_of (pre ++ (c ∷ cs))) in
      let h' = history (label_generator_of wf) start rows' (closes_of (pre ++ (d ∷ ds))) in
      let decider : CandleBuffer → ℕ → Option OrderSide =
        λ b i. (decide k wf h i (reached k wf h i)).0 in
      let decider' : CandleBuffer → ℕ → Option OrderSide =
        λ b i. (decide k wf h' i (reached k wf h' i)).0 in
      let agree = replay_all-agree g decider decider' 0 pre (start_replay g) (λ b j small.
        decision-past k wf start j rows rows' _ _
          (prefix-Agrees start j rows rows' pre c d cs ds same (omega (arith, small)))) in
      let shown = (replay_all g decider' 0 pre (start_replay g)).curve in
      (
        shown,
        replay_all-length g decider' 0 pre (start_replay g) ∙ omega arith,
        rw (← agree) (runs-IsPrefix g decider pre c cs),
        runs-IsPrefix g decider' pre d ds,
      )
