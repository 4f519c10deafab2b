-- ===== src/Technical/Emitted.antt =====
-- What an emitted technical signal carries, and what the Decision and the Risk agent make of it
-- (agents/technical_analysis/signal_generator.py, agents/decision/signal_aggregator.py,
-- agents/risk/position_sizer.py).
use multi_agent_trading_syst.Prelude.{
  ℕ, ◌+◌, ◌*◌, ◌^◌, ◌≤◌, ◌≡◌, refl, ◌∙◌, ap, Bool, true, false, Option, none, some, List, [], ◌∷◌,
  arith, length, ltb, if◌then◌else◌, Bool-cases, Option-cases, inl, inr, length-append,
}
use multi_agent_trading_syst.Prelude.Deque.{last}
use multi_agent_trading_syst.Prelude.Float.{Float, IsOrdered, nought}
use multi_agent_trading_syst.Models.Trade.{TradeProposal}
use multi_agent_trading_syst.MarketData.Buffer.{CandleBuffer, is_warm}
use multi_agent_trading_syst.Decision.Aggregator.{scalar_to_direction}
use multi_agent_trading_syst.Risk.Sizer.{get_stop_loss_pct, extract_atr_pct}
use multi_agent_trading_syst.Technical.Series.{
  Libraries, Computed, computed, refused, too_short, and_then, validate_length,
}
use multi_agent_trading_syst.Technical.Results.{TechnicalAnalysisSettings, AtrResult}
use multi_agent_trading_syst.Technical.Trend.{compute_atr, atr_result}
use multi_agent_trading_syst.Technical.Scoring.{
  Generated, Indicators, Tally, tally, composite_of, score_to_direction, try_compute,
}
use multi_agent_trading_syst.Technical.Generator.{
  generate, combine, build_signal, compute_all, confidence_of, floats, generate_at,
}

-- A warm buffer whose last close is the price; two readings; a confidence that reaches the minimum,
-- rounded as it is; the time to live; and the direction that the Decision agent reads off the score.
pub record IsEmitted {F : Type 0} ⦃f : Float F⦄ (cfg : TechnicalAnalysisSettings F) (now : ℕ)
    (b : CandleBuffer) (g : Generated F) : Type 0 where
  pub warm : is_warm b ≡ true
  pub price : last (floats (λ c. c.close) b) ≡ some g.signal.price
  pub read : 2 ≤ length g.indicators
  pub confident : f.le (f.round4 cfg.min_signal_confidence) g.signal.confidence ≡ true
  pub lifetime : g.signal.expires_at ≡ now + cfg.signal_ttl_seconds * 10 ^ 6
  pub aligned :
      (score : F) × ((g.composite_score ≡ f.round4 score)
        × (g.signal.direction ≡ scalar_to_direction score))

module _ {F : Type 0} ⦃f : Float F⦄ where
  generate_by-combine :
      (cfg : TechnicalAnalysisSettings F) (lib : Libraries F) (now : ℕ) (b : CandleBuffer)
      (g : Generated F) (warm : Bool) (close : Option F)
      → is_warm b ≡ warm
      → last (floats (λ c. c.close) b) ≡ close
      → (if warm then generate_at cfg lib now b close else none) ≡ some g
      → (is_warm b ≡ true)
        × ((price : F) × ((last (floats (λ c. c.close) b) ≡ some price)
              × (combine cfg now b price (compute_all cfg lib b) ≡ some g)))
  unfolding generate_at
  generate_by-combine cfg lib now b g true none w e h = absurd (ground arith)
  generate_by-combine cfg lib now b g true (some price) w e h = (w, (price, (e, h)))
  generate_by-combine cfg lib now b g false close w e h = absurd (ground arith)

  generate-combine :
      (cfg : TechnicalAnalysisSettings F) (lib : Libraries F) (now : ℕ) (b : CandleBuffer)
      (g : Generated F)
      → generate cfg lib now b ≡ some g
      → (is_warm b ≡ true)
        × ((price : F) × ((last (floats (λ c. c.close) b) ≡ some price)
              × (combine cfg now b price (compute_all cfg lib b) ≡ some g)))
  unfolding generate
  generate-combine cfg lib now b g h = generate_by-combine cfg lib now b g _ _ refl refl h

  combine-inv :
      (cfg : TechnicalAnalysisSettings F) (now : ℕ) (b : CandleBuffer) (price : F)
      (i : Indicators F) (g : Generated F)
      → combine cfg now b price i ≡ some g
      → (ltb (length (tally i).readings) 2 ≡ false)
        × ((f.lt (confidence_of i (tally i)) cfg.min_signal_confidence ≡ false)
            × (g ≡ build_signal cfg now b price i (tally i)))
  unfolding combine
  combine-inv cfg now b price i g h = ground arith

  build_signal-read :
      (cfg : TechnicalAnalysisSettings F) (now : ℕ) (b : CandleBuffer) (price : F)
      (i : Indicators F) (t : Tally F)
      → 2 ≤ length t.readings
      → 2 ≤ length (build_signal cfg now b price i t).indicators
  unfolding build_signal
  build_signal-read cfg now b price i t h = elim (Option-cases i.volume_result) [
    | inl e ↦ rw e h
    | inr (v, e) ↦ rw e (omega (arith, h, length-append t.readings (_ ∷ [])))
  ]

  score_to_direction-aligned : (score : F) → score_to_direction score ≡ scalar_to_direction score
  unfolding score_to_direction scalar_to_direction
  score_to_direction-aligned score = refl

module _ {F : Type 0} ⦃f : Float F⦄ (o : IsOrdered F) where
  not_lt-le : (x y : F) → f.lt x y ≡ false → f.le y x ≡ true
  not_lt-le x y h = ground (arith, o.lt-eq-not-le x y)

  -- Whatever the libraries compute, a signal is emitted from a warm buffer at its last close, with two
  -- readings or more and a confidence that reaches the minimum, lives as long as configured, and its
  -- direction is the one that the Decision agent reads off its score.
  pub generate-IsEmitted :
      (cfg : TechnicalAnalysisSettings F) (lib : Libraries F) (now : ℕ) (b : CandleBuffer)
      (g : Generated F)
      → generate cfg lib now b ≡ some g
      → IsEmitted cfg now b g
  unfolding build_signal
  generate-IsEmitted cfg lib now b g h =
      let (warm, (price, (at, e))) = generate-combine cfg lib now b g h in
      let i = compute_all cfg lib b in
      let (two, (enough, built)) = combine-inv cfg now b price i g e in
      rw built record {
        warm = warm;
        price = at;
        read = build_signal-read cfg now b price i (tally i) (ground (arith, two));
        confident = o.round4_mono _ _ (not_lt-le _ _ enough);
        lifetime = refl;
        aligned = (composite_of (tally i), (refl, score_to_direction-aligned _));
      }

module _ {F : Type 0} ⦃f : Float F⦄ where
  extract_emitted :
      (cfg : TechnicalAnalysisSettings F) (now : ℕ) (b : CandleBuffer) (price : F)
      (i : Indicators F) (t : Tally F) (a : AtrResult F)
      → i.atr_result ≡ some a
      → extract_atr_pct (some (build_signal cfg now b price i t).signal) ≡ some a.as_pct_of_price
  unfolding extract_atr_pct build_signal
  extract_emitted cfg now b price i t a e = rw e refl

  stop_of_atr :
      (p : TradeProposal F) (atr : F)
      → extract_atr_pct p.signal.technical_signal ≡ some atr
      → f.lt nought atr ≡ true
      → get_stop_loss_pct p ≡ f.mul atr (f.lit 3 2)
  unfolding get_stop_loss_pct
  stop_of_atr p atr e h = rw (e, h) refl

  read_atr-pct :
      (period : ℕ) (atr price : Computed F) (a : AtrResult F)
      → and_then atr (λ x. and_then price λ y. computed (atr_result period y x)) ≡ computed a
      → f.lt nought a.current_price ≡ true
      → a.as_pct_of_price ≡ f.mul (f.div a.value a.current_price) (f.lit 100 1)
  unfolding atr_result
  read_atr-pct period (computed x) (computed y) a h priced = ground arith
  read_atr-pct period (computed x) (refused t) a h priced = absurd (ground arith)
  read_atr-pct period (refused t) price a h priced = absurd (ground arith)

  compute_atr-pct :
      (lib : Libraries F) (period : ℕ) (highs lows closes : List F) (a : AtrResult F)
      → compute_atr lib period highs lows closes ≡ computed a
      → f.lt nought a.current_price ≡ true
      → a.as_pct_of_price ≡ f.mul (f.div a.value a.current_price) (f.lit 100 1)
  unfolding compute_atr validate_length
  compute_atr-pct lib period highs lows closes a h priced =
      elim (Bool-cases (ltb (length closes) (period + 1))) [
        | inl short ↦
            let h' : refused (too_short (period + 1) (length closes)) ≡ computed a =
              rw short at h in
            absurd (ground arith)
        | inr long ↦ read_atr-pct period _ _ a (rw long at h) priced
      ]

  compute_all-atr :
      (cfg : TechnicalAnalysisSettings F) (lib : Libraries F) (b : CandleBuffer) (a : AtrResult F)
      → compute_atr lib 14
          (floats (λ c. c.high) b)
          (floats (λ c. c.low) b)
          (floats (λ c. c.close) b)
        ≡ computed a
      → (compute_all cfg lib b).atr_result ≡ some a
  unfolding compute_all
  compute_all-atr cfg lib b a h = ap try_compute h

  -- The stop that the Risk agent takes for a share of the price is one and a half times the ATR in
  -- percent: where the generator emits a signal with a positive ATR, a proposal that carries the signal
  -- gets `ATR / price * 100 * 1.5` as its stop.
  pub generate-stop :
      (cfg : TechnicalAnalysisSettings F) (lib : Libraries F) (now : ℕ) (b : CandleBuffer)
      (g : Generated F) (a : AtrResult F) (p : TradeProposal F)
      → generate cfg lib now b ≡ some g
      → p.signal.technical_signal ≡ some g.signal
      → compute_atr lib 14
          (floats (λ c. c.high) b)
          (floats (λ c. c.low) b)
          (floats (λ c. c.close) b)
        ≡ computed a
      → f.lt nought a.current_price ≡ true
      → f.lt nought a.as_pct_of_price ≡ true
      → get_stop_loss_pct p
        ≡ f.mul (f.mul (f.div a.value a.current_price) (f.lit 100 1)) (f.lit 3 2)
  generate-stop cfg lib now b g a p h carries computes priced moves =
      let (warm, (price, (at, e))) = generate-combine cfg lib now b g h in
      let i = compute_all cfg lib b in
      let (two, (enough, built)) = combine-inv cfg now b price i g e in
      let entry : extract_atr_pct p.signal.technical_signal ≡ some a.as_pct_of_price =
        rw (carries, built)
          (extract_emitted cfg now b price i (tally i) a (compute_all-atr cfg lib b a computes)) in
      stop_of_atr p a.as_pct_of_price entry moves
      ∙ ap (λ x. f.mul x (f.lit 3 2)) (compute_atr-pct lib 14 _ _ _ a computes priced)
