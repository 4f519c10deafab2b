-- ===== src/Decision/Range.antt =====
-- The range of the score and the confidence (agents/decision/signal_aggregator.py), which the model of
-- an AggregatedSignal demands.
use multi_agent_trading_syst.Prelude.{
  ℕ, ◌+◌, ◌≡◌, sym, true, Option, none, some, Bool-cases, inl, inr, arith,
}
use multi_agent_trading_syst.Prelude.Float.{Float, IsOrdered, nought, max_float, min_float}
use multi_agent_trading_syst.Models.Signals.{TechnicalSignal, SentimentSignal, AggregatedSignal}
use multi_agent_trading_syst.Decision.Aggregator.{
  SignalAggregator, aggregate, valid_technical, valid_sentiment, fuse_valid, fuse, count_some,
  count_lost, clamp,
}

module _ {F : Type 0} ⦃f : Float F⦄ where
  abbrev pub IsBetween : F → F → F → Type 0
  IsBetween lo hi x = (f.le lo x ≡ true) × (f.le x hi ≡ true)

  -- A composite score in [-1, 1] and a confidence in [0, 1].
  abbrev pub IsInRange : AggregatedSignal F → Type 0
  IsInRange a =
      IsBetween (f.neg (f.lit 1 1)) (f.lit 1 1) a.composite_score
      × IsBetween nought (f.lit 1 1) a.confidence

module _ {F : Type 0} ⦃f : Float F⦄ (o : IsOrdered F) where
  lt→le : (x y : F) → f.lt x y ≡ true → f.le x y ≡ true
  lt→le x y h = ground (o.lt-eq-not-le x y, o.le_total x y, arith)

  min-below : (x y : F) → f.le (min_float x y) x ≡ true
  min-below x y = elim (Bool-cases (f.lt y x)) [
    | inl less ↦ rw less (lt→le y x less)
    | inr more ↦ rw more (o.le_refl x)
  ]

  max-above : (x y : F) → f.le x (max_float x y) ≡ true
  max-above x y = elim (Bool-cases (f.lt x y)) [
    | inl less ↦ rw less (lt→le x y less)
    | inr more ↦ rw more (o.le_refl x)
  ]

  max-below : (x y z : F) → f.le x z ≡ true → f.le y z ≡ true → f.le (max_float x y) z ≡ true
  max-below x y z h k = elim (Bool-cases (f.lt x y)) [ inl less ↦ rw less k | inr more ↦ rw more h ]

  clamp-IsBetween : (lo x : F) → f.le lo (f.lit 1 1) ≡ true → IsBetween lo (f.lit 1 1) (clamp lo x)
  clamp-IsBetween lo x h = (
    max-above lo (min_float (f.lit 1 1) x),
    max-below lo (min_float (f.lit 1 1) x) (f.lit 1 1) h (min-below (f.lit 1 1) x),
  )

  round4-IsBetween :
      (lo x : F)
      → f.round4 lo ≡ lo
      → IsBetween lo (f.lit 1 1) x
      → IsBetween lo (f.lit 1 1) (f.round4 x)
  round4-IsBetween lo x whole (above, below) = (
    rw whole at (o.round4_mono lo x above),
    rw (o.round4_whole 1) at (o.round4_mono x (f.lit 1 1) below),
  )

  nought≤one : f.le nought (f.lit 1 1) ≡ true
  nought≤one = o.lit_mono 0 1 1 (omega arith)

  minus≤one : f.le (f.neg (f.lit 1 1)) (f.lit 1 1) ≡ true
  minus≤one =
      o.le_trans (f.neg (f.lit 1 1)) nought (f.lit 1 1)
        (rw o.neg_nought at (o.neg_anti nought (f.lit 1 1) nought≤one)) nought≤one

  fuse-IsInRange :
      (g : SignalAggregator F) (symbol total discarded : ℕ) (t : Option (TechnicalSignal F))
      (s : Option (SentimentSignal F))
      → IsInRange (fuse g symbol total discarded t s)
  unfolding fuse
  fuse-IsInRange g symbol total discarded t s = (
    round4-IsBetween (f.neg (f.lit 1 1)) _ o.round4-neg_one (clamp-IsBetween _ _ minus≤one),
    round4-IsBetween nought _ (o.round4_whole 0) (clamp-IsBetween nought _ nought≤one),
  )

  fuse_valid-IsInRange :
      (g : SignalAggregator F) (symbol total discarded : ℕ) (t : Option (TechnicalSignal F))
      (s : Option (SentimentSignal F)) (a : AggregatedSignal F)
      → fuse_valid g symbol total discarded t s ≡ some a
      → IsInRange a
  unfolding fuse_valid
  fuse_valid-IsInRange g symbol total discarded none none a e = absurd (cc e)
  fuse_valid-IsInRange g symbol total discarded (some t) s a e =
      let a_is : fuse g symbol total discarded (some t) s ≡ a = cc in
      rw (sym a_is) (fuse-IsInRange g symbol total discarded (some t) s)
  fuse_valid-IsInRange g symbol total discarded none (some s) a e =
      let a_is : fuse g symbol total discarded none (some s) ≡ a = cc in
      rw (sym a_is) (fuse-IsInRange g symbol total discarded none (some s))

  -- Whatever the signals and the weights, negative ones included, a fused score lies in [-1, 1] and a
  -- fused confidence in [0, 1], also after rounding to four places.
  pub aggregate-IsInRange :
      (g : SignalAggregator F) (now symbol : ℕ) (technical : Option (TechnicalSignal F))
      (sentiment : Option (SentimentSignal F)) (a : AggregatedSignal F)
      → aggregate g now symbol technical sentiment ≡ some a
      → IsInRange a
  unfolding aggregate
  aggregate-IsInRange g now symbol technical sentiment a e =
      let t = valid_technical g now technical in
      let s = valid_sentiment g now sentiment in
      fuse_valid-IsInRange g symbol (count_some technical + count_some sentiment)
        (count_lost technical t + count_lost sentiment s) t s a e
