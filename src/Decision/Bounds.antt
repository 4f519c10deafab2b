-- ===== src/Decision/Bounds.antt =====
-- What the fusion of signals gives (agents/decision/signal_aggregator.py): which signals take part.
use multi_agent_trading_syst.Prelude.{
  ℕ, ◌+◌, ◌≡◌, refl, ◌∙◌, sym, true, false, Option, none, some, arith, Bool-cases, inl, inr,
  is_some, ◌||◌,
}
use multi_agent_trading_syst.Prelude.Float.{Float}
use multi_agent_trading_syst.Models.Signals.{
  TechnicalSignal, SentimentSignal, AggregatedSignal, is_expired,
}
use multi_agent_trading_syst.Decision.Aggregator.{
  SignalAggregator, aggregate, survives, valid_technical, valid_sentiment, fuse_valid, fuse,
  count_some, count_lost,
}

module _ {F : Type 0} ⦃f : Float F⦄ where
  -- A surviving signal is fresh and confident enough.
  abbrev pub IsFresh : SignalAggregator F → ℕ → ℕ → F → Type 0
  IsFresh g now expires_at confidence =
      (is_expired now expires_at ≡ false) × (f.le g.min_confidence confidence ≡ true)

  survives-IsFresh :
      (g : SignalAggregator F) (now expires_at : ℕ) (confidence : F)
      → survives g now expires_at confidence ≡ true
      → IsFresh g now expires_at confidence
  survives-IsFresh g now expires_at confidence h = elim (Bool-cases (is_expired now expires_at)) [
    | inl old ↦ absurd (cc (rw old at h))
    | inr fresh ↦ (fresh, rw fresh at h)
  ]

  -- What a fusion says of its inputs.
  pub record IsFused (g : SignalAggregator F) (now : ℕ) (technical : Option (TechnicalSignal F))
      (sentiment : Option (SentimentSignal F)) (a : AggregatedSignal F) : Type 0 where
    pub some_signal : (is_some a.technical_signal || is_some a.sentiment_signal) ≡ true
    pub technical_fresh :
        (t : TechnicalSignal F)
        → a.technical_signal ≡ some t
        → (technical ≡ some t) × IsFresh g now t.expires_at t.confidence
    pub sentiment_fresh :
        (t : SentimentSignal F)
        → a.sentiment_signal ≡ some t
        → (sentiment ≡ some t) × IsFresh g now t.expires_at t.confidence
    pub counts :
        count_some a.technical_signal + count_some a.sentiment_signal + a.signals_discarded
        ≡ a.total_signals

  valid_technical-IsFresh :
      (g : SignalAggregator F) (now : ℕ) (o : Option (TechnicalSignal F)) (t : TechnicalSignal F)
      → valid_technical g now o ≡ some t
      → (o ≡ some t) × IsFresh g now t.expires_at t.confidence
  unfolding valid_technical
  valid_technical-IsFresh g now none t e = absurd (cc e)
  valid_technical-IsFresh g now (some u) t e =
      elim (Bool-cases (survives g now u.expires_at u.confidence)) [
        | inl alive ↦
            let same : some u ≡ some t = rw alive at e in
            let u_is : u ≡ t = cc in
            (same, rw (sym u_is) (survives-IsFresh g now u.expires_at u.confidence alive))
        | inr dead ↦ absurd (cc (rw dead at e))
      ]

  valid_sentiment-IsFresh :
      (g : SignalAggregator F) (now : ℕ) (o : Option (SentimentSignal F)) (t : SentimentSignal F)
      → valid_sentiment g now o ≡ some t
      → (o ≡ some t) × IsFresh g now t.expires_at t.confidence
  unfolding valid_sentiment
  valid_sentiment-IsFresh g now none t e = absurd (cc e)
  valid_sentiment-IsFresh g now (some u) t e =
      elim (Bool-cases (survives g now u.expires_at u.confidence)) [
        | inl alive ↦
            let same : some u ≡ some t = rw alive at e in
            let u_is : u ≡ t = cc in
            (same, rw (sym u_is) (survives-IsFresh g now u.expires_at u.confidence alive))
        | inr dead ↦ absurd (cc (rw dead at e))
      ]

  -- Nothing is lost when a signal is kept, and one is when it is dropped.
  technical-count :
      (g : SignalAggregator F) (now : ℕ) (o : Option (TechnicalSignal F))
      → count_some (valid_technical g now o) + count_lost o (valid_technical g now o) ≡ count_some o
  unfolding valid_technical
  technical-count g now none = refl
  technical-count g now (some t) = ground arith

  sentiment-count :
      (g : SignalAggregator F) (now : ℕ) (o : Option (SentimentSignal F))
      → count_some (valid_sentiment g now o) + count_lost o (valid_sentiment g now o) ≡ count_some o
  unfolding valid_sentiment
  sentiment-count g now none = refl
  sentiment-count g now (some t) = ground arith

  -- A fusion of valid signals carries them, and its two counters, unchanged.
  record Carries (total discarded : ℕ) (t : Option (TechnicalSignal F))
      (s : Option (SentimentSignal F)) (a : AggregatedSignal F) : Type 0 where
    some_signal : (is_some t || is_some s) ≡ true
    technical : a.technical_signal ≡ t
    sentiment : a.sentiment_signal ≡ s
    totals : (a.total_signals ≡ total) × (a.signals_discarded ≡ discarded)

  fuse_valid-Carries :
      (g : SignalAggregator F) (symbol total discarded : ℕ) (t : Option (TechnicalSignal F))
      (s : Option (SentimentSignal F)) (a : AggregatedSignal F)
      → fuse_valid g symbol total discarded t s ≡ some a
      → Carries total discarded t s a
  unfolding fuse_valid fuse
  fuse_valid-Carries g symbol total discarded none none a e = absurd (cc e)
  fuse_valid-Carries g symbol total discarded (some t) s a e =
      let a_is : fuse g symbol total discarded (some t) s ≡ a = cc in
      rw (sym a_is)
        (record { some_signal = refl; technical = refl; sentiment = refl; totals = (refl, refl) })
  fuse_valid-Carries g symbol total discarded none (some s) a e =
      let a_is : fuse g symbol total discarded none (some s) ≡ a = cc in
      rw (sym a_is)
        (record { some_signal = refl; technical = refl; sentiment = refl; totals = (refl, refl) })

  -- When signals are fused, at least one takes part, each one that does is the input of its kind and
  -- is neither expired nor below the minimum confidence, and every input is used or counted as
  -- discarded.
  pub aggregate-IsFused :
      (g : SignalAggregator F) (now symbol : ℕ) (technical : Option (TechnicalSignal F))
      (sentiment : Option (SentimentSignal F)) (a : AggregatedSignal F)
      → aggregate g now symbol technical sentiment ≡ some a
      → IsFused g now technical sentiment a
  unfolding aggregate
  aggregate-IsFused g now symbol technical sentiment a e =
      let t = valid_technical g now technical in
      let s = valid_sentiment g now sentiment in
      let c =
        fuse_valid-Carries g symbol (count_some technical + count_some sentiment)
          (count_lost technical t + count_lost sentiment s) t s a e in
      let lost_t = technical-count g now technical in
      let lost_s = sentiment-count g now sentiment in
      record {
        some_signal = rw (c.technical, c.sentiment) c.some_signal;
        technical_fresh = λ u is. valid_technical-IsFresh g now technical u (sym c.technical ∙ is);
        sentiment_fresh = λ u is. valid_sentiment-IsFresh g now sentiment u (sym c.sentiment ∙ is);
        counts =
            rw (c.technical, c.sentiment, c.totals.0, c.totals.1) (omega (arith, lost_t, lost_s));
      }
