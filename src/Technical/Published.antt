-- ===== src/Technical/Published.antt =====
-- What the agent of the technical analysis publishes (agents/technical_analysis/agent.py).
use multi_agent_trading_syst.Prelude.{
  ℕ, ◌-◌, ◌*◌, ◌^◌, ◌≤◌, ◌≡◌, refl, sym, ap, ◌∙◌, Bool, true, false, not, Option, none, some, arith,
  ◌==◌, if◌then◌else◌,
}
use multi_agent_trading_syst.Prelude.Dict.{get, put, get-put_self}
use multi_agent_trading_syst.Prelude.Float.{Float, IsOrdered}
use multi_agent_trading_syst.Models.Market.{OhlcvCandle}
use multi_agent_trading_syst.MarketData.Buffer.{CandleBuffer, is_warm}
use multi_agent_trading_syst.Technical.Scoring.{Generated}
use multi_agent_trading_syst.Technical.Generator.{generate}
use multi_agent_trading_syst.Technical.Registry.{find, registry_add}
use multi_agent_trading_syst.Technical.Agent.{
  Setup, TechnicalAnalysisAgent, is_signal_suppressed, within_window, process_candle, signal_from,
  publish_signal, generate_with,
}
use multi_agent_trading_syst.Technical.Emitted.{IsEmitted, generate-IsEmitted}

-- A third of the time to live has passed since the last signal, if there was one.
abbrev pub IsSpaced : ℕ → ℕ → Option ℕ → Type 0
IsSpaced ttl now none = Unit
IsSpaced ttl now (some last) = ttl * 10 ^ 6 ≤ 3 * (now - last)

-- A signal for a candle of the primary timeframe, apart from the last one of its symbol, noted with its
-- time, and emitted from the buffer of the candle.
pub record IsPublished {F : Type 0} ⦃f : Float F⦄ (u : Setup F) (now : ℕ) (c : OhlcvCandle)
    (last : Option ℕ) (s' : TechnicalAnalysisAgent) (g : Generated F) : Type 0 where
  pub primary : c.timeframe ≡ u.primary_timeframe
  pub spaced : IsSpaced u.cfg.signal_ttl_seconds now last
  pub noted : get c.symbol s'.last_signal_at ≡ some now
  pub emitted :
      (b : CandleBuffer) × ((find c.symbol c.timeframe s'.registry ≡ some b)
        × IsEmitted u.cfg now b g)

spaced :
    (ttl now : ℕ) (last : Option ℕ) → within_window ttl now last ≡ false → IsSpaced ttl now last
spaced ttl now none h = tt
spaced ttl now (some last) h = ground (arith, h)

module _ {F : Type 0} ⦃f : Float F⦄ where
  publish_signal-inv :
      (now symbol : ℕ) (s s' : TechnicalAnalysisAgent) (o : Option (Generated F)) (g : Generated F)
      → publish_signal now symbol s o ≡ (some g, s')
      → (o ≡ some g)
        × ((s'.registry ≡ s.registry) × (s'.last_signal_at ≡ put symbol now s.last_signal_at))
  publish_signal-inv now symbol s s' none g h = absurd (ground arith)
  publish_signal-inv now symbol s s' (some x) g h =
      (ap (λ p. p.0) h, (sym (ap (λ p. p.1.registry) h), sym (ap (λ p. p.1.last_signal_at) h)))

  -- Where a guard could have returned without a signal, it did not.
  past :
      (t : Bool) (s s' : TechnicalAnalysisAgent) (x : Option (Generated F) × TechnicalAnalysisAgent)
      (g : Generated F)
      → (if t then (none, s) else x) ≡ (some g, s')
      → (t ≡ false) × (x ≡ (some g, s'))
  past true s s' x g h = absurd (ground arith)
  past false s s' x g h = (refl, h)

  generate_with-rules :
      (u : Setup F) (now : ℕ) (b : CandleBuffer)
      → u.ml_generator ≡ none
      → generate_with u now b u.ml_generator ≡ generate u.cfg u.lib now b
  generate_with-rules u now b h = rw h refl

module _ {F : Type 0} ⦃f : Float F⦄ (o : IsOrdered F) where
  signal_from-IsPublished :
      (u : Setup F) (now : ℕ) (c : OhlcvCandle) (s s' : TechnicalAnalysisAgent) (g : Generated F)
      (found : Option CandleBuffer)
      → u.ml_generator ≡ none
      → find c.symbol c.timeframe s.registry ≡ found
      → signal_from u now c s found ≡ (some g, s')
      → IsPublished u now c (get c.symbol s.last_signal_at) s' g
  unfolding signal_from is_signal_suppressed
  signal_from-IsPublished u now c s s' g none rules at h = absurd (ground arith)
  signal_from-IsPublished u now c s s' g (some b) rules at h =
      let last_step = publish_signal now c.symbol s (generate_with u now b u.ml_generator) in
      let suppressed = is_signal_suppressed u.cfg.signal_ttl_seconds now c.symbol s in
      let third = if suppressed then (none, s) else last_step in
      let second = if not (is_warm b) then (none, s) else third in
      let (on_primary, h1) = past (not (c.timeframe == u.primary_timeframe)) s s' second g h in
      let (warm, h2) = past (not (is_warm b)) s s' third g h1 in
      let (apart, h3) = past suppressed s s' last_step g h2 in
      let (made, (kept, noted)) =
        publish_signal-inv now c.symbol s s' (generate_with u now b u.ml_generator) g h3 in
      record {
        primary = ground (arith, on_primary);
        spaced = spaced u.cfg.signal_ttl_seconds now _ apart;
        noted = rw noted (get-put_self c.symbol now s.last_signal_at);
        emitted = (
          b,
          (
            rw kept at,
            generate-IsEmitted o u.cfg u.lib now b g
                (sym (generate_with-rules u now b rules) ∙ made),
          ),
        );
      }

  -- Without a learned generator, the agent publishes a signal only for a candle of the primary
  -- timeframe and a third of the time to live after the last signal of the symbol, notes its time, and
  -- the signal is emitted from the buffer that the candle went to: it is warm, the price is its last
  -- close, there are two readings or more, the confidence reaches the minimum, and the direction is the
  -- one that the Decision agent reads off the score.
  pub process_candle-IsPublished :
      (u : Setup F) (now : ℕ) (c : OhlcvCandle) (s s' : TechnicalAnalysisAgent) (g : Generated F)
      → u.ml_generator ≡ none
      → process_candle u now c s ≡ (some g, s')
      → IsPublished u now c (get c.symbol s.last_signal_at) s' g
  unfolding process_candle
  process_candle-IsPublished u now c s s' g rules h =
      signal_from-IsPublished u now c (record s { registry = registry_add c s.registry }) s' g _
        rules refl h
