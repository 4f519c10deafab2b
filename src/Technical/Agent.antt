-- ===== src/Technical/Agent.antt =====
-- agents/technical_analysis/agent.py. What is published and cached is returned; the generator that is
-- learned is a parameter.
use multi_agent_trading_syst.Prelude.{
  ℕ, ◌-◌, ◌*◌, ◌^◌, Bool, false, not, Option, none, some, List, [], ◌∷◌, ltb, ◌==◌, if◌then◌else◌,
  length,
}
use multi_agent_trading_syst.Prelude.Dict.{Dict, get, put}
use multi_agent_trading_syst.Prelude.Float.{Float}
use multi_agent_trading_syst.Models.Market.{OhlcvCandle}
use multi_agent_trading_syst.MarketData.Buffer.{CandleBuffer, is_warm}
use multi_agent_trading_syst.Technical.Series.{Libraries}
use multi_agent_trading_syst.Technical.Results.{TechnicalAnalysisSettings}
use multi_agent_trading_syst.Technical.Scoring.{Generated}
use multi_agent_trading_syst.Technical.Generator.{generate}
use multi_agent_trading_syst.Technical.Registry.{
  Registry, find, registry_add, warm_buffers, all_warm,
}

-- `MLSignalGenerator`, which reads a buffer at a time.
pub record Learned (F : Type 0) : Type 0 where
  pub is_loaded : Bool
  pub learned_signal : ℕ → CandleBuffer → Option (Generated F)

pub record Setup (F : Type 0) : Type 0 where
  pub cfg : TechnicalAnalysisSettings F
  pub lib : Libraries F
  pub ml_generator : Option (Learned F)
  pub primary_timeframe : ℕ

pub record TechnicalAnalysisAgent : Type 0 where
  pub registry : Registry
  pub last_signal_at : Dict ℕ

-- A third of the time to live of a signal has not passed since the last one.
abbrev pub within_window : ℕ → ℕ → Option ℕ → Bool
within_window ttl now none = false
within_window ttl now (some last) = ltb (3 * (now - last)) (ttl * 10 ^ 6)

-- `_is_signal_suppressed`
unfoldable pub is_signal_suppressed : ℕ → ℕ → ℕ → TechnicalAnalysisAgent → Bool
is_signal_suppressed ttl now symbol s = within_window ttl now (get symbol s.last_signal_at)

module _ {F : Type 0} ⦃f : Float F⦄ where
  -- The learned generator, where it is loaded, and the rules otherwise.
  abbrev pub generate_with : Setup F → ℕ → CandleBuffer → Option (Learned F) → Option (Generated F)
  generate_with u now b none = generate u.cfg u.lib now b
  generate_with u now b (some l) =
      if l.is_loaded then l.learned_signal now b else generate u.cfg u.lib now b

  abbrev pub publish_signal :
      ℕ
      → ℕ
      → TechnicalAnalysisAgent
      → Option (Generated F)
      → Option (Generated F) × TechnicalAnalysisAgent
  publish_signal now symbol s none = (none, s)
  publish_signal now symbol s (some g) =
      (some g, record s { last_signal_at = put symbol now s.last_signal_at })

  -- The part after the candle is in its buffer.
  unfoldable pub signal_from :
      Setup F
      → ℕ
      → OhlcvCandle
      → TechnicalAnalysisAgent
      → Option CandleBuffer
      → Option (Generated F) × TechnicalAnalysisAgent
  unfolding is_signal_suppressed
  signal_from u now c s none = (none, s)
  signal_from u now c s (some b) =
      if not (c.timeframe == u.primary_timeframe)
      then (none, s)
      else if not (is_warm b)
      then (none, s)
      else if is_signal_suppressed u.cfg.signal_ttl_seconds now c.symbol s
      then (none, s)
      else publish_signal now c.symbol s (generate_with u now b u.ml_generator)

  -- `_process_candle` at the time `now`.
  unfoldable pub process_candle :
      Setup F
      → ℕ
      → OhlcvCandle
      → TechnicalAnalysisAgent
      → Option (Generated F) × TechnicalAnalysisAgent
  unfolding signal_from registry_add
  process_candle u now c s =
      let registry = registry_add c s.registry in
      signal_from u now c (record s { registry = registry }) (find c.symbol c.timeframe registry)

-- `_warmup_from_db` for the candles of one pair.
unfoldable pub warm_up : List OhlcvCandle → TechnicalAnalysisAgent → TechnicalAnalysisAgent
unfolding registry_add
warm_up [] s = s
warm_up (c ∷ cs) s = warm_up cs (record s { registry = registry_add c s.registry })

pub record TechnicalHealth : Type 0 where
  pub buffer_count : ℕ
  pub warm_count : ℕ
  pub is_all_warm : Bool

-- `health_extra`, without the view of each buffer.
abbrev pub health_extra : TechnicalAnalysisAgent → TechnicalHealth
health_extra s = record {
  buffer_count = length s.registry;
  warm_count = length (warm_buffers s.registry);
  is_all_warm = all_warm s.registry;
}
