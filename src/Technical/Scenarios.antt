-- ===== src/Technical/Scenarios.antt =====
-- The agent of the technical analysis on a concrete candle.
use multi_agent_trading_syst.Prelude.{ℕ, ◌*◌, ◌≡◌, refl, none, some, [], ◌∷◌}
use multi_agent_trading_syst.Prelude.Int.{pos, ◌+ℤ◌, ◌-ℤ◌}
use multi_agent_trading_syst.Prelude.Dict.{get}
use multi_agent_trading_syst.Prelude.Fixed.{
  Fixed, fixed_float, one, Fixed-IsOrdered, div_fixed, mul_fixed, sqrt_fixed, fixed_of_decimal,
}
use multi_agent_trading_syst.Models.Market.{OhlcvCandle}
use multi_agent_trading_syst.MarketData.Buffer.{CandleBuffer, add}
use multi_agent_trading_syst.Technical.Scoring.{Generated, tally}
use multi_agent_trading_syst.Technical.Generator.{build_signal, compute_all, generate}
use multi_agent_trading_syst.Technical.Agent.{Setup, TechnicalAnalysisAgent, process_candle}
use multi_agent_trading_syst.Technical.Published.{IsPublished, process_candle-IsPublished}
use multi_agent_trading_syst.Technical.Tests.{bar, buffer, cfg, with_talib}

abbrev setup : Setup Fixed
setup = record { cfg = cfg; lib = with_talib; ml_generator = none; primary_timeframe = 1 }

-- A candle for a buffer of fifty; the last signal was a hundred seconds ago, a third of the time to live.
abbrev next : OhlcvCandle
next = record bar { timestamp = 1 }

abbrev before : TechnicalAnalysisAgent
before = record { registry = buffer ∷ []; last_signal_at = (1, 0) ∷ [] }

abbrev now : ℕ
now = 100_000_000

abbrev filled : CandleBuffer
unfolding add
filled = add next buffer

abbrev published : Generated Fixed
published =
    build_signal cfg now filled (pos (100 * one)) (compute_all cfg with_talib filled)
      (tally (compute_all cfg with_talib filled))

abbrev after : TechnicalAnalysisAgent
after = record { registry = filled ∷ []; last_signal_at = (1, now) ∷ [] }

is_published : process_candle setup now next before ≡ (some published, after)
unfolding process_candle filled generate div_fixed ◌+ℤ◌ fixed_of_decimal mul_fixed ◌-ℤ◌ sqrt_fixed
is_published = refl

process_candle-IsPublished_example :
    IsPublished setup now next (get 1 before.last_signal_at) after published
process_candle-IsPublished_example =
    process_candle-IsPublished Fixed-IsOrdered setup now next before after published refl
      is_published
