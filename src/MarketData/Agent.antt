-- ===== src/MarketData/Agent.antt =====
-- agents/market_data/agent.py: a round of a polling loop, the warm-up, and the freshness of the data.
-- What the data source answers is an argument.
use multi_agent_trading_syst.Prelude.{
  ℕ, ◌+◌, ◌-◌, ◌*◌, ◌^◌, Bool, false, Option, none, some, List, ◌++◌, ltb, if◌then◌else◌,
}
use multi_agent_trading_syst.Prelude.Dict.{get}
use multi_agent_trading_syst.Models.Market.{OhlcvCandle}
use multi_agent_trading_syst.Lifecycle.Base.{BaseAgent, record_success, handle_error}
use multi_agent_trading_syst.MarketData.Normalizer.{
  OhlcvNormaliser, closed_candles, process_batch, get_last_candle, timeframe_seconds, or_minute,
}

-- What a fetch gives: candles, an ExchangeConnectionError, or another exception.
pub data Fetched : Type 0 where
  candles : List OhlcvCandle → Fetched
  connection_lost : (text : ℕ) → Fetched
  fetch_failed : (text : ℕ) → Fetched

pub record MarketDataAgent : Type 0 where
  pub base : BaseAgent
  pub normaliser : OhlcvNormaliser
  -- What was published and stored, in this order.
  pub published : List OhlcvCandle

-- The shorter of the configured interval and the timeframe, in seconds.
abbrev pub effective_interval : ℕ → ℕ → ℕ
effective_interval interval timeframe =
    let expected = or_minute (get timeframe timeframe_seconds) in
    if ltb expected interval then expected else interval

abbrev pub accept : OhlcvNormaliser × List OhlcvCandle → MarketDataAgent → MarketDataAgent
accept (n, clean) s = record s { normaliser = n; published = s.published ++ clean }

-- One round of `_poll_ohlcv` at the time `now`, with the seconds that it sleeps afterwards.
unfoldable pub poll_ohlcv : ℕ → ℕ → Fetched → MarketDataAgent → MarketDataAgent × ℕ
unfolding process_batch closed_candles record_success handle_error
poll_ohlcv now interval (candles cs) s =
    let (clean, n) = process_batch (closed_candles now cs) s.normaliser in
    let s' = accept (n, clean) s in (record s' { base = record_success s.base }, interval)
poll_ohlcv now interval (connection_lost text) s =
    (record s { base = handle_error text s.base }, interval * 2)
poll_ohlcv now interval (fetch_failed text) s =
    (record s { base = handle_error text s.base }, interval)

-- `_warmup_history` for one pair: a failure is only logged.
unfoldable pub warm_up_pair : ℕ → Fetched → MarketDataAgent → MarketDataAgent
unfolding process_batch closed_candles
warm_up_pair now (candles cs) s =
    let (clean, n) = process_batch (closed_candles now cs) s.normaliser in accept (n, clean) s
warm_up_pair now (connection_lost text) s = s
warm_up_pair now (fetch_failed text) s = s

abbrev since_close : ℕ → ℕ → Option OhlcvCandle → Option ℕ
since_close now timeframe none = none
since_close now timeframe (some c) =
    some (now - (c.timestamp + or_minute (get timeframe timeframe_seconds) * 10 ^ 6))

-- `_candle_age_seconds`, in microseconds.
unfoldable pub candle_age : ℕ → ℕ → ℕ → OhlcvNormaliser → Option ℕ
unfolding get_last_candle
candle_age now symbol timeframe n = since_close now timeframe (get_last_candle symbol timeframe n)

abbrev over : ℕ → Option ℕ → Bool
over limit none = false
over limit (some a) = ltb limit a

pub record Freshness : Type 0 where
  pub age : Option ℕ
  pub is_stale : Bool

-- The entry of `health_extra` for a symbol, on the primary timeframe.
unfoldable pub freshness : ℕ → ℕ → ℕ → ℕ → OhlcvNormaliser → Freshness
unfolding candle_age
freshness now poll_interval primary symbol n =
    let a = candle_age now symbol primary n in
    record {
      age = a;
      is_stale = over ((or_minute (get primary timeframe_seconds) + poll_interval) * 10 ^ 6) a;
    }
