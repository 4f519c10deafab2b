-- ===== src/MarketData/Buffer.antt =====
-- agents/technical_analysis/candle_buffer.py
use multi_agent_trading_syst.Prelude.{
  ℕ, ◌-◌, Bool, false, Option, none, some, List, [], ◌∷◌, leb, ◌==◌, if◌then◌else◌, length,
}
use multi_agent_trading_syst.Prelude.Decimal.{Decimal}
use multi_agent_trading_syst.Prelude.Deque.{push, last, take_last}
use multi_agent_trading_syst.Models.Market.{OhlcvCandle}
use multi_agent_trading_syst.MarketData.Sorting.{sorted}

abbrev pub max_buffer_size : ℕ
max_buffer_size = 500

abbrev pub min_warmup_candles : ℕ
min_warmup_candles = 50

-- The oldest candle first.
pub record CandleBuffer : Type 0 where
  pub symbol : ℕ
  pub timeframe : ℕ
  pub capacity : ℕ
  pub candles : List OhlcvCandle

abbrev pub new_buffer : ℕ → ℕ → ℕ → CandleBuffer
new_buffer symbol timeframe capacity = record {
  symbol = symbol;
  timeframe = timeframe;
  capacity = capacity;
  candles = [];
}

-- Whether a candle is refused as old or repeated.
abbrev pub is_old : OhlcvCandle → Option OhlcvCandle → Bool
is_old c none = false
is_old c (some l) = leb c.timestamp l.timestamp

-- `add`
unfoldable pub add : OhlcvCandle → CandleBuffer → CandleBuffer
unfolding push
add c b =
    if is_old c (last b.candles) then b else record b { candles = push b.capacity c b.candles }

-- One `add` after the other.
unfoldable pub add_each : List OhlcvCandle → CandleBuffer → CandleBuffer
unfolding add
add_each [] b = b
add_each (c ∷ cs) b = add_each cs (add c b)

-- `add_many`
unfoldable pub add_many : List OhlcvCandle → CandleBuffer → CandleBuffer
unfolding add_each sorted
add_many cs b = add_each (sorted cs) b

abbrev pub size : CandleBuffer → ℕ
size b = length b.candles

abbrev pub is_warm : CandleBuffer → Bool
is_warm b = leb min_warmup_candles (size b)

-- `latest_candle`
abbrev pub latest_candle : CandleBuffer → Option OhlcvCandle
latest_candle b = last b.candles

-- `data_age_seconds`, in microseconds at the time `now`.
abbrev pub age_of : ℕ → Option OhlcvCandle → Option ℕ
age_of now none = none
age_of now (some c) = some (now - c.received_at)

abbrev pub data_age : ℕ → CandleBuffer → Option ℕ
data_age now b = age_of now (latest_candle b)

abbrev pub closes_of : List OhlcvCandle → List Decimal
closes_of [] = []
closes_of (c ∷ cs) = c.close ∷ closes_of cs

-- `last_n_closes`; the slice `[-0:]` is the whole list.
unfoldable pub last_n_closes : ℕ → CandleBuffer → List Decimal
last_n_closes n b = closes_of (if n == 0 then b.candles else take_last n b.candles)
