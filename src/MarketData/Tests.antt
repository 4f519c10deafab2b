-- ===== src/MarketData/Tests.antt =====
-- A batch of candles in the wrong order, with a repetition and a gap.
use multi_agent_trading_syst.Prelude.{
  ℕ, ◌*◌, ◌^◌, ◌+◌, ◌≡◌, refl, true, List, [], ◌∷◌, length, arith,
}
use multi_agent_trading_syst.Prelude.Int.{pos}
use multi_agent_trading_syst.Prelude.Decimal.{unit}
use multi_agent_trading_syst.Prelude.Deque.{Ascends, take_last}
use multi_agent_trading_syst.Models.Market.{OhlcvCandle}
use multi_agent_trading_syst.MarketData.Normalizer.{OhlcvNormaliser, no_series, process_batch}
use multi_agent_trading_syst.MarketData.Order.{Counts, process_batch-Ascends}
use multi_agent_trading_syst.MarketData.Buffer.{CandleBuffer, new_buffer, add_each}
use multi_agent_trading_syst.MarketData.Window.{
  IsWindow, add_each-IsWindow, add_each-refines, log_each,
}
use multi_agent_trading_syst.MarketData.Feed.{batch-fills_buffer}
use multi_agent_trading_syst.MarketData.Streams.{
  World, raised, stream_with_reconnect, new_loop, new_health,
}
use multi_agent_trading_syst.MarketData.Reconnect.{Ends, stream_with_reconnect-Ends}
use multi_agent_trading_syst.Prelude.Fixed.{fixed_float, Fixed-IsOrdered, one}

abbrev minute : ℕ
minute = 60 * 10 ^ 6

-- The candle of a minute, on symbol 1.
abbrev candle : ℕ → OhlcvCandle
candle k = record {
  symbol = 1;
  timeframe = 0;
  timestamp = k * minute;
  open_price = pos (100 * unit);
  high = pos (101 * unit);
  low = pos (99 * unit);
  close = pos (100 * unit);
  volume = pos (5 * unit);
  received_at = k * minute;
}

abbrev later : List OhlcvCandle
later = candle 2 ∷ candle 3 ∷ candle 7 ∷ []

abbrev empty : OhlcvNormaliser
empty = λ symbol timeframe. no_series

-- Sorted, without the repetition.
cleans : (process_batch (candle 3 ∷ later) empty).0 ≡ candle 2 ∷ candle 3 ∷ candle 7 ∷ []
unfolding process_batch
cleans = refl

process_batch-Ascends_example :
    let (clean, n') = process_batch (candle 3 ∷ later) empty in
    Ascends (λ d. d.timestamp) clean
    × Counts no_series.stats (n' 1 0).stats 4 (length clean)
    × ((n' 1 0).stats.received ≡ 0 + 4)
process_batch-Ascends_example = process_batch-Ascends (candle 3) later empty

abbrev small : CandleBuffer
small = new_buffer 1 0 2

add_each-IsWindow_example : IsWindow (add_each (candle 3 ∷ later) small)
add_each-IsWindow_example =
    add_each-IsWindow (candle 3 ∷ later) small (record { ascends = tt; bounded = omega arith })

add_each-refines_example :
    (add_each (candle 3 ∷ later) small).candles ≡ take_last 2 (log_each (candle 3 ∷ later) [])
add_each-refines_example = add_each-refines (candle 3 ∷ later) small [] (omega arith) refl

batch-fills_buffer_example :
    let clean = (process_batch (candle 3 ∷ later) empty).0 in
    (add_each clean (new_buffer 1 0 2)).candles ≡ take_last 2 clean
batch-fills_buffer_example = batch-fills_buffer (candle 3) later empty 1 0 2 (omega arith)

-- A stream that fails whenever it is opened, with two reconnections.
abbrev failing : World
failing = record { running = λ i. true; ending = λ i. raised }

stream_with_reconnect-Ends_example :
    Ends 2 (stream_with_reconnect 3 2 (pos (2 * one)) failing (new_loop new_health))
stream_with_reconnect-Ends_example =
    stream_with_reconnect-Ends Fixed-IsOrdered 2 (pos (2 * one)) failing new_health
