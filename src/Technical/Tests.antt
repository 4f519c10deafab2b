-- ===== src/Technical/Tests.antt =====
-- The technical analysis on concrete candles: runs, and the theorems at inputs that meet their
-- hypotheses.
use multi_agent_trading_syst.Prelude.{◌*◌, ◌^◌, ◌≡◌, refl, none, some, List, [], ◌∷◌, length, map}
use multi_agent_trading_syst.Prelude.Int.{pos, ◌+ℤ◌, ◌-ℤ◌, ◌*ℤ◌}
use multi_agent_trading_syst.Prelude.Decimal.{unit, half_even, half_even_ℤ}
use multi_agent_trading_syst.Prelude.Fixed.{
  Fixed, fixed_float, one, div_fixed, mul_fixed, sqrt_fixed, fixed_of_decimal,
}
use multi_agent_trading_syst.Models.Market.{OhlcvCandle}
use multi_agent_trading_syst.Models.Trade.{OrderSide, TradeProposal}
use multi_agent_trading_syst.MarketData.Buffer.{CandleBuffer}
use multi_agent_trading_syst.Samples.{proposal, aggregated}
use multi_agent_trading_syst.Risk.Sizer.{get_stop_loss_pct}
use multi_agent_trading_syst.Technical.Series.{
  Numpy, Talib, Libraries, computed, replicate, validate_length,
}
use multi_agent_trading_syst.Technical.Results.{TechnicalAnalysisSettings, AtrResult}
use multi_agent_trading_syst.Technical.Fallback.{ema_numpy, ema_rest, ema_seeded}
use multi_agent_trading_syst.Technical.Oscillators.{compute_rsi}
use multi_agent_trading_syst.Technical.Trend.{compute_atr, atr_result}
use multi_agent_trading_syst.Technical.Scoring.{Generated, tally, sum_onto}
use multi_agent_trading_syst.Technical.Generator.{generate, build_signal, compute_all, floats}
use multi_agent_trading_syst.Technical.Warmup.{outcome_of, RsiOutcome, compute_rsi-fallback}
use multi_agent_trading_syst.Technical.Emitted.{generate-stop}

-- The mean and the standard deviation as NumPy documents them.
abbrev mean : List Fixed → Fixed
mean xs = fixed_float.div (sum_onto (pos 0) xs) (pos (length xs * one))

abbrev pub numpy : Numpy Fixed
numpy = record {
  mean = mean;
  std = λ xs. fixed_float.sqrt (
      mean (
        map (λ x. fixed_float.mul (fixed_float.sub x (mean xs)) (fixed_float.sub x (mean xs))) xs));
}

abbrev lib : Libraries Fixed
lib = record { talib = none; numpy = numpy }

-- The configured periods; every confidence is enough.
abbrev pub cfg : TechnicalAnalysisSettings Fixed
cfg = record {
  rsi_period = 14;
  rsi_overbought = pos (70 * one);
  rsi_oversold = pos (30 * one);
  macd_fast = 12;
  macd_slow = 26;
  macd_signal = 9;
  bb_period = 20;
  bb_std_dev = pos (2 * one);
  ema_short = 9;
  ema_long = 21;
  min_signal_confidence = pos 0;
  signal_ttl_seconds = 300;
}

-- A bar from 99.50 to 100.50 dollars that closes at 100: the range is one percent of the price.
abbrev pub bar : OhlcvCandle
bar = record {
  symbol = 1;
  timeframe = 1;
  timestamp = 0;
  open_price = pos (100 * unit);
  high = pos (201 * 5 * 10 ^ 23);
  low = pos (199 * 5 * 10 ^ 23);
  close = pos (100 * unit);
  volume = pos unit;
  received_at = 0;
}

abbrev pub buffer : CandleBuffer
buffer = record { symbol = 1; timeframe = 1; capacity = 500; candles = replicate 50 bar }

abbrev atr_here : AtrResult Fixed
unfolding atr_result div_fixed mul_fixed half_even_ℤ half_even ◌*ℤ◌
atr_here = atr_result 14 (pos (100 * one)) (pos one)

atr_one_percent : atr_here.as_pct_of_price ≡ pos one
unfolding atr_here
atr_one_percent = refl

ema_fallback :
    ema_numpy numpy (some (pos (1 * one)) ∷ some (pos (3 * one)) ∷ some (pos (5 * one)) ∷ []) 3
    ≡ none ∷ none ∷ some (pos (3 * one)) ∷ []
unfolding ema_numpy ema_seeded ema_rest div_fixed half_even_ℤ half_even ◌+ℤ◌ ◌*ℤ◌
ema_fallback = refl

compute_rsi-fallback_example :
    outcome_of (compute_rsi cfg lib none (replicate 15 (pos one))) ≡ RsiOutcome.refused_nan
compute_rsi-fallback_example = compute_rsi-fallback cfg lib none (replicate 15 (pos one)) refl

-- TA-Lib as constant series: an oversold RSI that rises, a rising histogram, bands of two dollars,
-- the averages of an uptrend and a range of one dollar.
abbrev talib : Talib Fixed
talib = record {
  rsi = λ xs n. some (pos (20 * one)) ∷ some (pos (25 * one)) ∷ [];
  macd = λ xs fast slow signal. record {
    line = some (pos (3 * one)) ∷ [];
    signal = some (pos (2 * one)) ∷ [];
    histogram = some (pos one) ∷ [];
  };
  bbands = λ xs n std.
      some (record { upper = pos (101 * one); middle = pos (100 * one); lower = pos (99 * one) })
      ∷ [];
  ema = λ xs n. some (pos (100 * one)) ∷ some (pos (100 * one)) ∷ [];
  atr = λ xs ys zs n. some (pos one) ∷ [];
}

abbrev pub with_talib : Libraries Fixed
with_talib = record { talib = some talib; numpy = numpy }

abbrev emitted : Generated Fixed
emitted =
    build_signal cfg 0 buffer (pos (100 * one)) (compute_all cfg with_talib buffer)
      (tally (compute_all cfg with_talib buffer))

is_emitted : generate cfg with_talib 0 buffer ≡ some emitted
unfolding generate div_fixed ◌+ℤ◌ fixed_of_decimal mul_fixed ◌-ℤ◌ sqrt_fixed
is_emitted = refl

abbrev carrying : TradeProposal Fixed
carrying = record (proposal OrderSide.buy) {
  signal = record aggregated { technical_signal = some emitted.signal };
}

computes_atr :
    compute_atr with_talib 14
      (floats (λ c. c.high) buffer)
      (floats (λ c. c.low) buffer)
      (floats (λ c. c.close) buffer)
    ≡ computed atr_here
unfolding compute_atr validate_length atr_here fixed_of_decimal
computes_atr = refl

-- A range of one percent of the price gives a stop of 1.5, which is 150%.
generate-stop_example : get_stop_loss_pct carrying ≡ pos (15 * 10 ^ 11)
unfolding mul_fixed div_fixed half_even half_even_ℤ ◌*ℤ◌ atr_here
generate-stop_example =
    generate-stop cfg with_talib 0 buffer emitted atr_here carrying is_emitted refl computes_atr
      refl refl
