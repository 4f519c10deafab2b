-- ===== src/Models/Market.antt =====
-- core/models/market.py: the candle.
use multi_agent_trading_syst.Prelude.{ℕ, Option, none, some, ◌||◌, if◌then◌else◌}
use multi_agent_trading_syst.Prelude.Int.{pos, ltb_ℤ}
use multi_agent_trading_syst.Prelude.Decimal.{Decimal}

pub record OhlcvCandle : Type 0 where
  pub symbol : ℕ
  pub timeframe : ℕ
  pub timestamp : ℕ
  pub open_price : Decimal
  pub high : Decimal
  pub low : Decimal
  pub close : Decimal
  pub volume : Decimal
  pub received_at : ℕ

-- `validate_ohlcv_consistency`: `none` is the ValueError that keeps the candle from being built.
pub validate_ohlcv_consistency : OhlcvCandle → Option OhlcvCandle
validate_ohlcv_consistency c =
    if ltb_ℤ c.high c.low
    then none
    else if ltb_ℤ c.high c.open_price || ltb_ℤ c.high c.close
    then none
    else if ltb_ℤ c.open_price c.low || ltb_ℤ c.close c.low
    then none
    else if ltb_ℤ c.volume (pos 0)
    then none
    else some c
