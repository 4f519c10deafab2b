-- ===== src/Technical/Registry.antt =====
-- agents/technical_analysis/candle_buffer.py: `CandleBufferRegistry`, in the order of creation.
use multi_agent_trading_syst.Prelude.{
  ℕ, Bool, true, false, ◌&&◌, Option, none, some, List, [], ◌∷◌, ◌++◌, ◌==◌, if◌then◌else◌, is_some,
}
use multi_agent_trading_syst.Models.Market.{OhlcvCandle}
use multi_agent_trading_syst.MarketData.Buffer.{
  CandleBuffer, new_buffer, max_buffer_size, add, is_warm,
}

-- The buffers; the key of a buffer is its symbol with its timeframe.
abbrev pub Registry : Type 0
Registry = List CandleBuffer

abbrev pub has_pair : ℕ → ℕ → CandleBuffer → Bool
has_pair symbol timeframe b = b.symbol == symbol && b.timeframe == timeframe

-- `get`
abbrev pub find : ℕ → ℕ → Registry → Option CandleBuffer
find symbol timeframe [] = none
find symbol timeframe (b ∷ bs) =
    if has_pair symbol timeframe b then some b else find symbol timeframe bs

-- `get_or_create`, the registry with the buffer in it.
unfoldable pub ensure : ℕ → ℕ → Registry → Registry
ensure symbol timeframe bs =
    if is_some (find symbol timeframe bs)
    then bs
    else bs ++ (new_buffer symbol timeframe max_buffer_size ∷ [])

abbrev pub add_to : OhlcvCandle → Registry → Registry
unfolding add
add_to c [] = []
add_to c (b ∷ bs) = if has_pair c.symbol c.timeframe b then add c b ∷ bs else b ∷ add_to c bs

-- `add`
unfoldable pub registry_add : OhlcvCandle → Registry → Registry
unfolding ensure add_to
registry_add c bs = add_to c (ensure c.symbol c.timeframe bs)

-- `warm_buffers`
abbrev pub warm_buffers : Registry → Registry
warm_buffers [] = []
warm_buffers (b ∷ bs) = if is_warm b then b ∷ warm_buffers bs else warm_buffers bs

abbrev pub each_warm : Registry → Bool
each_warm [] = true
each_warm (b ∷ bs) = is_warm b && each_warm bs

-- `all_warm`: an empty registry is not warm.
abbrev pub all_warm : Registry → Bool
all_warm [] = false
all_warm (b ∷ bs) = each_warm (b ∷ bs)
