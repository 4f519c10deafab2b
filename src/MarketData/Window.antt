-- ===== src/MarketData/Window.antt =====
-- The rolling window of a candle buffer (agents/technical_analysis/candle_buffer.py) beside the log of
-- every candle that it accepted.
use multi_agent_trading_syst.Prelude.{
  ℕ, ◌≤◌, ◌<◌, ◌-◌, ◌≡◌, refl, false, Option, none, some, List, [], ◌∷◌, ◌++◌, if◌then◌else◌, arith,
  Bool-cases, inl, inr, length,
}
use multi_agent_trading_syst.Prelude.Deque.{
  last, take_last, length-push, last-drop, push-take_last, Ascends, Follows, Ascends-push,
}
use multi_agent_trading_syst.Models.Market.{OhlcvCandle}
use multi_agent_trading_syst.MarketData.Buffer.{CandleBuffer, add, add_each, is_old}

-- Timestamps strictly increase from the oldest candle to the newest, and the capacity is respected.
pub record IsWindow (b : CandleBuffer) : Type 0 where
  pub ascends : Ascends (λ c. c.timestamp) b.candles
  pub bounded : length b.candles ≤ b.capacity

follows :
    (c : OhlcvCandle) (o : Option OhlcvCandle) → is_old c o ≡ false → Follows (λ d. d.timestamp) o c
follows c none h = tt
follows c (some l) h = ground arith

add-IsWindow : (c : OhlcvCandle) (b : CandleBuffer) → IsWindow b → IsWindow (add c b)
unfolding add
add-IsWindow c b h = elim (Bool-cases (is_old c (last b.candles))) [
  | inl old ↦ rw old h
  | inr new ↦ rw new (record {
    ascends =
        Ascends-push (λ d. d.timestamp) b.capacity c b.candles h.ascends
          (follows c (last b.candles) new);
    bounded = length-push b.capacity c b.candles h.bounded;
  })
]

-- Whatever candles arrive, in whatever order, the buffer holds strictly increasing timestamps and
-- never more candles than its capacity.
pub add_each-IsWindow :
    (cs : List OhlcvCandle) (b : CandleBuffer) → IsWindow b → IsWindow (add_each cs b)
unfolding add_each
add_each-IsWindow [] b h = h
add_each-IsWindow (c ∷ cs) b h = add_each-IsWindow cs (add c b) (add-IsWindow c b h)

-- The log without a limit: a candle is accepted if it is newer than the last one.
abbrev pub log_add : OhlcvCandle → List OhlcvCandle → List OhlcvCandle
log_add c log = if is_old c (last log) then log else log ++ (c ∷ [])

abbrev pub log_each : List OhlcvCandle → List OhlcvCandle → List OhlcvCandle
log_each [] log = log
log_each (c ∷ cs) log = log_each cs (log_add c log)

last-take_last : (n : ℕ) (log : List OhlcvCandle) → 0 < n → last (take_last n log) ≡ last log
last-take_last n [] h = ground arith
last-take_last n (c ∷ cs) h = last-drop (length (c ∷ cs) - n) (c ∷ cs) (omega (arith, h))

add-refines :
    (c : OhlcvCandle) (b : CandleBuffer) (log : List OhlcvCandle)
    → 0 < b.capacity
    → b.candles ≡ take_last b.capacity log
    → ((add c b).candles ≡ take_last b.capacity (log_add c log)) × ((add c b).capacity ≡ b.capacity)
unfolding add
add-refines c b log h e =
    let same : last b.candles ≡ last log = rw e (last-take_last b.capacity log h) in
    elim (Bool-cases (is_old c (last log))) [
      | inl old ↦ rw (same, old) (e, refl)
      | inr new ↦ rw (same, new, e) (push-take_last b.capacity c log, refl)
    ]

-- The buffer is the end of the log: after any arrivals it holds the newest candles that were
-- accepted, up to its capacity, and accepts and refuses exactly what an unlimited log would.
pub add_each-refines :
    (cs : List OhlcvCandle) (b : CandleBuffer) (log : List OhlcvCandle)
    → 0 < b.capacity
    → b.candles ≡ take_last b.capacity log
    → (add_each cs b).candles ≡ take_last b.capacity (log_each cs log)
unfolding add_each
add_each-refines [] b log h e = e
add_each-refines (c ∷ cs) b log h e =
    let (kept, same) = add-refines c b log h e in
    rw same at (add_each-refines cs (add c b) (log_add c log) (rw same h) (rw same kept))
