-- ===== src/MarketData/Feed.antt =====
-- From the normaliser to a candle buffer (agents/market_data/normalizer.py,
-- agents/technical_analysis/candle_buffer.py).
use multi_agent_trading_syst.Prelude.{
  ℕ, zero, suc, ◌-◌, ◌<◌, ◌≡◌, refl, sym, ◌∙◌, false, Option, none, some, List, [], ◌∷◌, ◌++◌,
  arith,
}
use multi_agent_trading_syst.Prelude.Deque.{
  last, drop, take_last, last-append, Ascends, Below, Follows,
}
use multi_agent_trading_syst.Models.Market.{OhlcvCandle}
use multi_agent_trading_syst.MarketData.Normalizer.{OhlcvNormaliser, process_batch}
use multi_agent_trading_syst.MarketData.Order.{process_batch-Ascends}
use multi_agent_trading_syst.MarketData.Buffer.{add_each, is_old, new_buffer}
use multi_agent_trading_syst.MarketData.Window.{log_add, log_each, add_each-refines}

new-is_old :
    (c : OhlcvCandle) (o : Option OhlcvCandle) → Follows (λ d. d.timestamp) o c → is_old c o ≡ false
new-is_old c none h = refl
new-is_old c (some l) h = ground arith

append_one :
    (log cs : List OhlcvCandle) (c : OhlcvCandle) → (log ++ (c ∷ [])) ++ cs ≡ log ++ (c ∷ cs)
append_one [] cs c = refl
append_one (d ∷ log) cs c = rw (append_one log cs c) refl

append_none : (log : List OhlcvCandle) → log ++ [] ≡ log
append_none [] = refl
append_none (d ∷ log) = rw (append_none log) refl

-- The first candle of a list, if any, follows the last of a log.
abbrev Continues : Option OhlcvCandle → List OhlcvCandle → Type 0
Continues o [] = Unit
Continues o (c ∷ cs) = Follows (λ d. d.timestamp) o c

Continues-next :
    (c : OhlcvCandle) (cs : List OhlcvCandle)
    → Below (λ d. d.timestamp) c cs
    → Continues (some c) cs
Continues-next c [] h = tt
Continues-next c (d ∷ ds) h = h

log_each-all :
    (cs log : List OhlcvCandle)
    → Ascends (λ c. c.timestamp) cs
    → Continues (last log) cs
    → log_each cs log ≡ log ++ cs
log_each-all [] log h k = sym (append_none log)
log_each-all (c ∷ cs) log (below, rest) k =
    let taken : log_add c log ≡ log ++ (c ∷ []) = rw (new-is_old c (last log) k) refl in
    let more : Continues (last (log ++ (c ∷ []))) cs =
      rw (last-append c log) (Continues-next c cs below) in
    rw taken (log_each-all cs (log ++ (c ∷ [])) rest more ∙ append_one log cs c)

drop-none : (n : ℕ) → drop {A = OhlcvCandle} n [] ≡ []
drop-none zero = refl
drop-none (suc n) = refl

-- A buffer takes everything that the normaliser lets through: fed with the outcome of a batch, a new
-- buffer holds all of it, or its newest candles once the capacity is exceeded.
pub batch-fills_buffer :
    (c : OhlcvCandle) (cs : List OhlcvCandle) (n : OhlcvNormaliser) (symbol timeframe capacity : ℕ)
    → 0 < capacity
    → let clean = (process_batch (c ∷ cs) n).0 in
      (add_each clean (new_buffer symbol timeframe capacity)).candles ≡ take_last capacity clean
batch-fills_buffer c cs n symbol timeframe capacity h =
    let clean = (process_batch (c ∷ cs) n).0 in
    let ascends = (process_batch-Ascends c cs n).0 in
    rw (log_each-all clean [] ascends (starts clean)) at (
      add_each-refines clean (new_buffer symbol timeframe capacity) [] h
        (sym (drop-none (0 - capacity))))
  where
    starts : (ds : List OhlcvCandle) → Continues none ds
    starts [] = tt
    starts (d ∷ ds) = tt
