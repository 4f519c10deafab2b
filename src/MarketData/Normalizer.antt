-- ===== src/MarketData/Normalizer.antt =====
-- agents/market_data/normalizer.py. The dicts `_seen`, `_last` and `_stats` share their keys, the
-- pairs of a symbol and a timeframe; here one map gives all that is kept for a pair.
use multi_agent_trading_syst.Prelude.{
  ℕ, ◌+◌, ◌-◌, ◌*◌, ◌^◌, Bool, true, false, Option, none, some, List, [], ◌∷◌, ltb, leb, ◌==◌,
  if◌then◌else◌, length, ◌&&◌, ◌||◌,
}
use multi_agent_trading_syst.Prelude.Deque.{push}
use multi_agent_trading_syst.Prelude.Dict.{Dict, get}
use multi_agent_trading_syst.Models.Market.{OhlcvCandle}
use multi_agent_trading_syst.MarketData.Sorting.{sorted}

-- `TIMEFRAME_SECONDS`, from "1m" to "1w"; a text that is not there is any other number.
abbrev pub timeframe_seconds : Dict ℕ
timeframe_seconds =
    (0, 60)
    ∷ (1, 180)
    ∷ (2, 300)
    ∷ (3, 900)
    ∷ (4, 1800)
    ∷ (5, 3600)
    ∷ (6, 7200)
    ∷ (7, 14400)
    ∷ (8, 21600)
    ∷ (9, 43200)
    ∷ (10, 86400)
    ∷ (11, 604800)
    ∷ []

abbrev pub dedup_buffer_size : ℕ
dedup_buffer_size = 200

-- A candle is closed once its interval is over; one with an unknown timeframe always counts.
abbrev pub is_closed : ℕ → Option ℕ → OhlcvCandle → Bool
is_closed now none c = true
is_closed now (some seconds) c = leb (c.timestamp + seconds * 10 ^ 6) now

-- `closed_candles`, at the time `now`.
unfoldable pub closed_candles : ℕ → List OhlcvCandle → List OhlcvCandle
closed_candles now [] = []
closed_candles now (c ∷ cs) =
    let rest = closed_candles now cs in
    if is_closed now (get c.timeframe timeframe_seconds) c then c ∷ rest else rest

pub record Stats : Type 0 where
  pub received : ℕ
  pub duplicates : ℕ
  pub gaps : ℕ
  pub published : ℕ

-- What the normaliser keeps for one symbol and timeframe.
pub record Series : Type 0 where
  pub seen : List ℕ
  pub last_candle : Option OhlcvCandle
  pub stats : Stats

abbrev pub no_series : Series
no_series = record {
  seen = [];
  last_candle = none;
  stats = record { received = 0; duplicates = 0; gaps = 0; published = 0 };
}

-- `x in deque`
abbrev pub mem : ℕ → List ℕ → Bool
mem t [] = false
mem t (u ∷ us) = t == u || mem t us

abbrev pub or_minute : Option ℕ → ℕ
or_minute none = 60
or_minute (some seconds) = seconds

-- `_check_gap`: more than one and a half intervals after the last candle.
unfoldable pub check_gap : ℕ → OhlcvCandle → Option OhlcvCandle → Stats → Stats
check_gap timeframe c none st = st
check_gap timeframe c (some l) st =
    let expected = or_minute (get timeframe timeframe_seconds) in
    if ltb (3 * expected * 10 ^ 6) (2 * (c.timestamp - l.timestamp))
    then record st { gaps = st.gaps + 1 }
    else st

-- A candle whose timestamp is new: checked for a gap, recorded, and counted.
unfoldable pub admit : ℕ → OhlcvCandle → Series → Series
unfolding check_gap push
admit timeframe c s =
    let st = check_gap timeframe c s.last_candle s.stats in
    record {
      seen = push dedup_buffer_size c.timestamp s.seen;
      last_candle = some c;
      stats = record st { published = st.published + 1 };
    }

abbrev pub count_duplicate : Series → Series
count_duplicate s =
    let st = s.stats in record s { stats = record st { duplicates = st.duplicates + 1 } }

abbrev pub cons_clean : OhlcvCandle → List OhlcvCandle × Series → List OhlcvCandle × Series
cons_clean c (clean, s) = (c ∷ clean, s)

-- The loop of `process_batch` over the sorted candles.
unfoldable pub process_sorted : ℕ → List OhlcvCandle → Series → List OhlcvCandle × Series
unfolding admit
process_sorted timeframe [] s = ([], s)
process_sorted timeframe (c ∷ cs) s =
    let skipped = process_sorted timeframe cs (count_duplicate s) in
    let taken = cons_clean c (process_sorted timeframe cs (admit timeframe c s)) in
    if mem c.timestamp s.seen then skipped else taken

-- The part of `process_batch` after the key is known.
unfoldable pub process_series : ℕ → List OhlcvCandle → Series → List OhlcvCandle × Series
unfolding process_sorted sorted
process_series timeframe cs s =
    let ordered = sorted cs in
    let st = s.stats in
    process_sorted timeframe ordered
      (record s { stats = record st { received = st.received + length ordered } })

abbrev pub OhlcvNormaliser : Type 0
OhlcvNormaliser = ℕ → ℕ → Series

-- The map with another value for one pair.
abbrev pub update : ℕ → ℕ → Series → OhlcvNormaliser → OhlcvNormaliser
update symbol timeframe v n k t = if k == symbol && t == timeframe then v else n k t

abbrev pub update_with :
    ℕ → ℕ → OhlcvNormaliser → List OhlcvCandle × Series → List OhlcvCandle × OhlcvNormaliser
update_with symbol timeframe n (clean, s) = (clean, update symbol timeframe s n)

-- `process_batch`: the first candle gives the key for all.
unfoldable pub process_batch :
    List OhlcvCandle → OhlcvNormaliser → List OhlcvCandle × OhlcvNormaliser
unfolding process_series
process_batch [] n = ([], n)
process_batch (c ∷ cs) n =
    update_with c.symbol c.timeframe n
      (process_series c.timeframe (c ∷ cs) (n c.symbol c.timeframe))

abbrev pub first : List OhlcvCandle → Option OhlcvCandle
first [] = none
first (c ∷ _) = some c

-- `process_single`
unfoldable pub process_single : OhlcvCandle → OhlcvNormaliser → Option OhlcvCandle × OhlcvNormaliser
unfolding process_batch
process_single c n = let (clean, n') = process_batch (c ∷ []) n in (first clean, n')

-- `get_last_candle`
unfoldable pub get_last_candle : ℕ → ℕ → OhlcvNormaliser → Option OhlcvCandle
get_last_candle symbol timeframe n = (n symbol timeframe).last_candle

-- `get_data_age_seconds`, in microseconds at the time `now`.
unfoldable pub get_data_age : ℕ → Option OhlcvCandle → Option ℕ
get_data_age now none = none
get_data_age now (some c) = some (now - c.received_at)

-- `reset`
unfoldable pub reset_series : ℕ → ℕ → OhlcvNormaliser → OhlcvNormaliser
reset_series symbol timeframe n = update symbol timeframe no_series n
