-- ===== src/MarketData/Order.antt =====
-- What a batch comes out as (agents/market_data/normalizer.py, `process_batch`).
use multi_agent_trading_syst.Prelude.{
  ℕ, ◌+◌, ◌≤◌, ◌<◌, ◌≡◌, refl, true, false, List, [], ◌∷◌, ◌++◌, ltb, ◌==◌, arith, Bool-cases,
  Option-cases, ◌∙◌, inl, inr, length,
}
use multi_agent_trading_syst.Prelude.Deque.{push, Ascends, Below}
use multi_agent_trading_syst.Models.Market.{OhlcvCandle}
use multi_agent_trading_syst.MarketData.Sorting.{
  sorted, IsSorted, AtLeast, sorted-IsSorted, length-sorted,
}
use multi_agent_trading_syst.MarketData.Normalizer.{
  Series, Stats, mem, admit, check_gap, count_duplicate, process_sorted, process_series,
  dedup_buffer_size, OhlcvNormaliser, process_batch, update,
}

-- The head of a list, if any, is newer than a time.
abbrev Over : ℕ → List OhlcvCandle → Type 0
Over t [] = Unit
Over t (d ∷ ds) = t < d.timestamp

mem-append : (t : ℕ) (ts : List ℕ) → mem t (ts ++ (t ∷ [])) ≡ true
mem-append t [] = ground arith
mem-append t (u ∷ us) = ground (arith, mem-append t us)

mem-push : (t : ℕ) (ts : List ℕ) → mem t (push dedup_buffer_size t ts) ≡ true
unfolding push
mem-push t [] = ground arith
mem-push t (u ∷ us) = elim (Bool-cases (ltb dedup_buffer_size (length ((u ∷ us) ++ (t ∷ []))))) [
  | inl over ↦ rw over (mem-append t us)
  | inr under ↦ rw under (mem-append t (u ∷ us))
]

AtLeast-later :
    (t : ℕ) (c : OhlcvCandle) (cs : List OhlcvCandle)
    → t ≤ c.timestamp
    → AtLeast c.timestamp cs
    → AtLeast t cs
AtLeast-later t c [] h k = tt
AtLeast-later t c (d ∷ ds) h k = omega (arith, h, k)

-- A seen time that is not after an unseen one is before it.
seen-before :
    (t : ℕ) (u : ℕ) (seen : List ℕ) → mem t seen ≡ true → mem u seen ≡ false → t ≤ u → t < u
seen-before t u seen h k le = elim (Bool-cases (t == u)) [
  | inl same ↦ let t_is : t ≡ u = ground arith in absurd (cc (h, k, t_is))
  | inr other ↦ ground arith
]

Over→Below :
    (c : OhlcvCandle) (cs : List OhlcvCandle) → Over c.timestamp cs → Below (λ d. d.timestamp) c cs
Over→Below c [] h = tt
Over→Below c (d ∷ ds) h = h

-- The candles that come out of a sorted batch ascend, and are newer than what was seen before the
-- batch's first candle.
record Emits (seen : List ℕ) (cs clean : List OhlcvCandle) : Type 0 where
  ascends : Ascends (λ c. c.timestamp) clean
  over : (t : ℕ) → mem t seen ≡ true → AtLeast t cs → Over t clean

process_sorted-Emits :
    (timeframe : ℕ) (cs : List OhlcvCandle) (s : Series)
    → IsSorted cs
    → Emits s.seen cs (process_sorted timeframe cs s).0
unfolding process_sorted
process_sorted-Emits timeframe [] s h = record { ascends = tt; over = λ t k l. tt }
process_sorted-Emits timeframe (c ∷ cs) s (first, rest) =
    elim (Bool-cases (mem c.timestamp s.seen)) [
      | inl again ↦
          let e = process_sorted-Emits timeframe cs (count_duplicate s) rest in
          rw again (record {
            ascends = e.ascends;
            over = λ t k l. e.over t k (AtLeast-later t c cs l first);
          })
      | inr new ↦
          let e = process_sorted-Emits timeframe cs (admit timeframe c s) rest in
          let marked : mem c.timestamp (admit timeframe c s).seen ≡ true =
            mem-push c.timestamp s.seen in
          rw new (record {
            ascends = (Over→Below c _ (e.over c.timestamp marked first), e.ascends);
            over = λ t k l. seen-before t c.timestamp s.seen k new l;
          })
    ]

-- The counters of a series after some candles came in and some went out.
pub record Counts (before after : Stats) (came went : ℕ) : Type 0 where
  pub published : after.published ≡ before.published + went
  pub all_counted : after.published + after.duplicates ≡ before.published + before.duplicates + came
  pub gaps_bounded : after.gaps ≤ before.gaps + went

check_gap-counters :
    (timeframe : ℕ) (c : OhlcvCandle) (s : Series)
    → let st = check_gap timeframe c s.last_candle s.stats in
      (st.published ≡ s.stats.published)
      × (st.duplicates ≡ s.stats.duplicates)
      × (st.received ≡ s.stats.received)
      × (st.gaps ≤ s.stats.gaps + 1)
unfolding check_gap
check_gap-counters timeframe c s = elim (Option-cases s.last_candle) [
  | inl fresh ↦ rw fresh (refl, refl, refl, omega arith)
  | inr (l, is) ↦ rw is (ground arith, ground arith, ground arith, ground arith)
]

process_sorted-Counts :
    (timeframe : ℕ) (cs : List OhlcvCandle) (s : Series)
    → let (clean, s') = process_sorted timeframe cs s in
      Counts s.stats s'.stats (length cs) (length clean) × (s'.stats.received ≡ s.stats.received)
unfolding process_sorted
process_sorted-Counts timeframe [] s = (
  record { published = omega arith; all_counted = omega arith; gaps_bounded = omega arith },
  refl,
)
process_sorted-Counts timeframe (c ∷ cs) s = elim (Bool-cases (mem c.timestamp s.seen)) [
  | inl again ↦
      let (n, received) = process_sorted-Counts timeframe cs (count_duplicate s) in
      rw again (
        record {
          published = n.published;
          all_counted = omega (arith, n.all_counted);
          gaps_bounded = n.gaps_bounded;
        },
        received,
      )
  | inr new ↦
      let (n, received) = process_sorted-Counts timeframe cs (admit timeframe c s) in
      let (published, duplicates, total, gaps) = check_gap-counters timeframe c s in
      rw new (
        record {
          published = omega (arith, n.published, published);
          all_counted = omega (arith, n.all_counted, published, duplicates);
          gaps_bounded = omega (arith, n.gaps_bounded, gaps);
        },
        received ∙ total,
      )
]

-- A batch for one series: what comes out ascends strictly, and the counters add up.
pub process_series-lem :
    (timeframe : ℕ) (cs : List OhlcvCandle) (s : Series)
    → let (clean, s') = process_series timeframe cs s in
      Ascends (λ c. c.timestamp) clean
      × Counts s.stats s'.stats (length cs) (length clean)
      × (s'.stats.received ≡ s.stats.received + length cs)
unfolding process_series
process_series-lem timeframe cs s =
    let st = s.stats in
    let s' = record s { stats = record st { received = st.received + length (sorted cs) } } in
    let emits = process_sorted-Emits timeframe (sorted cs) s' (sorted-IsSorted cs) in
    let (n, received) = process_sorted-Counts timeframe (sorted cs) s' in
    let same = length-sorted cs in
    (
      emits.ascends,
      record {
        published = n.published;
        all_counted = omega (arith, n.all_counted, same);
        gaps_bounded = n.gaps_bounded;
      },
      omega (arith, received, same),
    )

update_self :
    (symbol timeframe : ℕ) (v : Series) (n : OhlcvNormaliser)
    → update symbol timeframe v n symbol timeframe ≡ v
update_self symbol timeframe v n = ground arith

-- Whatever came before, a batch comes out with strictly ascending timestamps, so free of duplicates;
-- each of its candles is counted as received and as either published or a duplicate; and a gap is
-- counted for published candles only.
pub process_batch-Ascends :
    (c : OhlcvCandle) (cs : List OhlcvCandle) (n : OhlcvNormaliser)
    → let (clean, n') = process_batch (c ∷ cs) n in
      let before = (n c.symbol c.timeframe).stats in
      let after = (n' c.symbol c.timeframe).stats in
      Ascends (λ d. d.timestamp) clean
      × Counts before after (length (c ∷ cs)) (length clean)
      × (after.received ≡ before.received + length (c ∷ cs))
unfolding process_batch
process_batch-Ascends c cs n =
    let out = process_series c.timeframe (c ∷ cs) (n c.symbol c.timeframe) in
    rw (update_self c.symbol c.timeframe out.1 n)
      (process_series-lem c.timeframe (c ∷ cs) (n c.symbol c.timeframe))
