-- ===== src/MarketData/Sorting.antt =====
-- `sorted(candles, key=lambda c: c.timestamp)`: Python's sort is stable.
use multi_agent_trading_syst.Prelude.{
  ℕ, suc, ◌≤◌, ◌≡◌, refl, List, [], ◌∷◌, leb, if◌then◌else◌, arith, Bool-cases, inl, inr, length,
  leb→le,
}
use multi_agent_trading_syst.Models.Market.{OhlcvCandle}

-- Before the first candle that is not older; the earlier one of equal candles stays first.
abbrev insert : OhlcvCandle → List OhlcvCandle → List OhlcvCandle
insert c [] = c ∷ []
insert c (d ∷ ds) = if leb c.timestamp d.timestamp then c ∷ d ∷ ds else d ∷ insert c ds

unfoldable pub sorted : List OhlcvCandle → List OhlcvCandle
sorted [] = []
sorted (c ∷ cs) = insert c (sorted cs)

-- The head of a list, if any, is not older than a time.
abbrev pub AtLeast : ℕ → List OhlcvCandle → Type 0
AtLeast t [] = Unit
AtLeast t (d ∷ ds) = t ≤ d.timestamp

-- Timestamps never decrease along the list.
abbrev pub IsSorted : List OhlcvCandle → Type 0
IsSorted [] = Unit
IsSorted (c ∷ cs) = AtLeast c.timestamp cs × IsSorted cs

insert-AtLeast :
    (t : ℕ) (c : OhlcvCandle) (cs : List OhlcvCandle)
    → t ≤ c.timestamp
    → AtLeast t cs
    → AtLeast t (insert c cs)
insert-AtLeast t c [] h k = h
insert-AtLeast t c (d ∷ ds) h k = ground arith

insert-IsSorted : (c : OhlcvCandle) (cs : List OhlcvCandle) → IsSorted cs → IsSorted (insert c cs)
insert-IsSorted c [] h = (tt, tt)
insert-IsSorted c (d ∷ ds) (first, rest) = elim (Bool-cases (leb c.timestamp d.timestamp)) [
  | inl before ↦ rw before (leb→le c.timestamp d.timestamp before, (first, rest))
  | inr after ↦
      rw after (insert-AtLeast d.timestamp c ds (ground arith) first, insert-IsSorted c ds rest)
]

pub sorted-IsSorted : (cs : List OhlcvCandle) → IsSorted (sorted cs)
unfolding sorted
sorted-IsSorted [] = tt
sorted-IsSorted (c ∷ cs) = insert-IsSorted c (sorted cs) (sorted-IsSorted cs)

length-insert : (c : OhlcvCandle) (cs : List OhlcvCandle) → length (insert c cs) ≡ suc (length cs)
length-insert c [] = refl
length-insert c (d ∷ ds) = ground (arith, length-insert c ds)

pub length-sorted : (cs : List OhlcvCandle) → length (sorted cs) ≡ length cs
unfolding sorted
length-sorted [] = refl
length-sorted (c ∷ cs) = omega (arith, length-insert c (sorted cs), length-sorted cs)
