-- ===== src/Decision/Direction.antt =====
-- The direction beside the composite score (agents/decision/signal_aggregator.py).
use multi_agent_trading_syst.Prelude.{ℕ, ◌≤◌, ◌≡◌, Bool, true, arith, if◌then◌else◌}
use multi_agent_trading_syst.Prelude.Float.{Float, IsOrdered}
use multi_agent_trading_syst.Models.Signals.{
  SignalDirection, strong_buy, buy, neutral, sell, strong_sell,
}
use multi_agent_trading_syst.Decision.Aggregator.{scalar_to_direction}

-- How bullish a direction is.
abbrev pub rank : SignalDirection → ℕ
rank strong_sell = 0
rank sell = 1
rank neutral = 2
rank buy = 3
rank strong_buy = 4

-- The direction for the answers of the four comparisons.
abbrev classify : Bool → Bool → Bool → Bool → SignalDirection
classify a b c d =
    if a
    then strong_buy
    else if b
    then buy
    else if c
    then strong_sell
    else if d
    then sell
    else neutral

rank-classify :
    (a b c d a' b' c' d' : Bool)
    → (a ≡ true → a' ≡ true)
    → (b ≡ true → b' ≡ true)
    → (c' ≡ true → c ≡ true)
    → (d' ≡ true → d ≡ true)
    → rank (classify a b c d) ≤ rank (classify a' b' c' d')
rank-classify a b c d a' b' c' d' ha hb hc hd = ground arith

module _ {F : Type 0} ⦃f : Float F⦄ (o : IsOrdered F) where
  -- A higher composite score never gives a less bullish direction.
  pub scalar_to_direction-monotone :
      (x y : F) → f.le x y ≡ true → rank (scalar_to_direction x) ≤ rank (scalar_to_direction y)
  unfolding scalar_to_direction
  scalar_to_direction-monotone x y h =
      rank-classify (f.le (f.lit 65 100) x) (f.le (f.lit 25 100) x) (f.le x (f.neg (f.lit 65 100)))
        (f.le x (f.neg (f.lit 25 100))) (f.le (f.lit 65 100) y) (f.le (f.lit 25 100) y)
        (f.le y (f.neg (f.lit 65 100))) (f.le y (f.neg (f.lit 25 100)))
        (λ k. o.le_trans (f.lit 65 100) x y k h) (λ k. o.le_trans (f.lit 25 100) x y k h)
        (λ k. o.le_trans x y (f.neg (f.lit 65 100)) h k)
        (λ k. o.le_trans x y (f.neg (f.lit 25 100)) h k)
