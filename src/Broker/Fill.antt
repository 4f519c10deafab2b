-- ===== src/Broker/Fill.antt =====
-- Bounds on what the paper broker fills, charges and pays out (paper_broker.py).
use native.Mathlib.Nat.{mul-le-mul, div-mul-le_self, le_refl}
use multi_agent_trading_syst.Prelude.{ℕ, ◌*◌, ◌^◌, ◌≤◌, ◌<◌, ◌≡◌, true, arith}
use multi_agent_trading_syst.Prelude.Int.{pos, ◌≤ℤ◌}
use multi_agent_trading_syst.Prelude.Decimal.{notional_of}
use multi_agent_trading_syst.Models.Trade.{OrderSide, is_successful}
use multi_agent_trading_syst.Broker.Order.{
  ok, Draw, Fill, price_up, price_down, fill_price, taker_fee, quantity_for, draw_fill,
  compute_fill, total_cost, cash_returned, opened, exit_price,
}

pub taker_fee-le : (n : ℕ) → taker_fee n * 1000 ≤ n
unfolding taker_fee
taker_fee-le n = omega arith

pub price_down-le-up : (ref : ℕ) → price_down ref ≤ price_up ref
unfolding price_down price_up
price_down-le-up ref = omega arith

pub notional_mono : (q p p' : ℕ) → p ≤ p' → notional_of q p ≤ notional_of q p'
notional_mono q p p' h = omega (arith, mul-le-mul (le_refl q) h)

quantity_for-notional : (size price : ℕ) → notional_of (quantity_for size price) price ≤ size
unfolding quantity_for
quantity_for-notional size price = omega (arith, div-mul-le_self size (price * 10 ^ 8))

draw_fill-le :
    (d : Draw) (price requested : ℕ)
    → d.fill_ratio ≤ 10 ^ 17
    → (draw_fill d price requested).quantity ≤ requested
unfolding draw_fill
draw_fill-le d price requested h =
    let cut : requested * d.fill_ratio ≤ requested * 10 ^ 17 = mul-le-mul (le_refl requested) h in
    ground arith

draw_fill-pos :
    (d : Draw) (price requested : ℕ) → 0 < requested → 0 < (draw_fill d price requested).quantity
unfolding draw_fill
draw_fill-pos d price requested h = ground arith

draw_fill-is_successful :
    (d : Draw) (price requested : ℕ) → is_successful (draw_fill d price requested).status ≡ true
unfolding draw_fill
draw_fill-is_successful d price requested = ground arith

draw_fill-keeps :
    (d : Draw) (price requested : ℕ)
    → ((draw_fill d price requested).price ≡ price)
      × ((draw_fill d price requested).requested ≡ requested)
unfolding draw_fill
draw_fill-keeps d price requested = ground arith

-- What an opening fill promises for a size and a reference price.
pub record IsFillFor (side : OrderSide) (ref size : ℕ) (x : Fill) : Type 0 where
  pub price_at : x.price ≡ fill_price side ref
  pub filled_pos : 0 < x.quantity
  pub counts_as_filled : is_successful x.status ≡ true
  pub filled_le : x.quantity ≤ x.requested
  pub requested_max : x.requested ≡ quantity_for size x.price
  pub within_size : notional_of x.quantity x.price ≤ size

notional-fill-le :
    (side : OrderSide) (ref size : ℕ) (d : Draw)
    → d.fill_ratio ≤ 10 ^ 17
    → let price = fill_price side ref in
      notional_of (draw_fill d price (quantity_for size price)).quantity price ≤ size
notional-fill-le side ref size d h =
    let price = fill_price side ref in
    omega (
      arith,
      mul-le-mul (draw_fill-le d price (quantity_for size price) h) (le_refl price),
      quantity_for-notional size price,
    )

draw_fill-IsFillFor :
    (side : OrderSide) (ref size : ℕ) (d : Draw)
    → d.fill_ratio ≤ 10 ^ 17
    → 0 < quantity_for size (fill_price side ref)
    → let price = fill_price side ref in
      IsFillFor side ref size (draw_fill d price (quantity_for size price))
draw_fill-IsFillFor side ref size d h p =
    let price = fill_price side ref in
    let requested = quantity_for size price in
    let (at, asked) = draw_fill-keeps d price requested in
    record {
      price_at = at;
      filled_pos = draw_fill-pos d price requested p;
      counts_as_filled = draw_fill-is_successful d price requested;
      filled_le = rw asked (draw_fill-le d price requested h);
      requested_max = rw (at, asked);
      within_size = rw at (notional-fill-le side ref size d h);
    }

pub compute_fill-IsFillFor :
    (side : OrderSide) (ref size : ℕ) (d : Draw) {x : Fill}
    → d.fill_ratio ≤ 10 ^ 17
    → compute_fill side ref (pos size) d ≡ ok x
    → IsFillFor side ref size x
unfolding compute_fill
compute_fill-IsFillFor side ref size d h e = ground (arith, draw_fill-IsFillFor side ref size d h)

-- What it costs: at most the size and a fee of one part in a thousand.
pub total_cost-le :
    {side : OrderSide} {ref size : ℕ} {x : Fill}
    → IsFillFor side ref size x
    → total_cost x * 1000 ≤ size * 1001
unfolding total_cost
total_cost-le {x = x} h =
    omega (arith, h.within_size, taker_fee-le (notional_of x.quantity x.price))

-- Opening at a reference price and closing at the same one returns no more than it cost.
pub cash_returned-opened-le :
    (symbol : ℕ) (side : OrderSide) (ref : ℕ) (x : Fill)
    → x.price ≡ fill_price side ref
    → cash_returned (opened symbol side x) (exit_price side ref) ≤ℤ pos (total_cost x)
unfolding cash_returned total_cost fill_price
cash_returned-opened-le symbol OrderSide.buy ref x h =
    let up = notional_mono x.quantity (price_down ref) (price_up ref) (price_down-le-up ref) in
    rw h (ground (arith, up))
cash_returned-opened-le symbol OrderSide.sell ref x h =
    let up = notional_mono x.quantity (price_down ref) (price_up ref) (price_down-le-up ref) in
    rw h (ground (arith, up))
