-- ===== src/Broker/Invariant.antt =====
-- The portfolio invariant of the paper broker (paper_broker.py) and its operations.
use multi_agent_trading_syst.Prelude.{
  ℕ, ◌+◌, ◌≤◌, ◌≡◌, refl, Option, [], ◌∷◌, arith, Bool-cases, Option-cases, inl, inr, length, tail,
  ltb, suc, ◌⊎◌,
}
use multi_agent_trading_syst.Prelude.Int.{pos, ltb_ℤ}
use multi_agent_trading_syst.Prelude.Decimal.{Decimal}
use multi_agent_trading_syst.Prelude.Dict.{
  Dict, get, put, remove, IsDict, put-IsDict, remove-IsDict,
}
use multi_agent_trading_syst.Prelude.Float.{Float}
use multi_agent_trading_syst.Models.Trade.{
  RiskAssessment, ExecutionResult, OrderSide, OrderType, same_side,
}
use multi_agent_trading_syst.Broker.State.{PaperPosition, Broker, remember, idempotency_cache_size}
use multi_agent_trading_syst.Broker.Order.{
  Result, ok, err, Draw, Fill, OrderIds, settle, close, close_position, open_position, reserve,
  against_existing, open_if_ok, finish_order, begin_order, place_order, opened, total_cost, Started,
  cached, priced, resume_order, exit_price, close_reference,
}

-- Every position stands under its own symbol.
abbrev pub IsKeyed : Dict PaperPosition → Type 0
IsKeyed [] = Unit
IsKeyed (e ∷ ps) = (e.1.symbol ≡ e.0) × IsKeyed ps

pub record IsValid (b : Broker) : Type 0 where
  pub one_per_symbol : IsDict b.positions
  pub keyed : IsKeyed b.positions
  pub cache_dict : IsDict b.filled_orders
  pub cache_bounded : length b.filled_orders ≤ idempotency_cache_size

put-IsKeyed :
    (k : ℕ) (p : PaperPosition) (d : Dict PaperPosition)
    → p.symbol ≡ k
    → IsKeyed d
    → IsKeyed (put k p d)
put-IsKeyed k p [] s h = (s, tt)
put-IsKeyed k p (e ∷ d) s h = ground (arith, put-IsKeyed k p d s h.1)

remove-IsKeyed : (k : ℕ) (d : Dict PaperPosition) → IsKeyed d → IsKeyed (remove k d)
remove-IsKeyed k [] h = tt
remove-IsKeyed k (e ∷ d) h = ground (arith, remove-IsKeyed k d h.1)

pub tail-IsDict : {V : Type 0} (d : Dict V) → IsDict d → IsDict (tail d)
tail-IsDict [] h = tt
tail-IsDict (e ∷ d) h = h.1

pub length-tail : {V : Type 0} (d : Dict V) → length (tail d) + 1 ≤ length d ⊎ (d ≡ [])
length-tail [] = inr refl
length-tail (e ∷ d) = inl (omega arith)

pub length-put-le : {V : Type 0} (k : ℕ) (v : V) (d : Dict V) → length (put k v d) ≤ suc (length d)
length-put-le k v [] = omega arith
length-put-le k v (e ∷ d) = ground (arith, length-put-le k v d)

pub remember-IsValid :
    (pid : ℕ) (r : ExecutionResult) (b : Broker) → IsValid b → IsValid (remember pid r b)
unfolding remember
remember-IsValid pid r b v =
    let d = put-IsDict pid r b.filled_orders v.cache_dict in
    let long = length-put-le pid r b.filled_orders in
    elim (Bool-cases (ltb idempotency_cache_size (length (put pid r b.filled_orders)))) [
      | inl full ↦ rw full (record {
        one_per_symbol = v.one_per_symbol;
        keyed = v.keyed;
        cache_dict = tail-IsDict (put pid r b.filled_orders) d;
        cache_bounded = ground (arith, length-tail (put pid r b.filled_orders));
      })
      | inr fits ↦ rw fits (record {
        one_per_symbol = v.one_per_symbol;
        keyed = v.keyed;
        cache_dict = d;
        cache_bounded = ground arith;
      })
    ]

pub settle-IsValid :
    (p : PaperPosition) (symbol exit : ℕ) (b : Broker)
    → IsValid b
    → IsValid (settle p symbol exit b)
unfolding settle
settle-IsValid p symbol exit b v = record {
  one_per_symbol = remove-IsDict symbol b.positions v.one_per_symbol;
  keyed = remove-IsKeyed symbol b.positions v.keyed;
  cache_dict = v.cache_dict;
  cache_bounded = v.cache_bounded;
}

pub close-IsValid :
    (symbol ref : ℕ) (ids : OrderIds) (b : Broker) → IsValid b → IsValid (close symbol ref ids b).1
unfolding close
close-IsValid symbol ref ids b v = elim (Option-cases (get symbol b.positions)) [
  | inl flat ↦ rw (flat, close) v
  | inr (p, held) ↦ rw (held, close) (settle-IsValid p symbol (exit_price p.side ref) b v)
]

-- `close_position` keeps the invariant.
pub close_position-IsValid :
    (symbol : ℕ) (price : Option Decimal) (ids : OrderIds) (b : Broker)
    → IsValid b
    → IsValid (close_position symbol price ids b).1
unfolding close_position
close_position-IsValid symbol price ids b v = elim (Option-cases (get symbol b.positions)) [
  | inl flat ↦ rw (flat, close_position) v
  | inr (p, held) ↦
      rw (held, close_position) (close-IsValid symbol (close_reference price p) ids b v)
]

reserve-IsValid :
    (symbol : ℕ) (side : OrderSide) (x : Fill) (b : Broker)
    → IsValid b
    → IsValid (reserve symbol side x b)
unfolding reserve
reserve-IsValid symbol side x b v = record {
  one_per_symbol = put-IsDict symbol (opened symbol side x) b.positions v.one_per_symbol;
  keyed = put-IsKeyed symbol (opened symbol side x) b.positions refl v.keyed;
  cache_dict = v.cache_dict;
  cache_bounded = v.cache_bounded;
}

open_position-IsValid :
    (symbol : ℕ) (side : OrderSide) (kind : OrderType) (x : Fill) (ids : OrderIds) (b : Broker)
    → IsValid b
    → IsValid (open_position symbol side kind x ids b).1
unfolding open_position
open_position-IsValid symbol side kind x ids b v =
    elim (Bool-cases (ltb_ℤ b.cash_balance (pos (total_cost x)))) [
      | inl short ↦ rw short v
      | inr covered ↦ rw covered (remember-IsValid _ _ _ (reserve-IsValid symbol side x b v))
    ]

open_if_ok-IsValid :
    (symbol : ℕ) (side : OrderSide) (kind : OrderType) (ids : OrderIds) (r : Result Fill)
    (b : Broker)
    → IsValid b
    → IsValid (open_if_ok symbol side kind ids r b).1
unfolding open_if_ok
open_if_ok-IsValid symbol side kind ids (err e) b v = v
open_if_ok-IsValid symbol side kind ids (ok x) b v =
    open_position-IsValid symbol side kind x ids b v

against_existing-IsValid :
    (p : PaperPosition) (symbol : ℕ) (side : OrderSide) (ref : ℕ) (ids : OrderIds) (b : Broker)
    → IsValid b
    → IsValid (against_existing p symbol side ref ids b).1
unfolding against_existing
against_existing-IsValid p symbol side ref ids b v =
    let (r, b') = close symbol ref ids b in
    let after = close-IsValid symbol ref ids b v in
    elim (Bool-cases (same_side p.side side)) [
      | inl stacked ↦ rw stacked v
      | inr opposite ↦ rw opposite (elim (Option-cases (close symbol ref ids b).0) [
        | inl flat ↦ rw flat after
        | inr (result, closed) ↦ rw closed (remember-IsValid ids.proposal_id result _ after)
      ])
    ]

module _ {F : Type 0} where
  -- The second half of `place_order` keeps the invariant in whatever valid state it resumes.
  pub finish_order-IsValid :
      (a : RiskAssessment F) (ref : ℕ) (d : Draw) (rid : ℕ) (b : Broker)
      → IsValid b
      → IsValid (finish_order a ref d rid b).1
  unfolding finish_order
  finish_order-IsValid a ref d rid b v =
      let p = a.original_proposal in
      elim (Option-cases (get p.symbol b.positions)) [
        | inl flat ↦
            rw (flat, finish_order) (open_if_ok-IsValid p.symbol p.side p.order_type _ _ b v)
        | inr (held, e) ↦
            rw (e, finish_order) (against_existing-IsValid held p.symbol p.side ref _ b v)
      ]

module _ {F : Type 0} ⦃f : Float F⦄ where
  resume_order-IsValid :
      (a : RiskAssessment F) (d : Draw) (rid : ℕ) (r : Result ℕ) (b : Broker)
      → IsValid b
      → IsValid (resume_order a d rid r b).1
  unfolding resume_order
  resume_order-IsValid a d rid (err e) b v = v
  resume_order-IsValid a d rid (ok ref) b v = finish_order-IsValid a ref d rid b v

  -- Placing an order keeps the portfolio valid: one position per symbol, each under its own symbol, and
  -- an order cache without repetitions that never exceeds its limit.
  place_order-IsValid :
      (a : RiskAssessment F) (d : Draw) (rid : ℕ) (b : Broker)
      → IsValid b
      → IsValid (place_order a d rid b).1
  unfolding place_order
  place_order-IsValid a d rid b v = go (begin_order a b)
    where
      go :
          (s : Started)
          → IsValid (
              let out : Result ExecutionResult × Broker = elim s [
                | cached r ↦ (ok r, b)
                | priced r ↦ resume_order a d rid r b
              ] in
              out.1)
      go (cached r) = v
      go (priced r) = resume_order-IsValid a d rid r b v
