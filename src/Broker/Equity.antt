-- ===== src/Broker/Equity.antt =====
-- What the paper broker's operations do to its equity, cash plus cost bases (paper_broker.py).
use multi_agent_trading_syst.Prelude.{
  ℕ, ◌≡◌, refl, Option, none, some, [], ◌∷◌, Bool-cases, Option-cases, inl, inr, false,
}
use multi_agent_trading_syst.Prelude.Int.{pos, ◌+ℤ◌, ◌-ℤ◌, ltb_ℤ, int_laws, parts_of_eq}
use multi_agent_trading_syst.Prelude.Decimal.{Decimal}
use multi_agent_trading_syst.Prelude.Rounding.{IsWithinHalfCent, quantize_cent-near}
use multi_agent_trading_syst.Prelude.Dict.{Dict, get, put, remove}
use multi_agent_trading_syst.Prelude.Float.{Float}
use multi_agent_trading_syst.Models.Trade.{
  RiskAssessment, ExecutionResult, OrderSide, OrderType, same_side,
}
use multi_agent_trading_syst.Broker.State.{PaperPosition, Broker, remember, used_margin}
use multi_agent_trading_syst.Broker.Order.{
  Result, ok, err, Draw, Fill, OrderIds, settle, close, close_position, open_position, reserve,
  against_existing, open_if_ok, finish_order, begin_order, place_order, opened, total_cost,
  resume_order, reference_price, priced, not_paper_mode, exit_price, close_reference, cash_returned,
  close_result,
}

-- The equity that `get_balance` reports.
abbrev pub equity : Broker → Decimal
equity b = b.cash_balance +ℤ used_margin b.positions

pub used_margin-put_new :
    (k : ℕ) (p : PaperPosition) (d : Dict PaperPosition)
    → get k d ≡ none
    → used_margin (put k p d) ≡ used_margin d +ℤ p.cost_usd
used_margin-put_new k p [] e = omega int_laws
used_margin-put_new k p (x ∷ d) e = grind (int_laws, used_margin-put_new k p d)

pub used_margin-remove :
    (k : ℕ) (p : PaperPosition) (d : Dict PaperPosition)
    → get k d ≡ some p
    → used_margin (remove k d) +ℤ p.cost_usd ≡ used_margin d
used_margin-remove k p [] e = cc
used_margin-remove k p (x ∷ d) e = grind (int_laws, used_margin-remove k p d)

-- A call that reports a result `r`, or raises: what it did to the equity.
-- A reported PnL is the change of the equity, up to half a cent; a fill that reports none has not
-- changed it; and a call that raises leaves the broker as it was.
abbrev pub Reports : Option Decimal → Broker → Broker → Type 0
Reports none b b' = equity b' ≡ equity b
Reports (some pnl) b b' = IsWithinHalfCent (equity b +ℤ pnl) (equity b')

abbrev pub Accounts : Broker → Result ExecutionResult × Broker → Type 0
Accounts b (err _, b') = b' ≡ b
Accounts b (ok r, b') = Reports r.realized_pnl_usd b b'

pub settle-Reports :
    (p : PaperPosition) (symbol exit : ℕ) (ids : OrderIds) (b : Broker)
    → get symbol b.positions ≡ some p
    → Reports (close_result p symbol exit ids).realized_pnl_usd b (settle p symbol exit b)
unfolding settle close_result
settle-Reports p symbol exit ids b e =
    let near = quantize_cent-near (cash_returned p exit -ℤ p.cost_usd) in
    let gone = used_margin-remove symbol p b.positions e in omega (int_laws, near, parts_of_eq gone)

pub close-held :
    (p : PaperPosition) (symbol ref : ℕ) (ids : OrderIds) (b : Broker)
    → get symbol b.positions ≡ some p
    → let exit = exit_price p.side ref in
      close symbol ref ids b ≡ (some (close_result p symbol exit ids), settle p symbol exit b)
unfolding close
close-held p symbol ref ids b e = rw (e, close)

-- A call that closes a position, or finds none: then nothing has changed.
abbrev pub Closes : Broker → Option ExecutionResult × Broker → Type 0
Closes b (none, b') = b' ≡ b
Closes b (some r, b') = Reports r.realized_pnl_usd b b'

-- However a position is closed, at a price or with none, the PnL that the result reports is the
-- change of the equity, up to half a cent; without a position nothing changes.
pub close_position-Closes :
    (symbol : ℕ) (price : Option Decimal) (ids : OrderIds) (b : Broker)
    → Closes b (close_position symbol price ids b)
unfolding close_position
close_position-Closes symbol price ids b = elim (Option-cases (get symbol b.positions)) [
  | inl flat ↦ rw (flat, close_position) refl
  | inr (p, held) ↦
      let ref = close_reference price p in
      rw (held, close_position)
        (rw (close-held p symbol ref ids b held)
          (settle-Reports p symbol (exit_price p.side ref) ids b held))
]

open_position-Accounts :
    (symbol : ℕ) (side : OrderSide) (kind : OrderType) (x : Fill) (ids : OrderIds) (b : Broker)
    → get symbol b.positions ≡ none
    → Accounts b (open_position symbol side kind x ids b)
unfolding open_position remember reserve
open_position-Accounts symbol side kind x ids b e =
    let cost = pos (total_cost x) in
    let more = used_margin-put_new symbol (opened symbol side x) b.positions e in
    elim (Bool-cases (ltb_ℤ b.cash_balance cost)) [
      | inl short ↦ rw short refl
      | inr covered ↦ rw covered (omega (int_laws, parts_of_eq more))
    ]

open_if_ok-Accounts :
    (symbol : ℕ) (side : OrderSide) (kind : OrderType) (ids : OrderIds) (r : Result Fill)
    (b : Broker)
    → get symbol b.positions ≡ none
    → Accounts b (open_if_ok symbol side kind ids r b)
unfolding open_if_ok
open_if_ok-Accounts symbol side kind ids (err e) b flat = refl
open_if_ok-Accounts symbol side kind ids (ok x) b flat =
    open_position-Accounts symbol side kind x ids b flat

pub against_existing-opposite :
    (p : PaperPosition) (symbol : ℕ) (side : OrderSide) (ref : ℕ) (ids : OrderIds) (b : Broker)
    → get symbol b.positions ≡ some p
    → same_side p.side side ≡ false
    → let exit = exit_price p.side ref in
      let result = close_result p symbol exit ids in
      against_existing p symbol side ref ids b
      ≡ (ok result, remember ids.proposal_id result (settle p symbol exit b))
unfolding against_existing
against_existing-opposite p symbol side ref ids b e opposite =
    simp (opposite, close-held p symbol ref ids b e)

against_existing-Accounts :
    (p : PaperPosition) (symbol : ℕ) (side : OrderSide) (ref : ℕ) (ids : OrderIds) (b : Broker)
    → get symbol b.positions ≡ some p
    → Accounts b (against_existing p symbol side ref ids b)
unfolding remember settle close_result
against_existing-Accounts p symbol side ref ids b e = elim (Bool-cases (same_side p.side side)) [
  | inl stacked ↦ unfold against_existing in rw (stacked, against_existing) refl
  | inr opposite ↦
      rw (against_existing-opposite p symbol side ref ids b e opposite)
        (settle-Reports p symbol (exit_price p.side ref) ids b e)
]

module _ {F : Type 0} where
  -- The second half of `place_order`, in whatever state it resumes: an error leaves the broker as it
  -- was, an opening fill leaves the equity as it was, and the PnL that a closing fill reports is the
  -- change of the equity, up to half a cent.
  pub finish_order-Accounts :
      (a : RiskAssessment F) (ref : ℕ) (d : Draw) (rid : ℕ) (b : Broker)
      → Accounts b (finish_order a ref d rid b)
  unfolding finish_order
  finish_order-Accounts a ref d rid b =
      let p = a.original_proposal in
      elim (Option-cases (get p.symbol b.positions)) [
        | inl flat ↦
            rw (flat, finish_order) (open_if_ok-Accounts p.symbol p.side p.order_type _ _ b flat)
        | inr (held, e) ↦
            rw (e, finish_order) (against_existing-Accounts held p.symbol p.side ref _ b e)
      ]

module _ {F : Type 0} ⦃f : Float F⦄ where
  resume_order-Accounts :
      (a : RiskAssessment F) (d : Draw) (rid : ℕ) (r : Result ℕ) (b : Broker)
      → Accounts b (resume_order a d rid r b)
  unfolding resume_order
  resume_order-Accounts a d rid (err e) b = refl
  resume_order-Accounts a d rid (ok ref) b = finish_order-Accounts a ref d rid b

  -- A proposal that was not filled before is never answered from the cache.
  pub begin_order-fresh :
      (a : RiskAssessment F) (b : Broker)
      → get a.proposal_id b.filled_orders ≡ none
      → (r : Result ℕ) × (begin_order a b ≡ priced r)
  unfolding begin_order
  begin_order-fresh a b fresh = elim (Bool-cases b.paper_mode) [
    | inl paper ↦ (
      reference_price a.original_proposal.signal.technical_signal,
      rw (paper, fresh, begin_order),
    )
    | inr live ↦ (err not_paper_mode, rw (live, begin_order))
  ]

  -- The whole of `place_order` on a proposal that was not filled before: an error leaves the broker
  -- as it was, an opening fill leaves the equity as it was, and the PnL that a closing fill reports is
  -- the change of the equity, up to half a cent.
  pub place_order-Accounts :
      (a : RiskAssessment F) (d : Draw) (rid : ℕ) (b : Broker)
      → get a.proposal_id b.filled_orders ≡ none
      → Accounts b (place_order a d rid b)
  unfolding place_order
  place_order-Accounts a d rid b fresh =
      let (r, at) = begin_order-fresh a b fresh in
      rw (at, place_order) (resume_order-Accounts a d rid r b)
