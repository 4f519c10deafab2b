-- ===== src/Broker/Idempotent.antt =====
-- A proposal that is placed again (paper_broker.py, the cache of filled orders).
use multi_agent_trading_syst.Prelude.{
  ℕ, ◌≡◌, none, some, [], ◌∷◌, arith, Bool-cases, Option-cases, inl, inr, true, false, ltb, length,
  tail, ◌<◌,
}
use multi_agent_trading_syst.Prelude.Int.{pos, ltb_ℤ}
use multi_agent_trading_syst.Prelude.Dict.{Dict, get, put, get-put_self}
use multi_agent_trading_syst.Prelude.Float.{Float}
use multi_agent_trading_syst.Models.Trade.{
  RiskAssessment, ExecutionResult, OrderSide, OrderType, same_side,
}
use multi_agent_trading_syst.Broker.State.{PaperPosition, Broker, remember, idempotency_cache_size}
use multi_agent_trading_syst.Broker.Order.{
  Result, ok, err, Draw, Fill, OrderIds, settle, reserve, open_position, against_existing,
  open_if_ok, finish_order, begin_order, place_order, total_cost, resume_order, priced, cached,
  exit_price, reference_price, not_paper_mode,
}
use multi_agent_trading_syst.Broker.Equity.{against_existing-opposite}

get-tail-put :
    {V : Type 0} (k : ℕ) (v : V) (d : Dict V)
    → get k d ≡ none
    → 1 < length (put k v d)
    → get k (tail (put k v d)) ≡ some v
get-tail-put k v [] fresh long = absurd (omega arith)
get-tail-put k v (e ∷ d) fresh long = ground (arith, get-put_self k v d)

remember-get :
    (pid : ℕ) (r : ExecutionResult) (b : Broker)
    → get pid b.filled_orders ≡ none
    → get pid (remember pid r b).filled_orders ≡ some r
unfolding remember
remember-get pid r b fresh =
    elim (Bool-cases (ltb idempotency_cache_size (length (put pid r b.filled_orders)))) [
      | inl full ↦ rw full (get-tail-put pid r b.filled_orders fresh (ground arith))
      | inr fits ↦ rw fits (get-put_self pid r b.filled_orders)
    ]

-- After a success the result is in the cache, and paper mode is on.
abbrev Remembers : ℕ → Result ExecutionResult × Broker → Type 0
Remembers pid (err _, b) = Unit
Remembers pid (ok r, b) = (get pid b.filled_orders ≡ some r) × (b.paper_mode ≡ true)

open_position-Remembers :
    (symbol : ℕ) (side : OrderSide) (kind : OrderType) (x : Fill) (ids : OrderIds) (b : Broker)
    → b.paper_mode ≡ true
    → get ids.proposal_id b.filled_orders ≡ none
    → Remembers ids.proposal_id (open_position symbol side kind x ids b)
unfolding open_position reserve
open_position-Remembers symbol side kind x ids b paper fresh =
    elim (Bool-cases (ltb_ℤ b.cash_balance (pos (total_cost x)))) [
      | inl short ↦ rw short tt
      | inr covered ↦
          rw covered (remember-get ids.proposal_id _ (reserve symbol side x b) fresh, paper)
    ]

open_if_ok-Remembers :
    (symbol : ℕ) (side : OrderSide) (kind : OrderType) (ids : OrderIds) (r : Result Fill)
    (b : Broker)
    → b.paper_mode ≡ true
    → get ids.proposal_id b.filled_orders ≡ none
    → Remembers ids.proposal_id (open_if_ok symbol side kind ids r b)
unfolding open_if_ok
open_if_ok-Remembers symbol side kind ids (err e) b paper fresh = tt
open_if_ok-Remembers symbol side kind ids (ok x) b paper fresh =
    open_position-Remembers symbol side kind x ids b paper fresh

against_existing-Remembers :
    (p : PaperPosition) (symbol : ℕ) (side : OrderSide) (ref : ℕ) (ids : OrderIds) (b : Broker)
    → get symbol b.positions ≡ some p
    → b.paper_mode ≡ true
    → get ids.proposal_id b.filled_orders ≡ none
    → Remembers ids.proposal_id (against_existing p symbol side ref ids b)
unfolding settle remember
against_existing-Remembers p symbol side ref ids b e paper fresh =
    elim (Bool-cases (same_side p.side side)) [
      | inl stacked ↦ unfold against_existing in rw (stacked, against_existing) tt
      | inr opposite ↦
          let exit = exit_price p.side ref in
          rw (against_existing-opposite p symbol side ref ids b e opposite)
            (remember-get ids.proposal_id _ (settle p symbol exit b) fresh, paper)
    ]

module _ {F : Type 0} where
  finish_order-Remembers :
      (a : RiskAssessment F) (ref : ℕ) (d : Draw) (rid : ℕ) (b : Broker)
      → b.paper_mode ≡ true
      → get a.proposal_id b.filled_orders ≡ none
      → Remembers a.proposal_id (finish_order a ref d rid b)
  unfolding finish_order
  finish_order-Remembers a ref d rid b paper fresh =
      let p = a.original_proposal in
      elim (Option-cases (get p.symbol b.positions)) [
        | inl flat ↦
            rw (flat, finish_order)
              (open_if_ok-Remembers p.symbol p.side p.order_type _ _ b paper fresh)
        | inr (held, e) ↦
            rw (e, finish_order)
              (against_existing-Remembers held p.symbol p.side ref _ b e paper fresh)
      ]

  resume_order-Remembers :
      (a : RiskAssessment F) (d : Draw) (rid : ℕ) (r : Result ℕ) (b : Broker)
      → b.paper_mode ≡ true
      → get a.proposal_id b.filled_orders ≡ none
      → Remembers a.proposal_id (resume_order a d rid r b)
  unfolding resume_order
  resume_order-Remembers a d rid (err e) b paper fresh = tt
  resume_order-Remembers a d rid (ok ref) b paper fresh =
      finish_order-Remembers a ref d rid b paper fresh

module _ {F : Type 0} ⦃f : Float F⦄ where
  pub begin_order-live :
      (a : RiskAssessment F) (b : Broker)
      → b.paper_mode ≡ false
      → begin_order a b ≡ priced (err not_paper_mode)
  unfolding begin_order
  begin_order-live a b live = simp live

  pub begin_order-cached :
      (a : RiskAssessment F) (b : Broker) {r : ExecutionResult}
      → b.paper_mode ≡ true
      → get a.proposal_id b.filled_orders ≡ some r
      → begin_order a b ≡ cached r
  unfolding begin_order
  begin_order-cached a b paper old = simp (paper, old)

  begin_order-new :
      (a : RiskAssessment F) (b : Broker)
      → b.paper_mode ≡ true
      → get a.proposal_id b.filled_orders ≡ none
      → begin_order a b ≡ priced (reference_price a.original_proposal.signal.technical_signal)
  unfolding begin_order
  begin_order-new a b paper fresh = simp (paper, fresh)

  place_order-Remembers :
      (a : RiskAssessment F) (d : Draw) (rid : ℕ) (b : Broker)
      → Remembers a.proposal_id (place_order a d rid b)
  unfolding place_order resume_order
  place_order-Remembers a d rid b = elim (Bool-cases b.paper_mode) [
    | inr live ↦ rw (begin_order-live a b live, place_order) tt
    | inl paper ↦ elim (Option-cases (get a.proposal_id b.filled_orders)) [
      | inr (r, old) ↦ rw (begin_order-cached a b paper old, place_order) (old, paper)
      | inl fresh ↦
          rw (begin_order-new a b paper fresh, place_order)
            (resume_order-Remembers a d rid _ b paper fresh)
    ]
  ]

  -- A proposal whose order succeeded, placed again with whatever draws: the same result is returned,
  -- and the broker stays as it is.
  pub place_order_again :
      (a : RiskAssessment F) (d d' : Draw) (rid rid' : ℕ) (b b' : Broker) {r : ExecutionResult}
      → place_order a d rid b ≡ (ok r, b')
      → place_order a d' rid' b' ≡ (ok r, b')
  unfolding place_order
  place_order_again a d d' rid rid' b b' e =
      let kept = rw e at (place_order-Remembers a d rid b) in
      rw (begin_order-cached a b' kept.1 kept.0, place_order)
