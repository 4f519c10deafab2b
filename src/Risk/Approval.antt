-- ===== src/Risk/Approval.antt =====
-- What must hold for the Risk agent to approve a proposal (agents/risk/agent.py, `_evaluate`).
use multi_agent_trading_syst.Prelude.{
  ℕ, ◌*◌, ◌^◌, ◌≤◌, ◌<◌, ◌≡◌, refl, true, false, Option, none, some, arith, Bool-cases, inl, inr,
  ◌⊎◌, leb, ltb, if◌then◌else◌,
}
use multi_agent_trading_syst.Prelude.Int.{◌≤ℤ◌, leb_ℤ, ltb_ℤ}
use multi_agent_trading_syst.Prelude.Decimal.{Decimal}
use multi_agent_trading_syst.Prelude.Dict.{get}
use multi_agent_trading_syst.Prelude.Float.{Float}
use multi_agent_trading_syst.Models.Trade.{TradeProposal, OrderSide, is_approved, same_side}
use multi_agent_trading_syst.Risk.Drawdown.{
  total_drawdown_limit_breached, position_side, open_position,
}
use multi_agent_trading_syst.Risk.Sizer.{calculate, get_stop_loss_pct}
use multi_agent_trading_syst.Risk.Bounds.{IsWithinCaps, smaller-IsWithinCaps, calculate_bounds}
use multi_agent_trading_syst.Risk.Agent.{
  RiskAgent, Verdict, Snapshot, evaluate_drawdown, evaluate_position, evaluate_size, approve_open,
  approve_close, signal_age, reject,
}

-- The verdict lets an order through.
abbrev pub IsApproved : {F : Type 0} → Verdict F → Type 0
IsApproved v = is_approved v.assessment.decision ≡ true

module _ {F : Type 0} ⦃f : Float F⦄ where
  -- An order that opens a position: the symbol is flat, there is room for one more, and the approved
  -- size, which the ledger reserves, is at most the requested one and within the caps.
  pub record IsEntry (p : TradeProposal F) (snap : Snapshot F) (s : RiskAgent F) (v : Verdict F)
      : Type 0 where
    pub room : snap.count < s.settings.max_open_positions
    pub size : Decimal
    pub sized : v.assessment.approved_size_usd ≡ some size
    pub within_request : size ≤ℤ p.requested_size_usd
    pub within_caps : IsWithinCaps s.settings.sizer snap.value size
    pub reserved :
        v.agent ≡ record s { portfolio = open_position p.symbol size (some p.side) s.portfolio }

  approve_open-IsEntry :
      (aid : ℕ) (p : TradeProposal F) (stop : F) (size : Decimal) (snap : Snapshot F)
      (s : RiskAgent F)
      → snap.count < s.settings.max_open_positions
      → IsWithinCaps s.settings.sizer snap.value size
      → IsEntry p snap s (approve_open aid p stop size snap s)
  unfolding approve_open
  approve_open-IsEntry aid p stop size snap s room cap =
      let approved = if leb_ℤ p.requested_size_usd size then p.requested_size_usd else size in
      record {
        room = room;
        size = approved;
        sized = refl;
        within_request = ground arith;
        within_caps =
            smaller-IsWithinCaps s.settings.sizer snap.value size approved (ground arith) cap;
        reserved = refl;
      }

  evaluate_size-IsEntry :
      (aid : ℕ) (p : TradeProposal F) (snap : Snapshot F) (s : RiskAgent F)
      → IsApproved (evaluate_size aid p snap s)
      → IsEntry p snap s (evaluate_size aid p snap s)
  unfolding evaluate_size reject
  evaluate_size-IsEntry aid p snap s h =
      let z = s.settings.sizer in
      let size = calculate z snap.value (get_stop_loss_pct p) in
      let cap = (calculate_bounds z snap.value (get_stop_loss_pct p)).1 in
      elim (Bool-cases (leb s.settings.max_open_positions snap.count)) [
        | inl full ↦ absurd (cc (rw (full, evaluate_size) at h))
        | inr room ↦ elim (Bool-cases (ltb_ℤ size (f.to_decimal z.min_order_usd))) [
          | inl small ↦ absurd (cc (rw (room, small, evaluate_size) at h))
          | inr large ↦
              rw (room, large, evaluate_size)
                (approve_open-IsEntry aid p (get_stop_loss_pct p) size snap s (ground arith) cap)
        ]
      ]

  -- An order that closes the open position on its symbol, which is on the other side: it is approved
  -- at the cost basis of the position, and nothing is reserved.
  pub record IsExit (p : TradeProposal F) (s : RiskAgent F) (v : Verdict F) : Type 0 where
    pub held : OrderSide
    pub is_held : position_side p.symbol s.portfolio ≡ some held
    pub opposite : same_side held p.side ≡ false
    pub sized : v.assessment.approved_size_usd ≡ get p.symbol s.portfolio.open_positions
    pub unchanged : v.agent ≡ s

  -- The proposal opens a position on a flat symbol, or closes one.
  abbrev pub IsAdmitted : TradeProposal F → Snapshot F → RiskAgent F → Verdict F → Type 0
  IsAdmitted p snap s v =
      ((position_side p.symbol s.portfolio ≡ none) × IsEntry p snap s v) ⊎ IsExit p s v

  approve_close-IsExit :
      (aid : ℕ) (p : TradeProposal F) (snap : Snapshot F) (held : OrderSide) (s : RiskAgent F)
      → position_side p.symbol s.portfolio ≡ some held
      → same_side held p.side ≡ false
      → IsExit p s (approve_close aid p snap s)
  unfolding approve_close
  approve_close-IsExit aid p snap held s e opposite = record {
    held = held;
    is_held = e;
    opposite = opposite;
    sized = refl;
    unchanged = refl;
  }

  evaluate_position-IsAdmitted :
      (aid : ℕ) (p : TradeProposal F) (snap : Snapshot F) (o : Option OrderSide) (s : RiskAgent F)
      → position_side p.symbol s.portfolio ≡ o
      → IsApproved (evaluate_position aid p snap o s)
      → IsAdmitted p snap s (evaluate_position aid p snap o s)
  unfolding evaluate_position reject
  evaluate_position-IsAdmitted aid p snap none s e h = inl (e, evaluate_size-IsEntry aid p snap s h)
  evaluate_position-IsAdmitted aid p snap (some held) s e h =
      elim (Bool-cases (same_side held p.side)) [
        | inl stacked ↦ absurd (cc (rw (stacked, evaluate_position) at h))
        | inr opposite ↦
            rw (opposite, evaluate_position)
              (inr (approve_close-IsExit aid p snap held s e opposite))
      ]

  -- What the checks of an approved proposal have found.
  pub record IsCleared (now : ℕ) (p : TradeProposal F) (snap : Snapshot F) (s : RiskAgent F)
      (v : Verdict F) : Type 0 where
    pub within_drawdown :
        total_drawdown_limit_breached s.settings.max_total_drawdown_pct s.portfolio ≡ false
    pub fresh :
        signal_age now p.signal.technical_signal ≤ s.settings.max_data_staleness_seconds * 10 ^ 6
    pub admitted : IsAdmitted p snap s v

  pub evaluate_drawdown-IsCleared :
      (now aid : ℕ) (p : TradeProposal F) (snap : Snapshot F) (s : RiskAgent F)
      → IsApproved (evaluate_drawdown now aid p snap s)
      → IsCleared now p snap s (evaluate_drawdown now aid p snap s)
  unfolding evaluate_drawdown reject
  evaluate_drawdown-IsCleared now aid p snap s h =
      let limit = s.settings.max_total_drawdown_pct in
      let stale =
        ltb (s.settings.max_data_staleness_seconds * 10 ^ 6)
          (signal_age now p.signal.technical_signal) in
      let o = position_side p.symbol s.portfolio in
      elim (Bool-cases (total_drawdown_limit_breached limit s.portfolio)) [
        | inl breached ↦ absurd (cc (rw (breached, evaluate_drawdown) at h))
        | inr sound ↦ elim (Bool-cases stale) [
          | inl old ↦ absurd (cc (rw (sound, old, evaluate_drawdown) at h))
          | inr fresh ↦ record {
            within_drawdown = sound;
            fresh = ground arith;
            admitted =
                rw (sound, fresh, evaluate_drawdown)
                  (evaluate_position-IsAdmitted aid p snap o s refl
                    (rw (sound, fresh, evaluate_drawdown) at h));
          }
        ]
      ]
