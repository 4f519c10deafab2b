-- ===== src/Risk/Latch.antt =====
-- Sequences of proposals and execution results, before and after a limit is breached
-- (agents/risk/agent.py, circuit_breaker.py).
use multi_agent_trading_syst.Prelude.{
  ℕ, ◌≡◌, refl, Bool, true, false, none, some, not, ◌&&◌, if◌then◌else◌, List, [], ◌∷◌, arith,
  Bool-cases, inl, inr, ◌||◌, All, All-map,
}
use multi_agent_trading_syst.Prelude.Dict.{has_key}
use multi_agent_trading_syst.Prelude.Float.{Float}
use multi_agent_trading_syst.Models.Trade.{
  TradeProposal, RiskAssessment, RejectionReason, RiskDecision, ExecutionResult,
}
use multi_agent_trading_syst.Risk.Drawdown.{PortfolioState, total_drawdown_limit_breached}
use multi_agent_trading_syst.Risk.Breaker.{
  HaltReason, CircuitBreaker, daily_loss, total_drawdown, trip,
}
use multi_agent_trading_syst.Risk.Agent.{
  RiskAgent, Verdict, HaltBus, Broadcast, emergency_halt, announced, Snapshot, evaluate_drawdown,
  evaluate, evaluate_daily, halts, reject, snapshot, apply_execution_result,
}
use multi_agent_trading_syst.Risk.Safety.{is_halted, daily_check, evaluate-halted, evaluate-trading}

-- What reaches the agent: a proposal, with the time and the id of its assessment, or a result.
pub data RiskEvent (F : Type 0) : Type 0 where
  proposed : ℕ → ℕ → TradeProposal F → RiskEvent F
  executed : ExecutionResult → RiskEvent F

module _ {F : Type 0} ⦃f : Float F⦄ where
  -- `run_loop` and `_track_execution_results` over a sequence of events: the final agent, and the
  -- assessments that it publishes.
  unfoldable pub handle : List (RiskEvent F) → RiskAgent F → RiskAgent F × List (RiskAssessment F)
  handle [] s = (s, [])
  handle (proposed now aid p ∷ es) s =
      let v = evaluate now aid p s in let (s', out) = handle es v.agent in (s', v.assessment ∷ out)
  handle (executed r ∷ es) s = handle es (apply_execution_result r s).1

  -- The assessment turns the order down because trading is halted.
  abbrev pub IsHaltRejection : RiskAssessment F → Type 0
  IsHaltRejection a =
      (a.decision ≡ RiskDecision.rejected)
      × (a.rejection_reason ≡ some RejectionReason.circuit_breaker_active)

  apply-keeps_halt :
      (r : ExecutionResult) (s : RiskAgent F)
      → is_halted (apply_execution_result r s).1 ≡ is_halted s
  unfolding apply_execution_result
  apply-keeps_halt r s = elim (Bool-cases (has_key r.result_id s.seen_results)) [
    | inl again ↦ rw again refl
    | inr new ↦ rw new refl
  ]

  -- Once trading is halted it stays so: through any further proposals and results every proposal is
  -- rejected for that reason, and the agent is still halted at the end.
  pub handle-halted :
      (es : List (RiskEvent F)) (s : RiskAgent F)
      → is_halted s ≡ true
      → let (s', out) = handle es s in (is_halted s' ≡ true) × All IsHaltRejection out
  unfolding handle reject
  handle-halted [] s h = (h, tt)
  handle-halted (proposed now aid p ∷ es) s h =
      let (still, rest) = handle-halted es s h in
      rw (evaluate-halted now aid p s h) (still, ((refl, refl), rest))
  handle-halted (executed r ∷ es) s h =
      handle-halted es (apply_execution_result r s).1 (rw (apply-keeps_halt r s) h)

-- The key is written if the bus is connected and takes the write; the override is published unless
-- that write or the publication fails.
abbrev pub IsAnnounced : HaltBus → HaltReason → Broadcast → Type 0
IsAnnounced bus why out =
    (out.halt_key ≡ (if bus.connected && bus.writes then some why else none))
    × (out.override
        ≡ (if (not bus.connected || bus.writes) && bus.publishes then some why else none))

emergency_halt-IsAnnounced :
    (bus : HaltBus) (why : HaltReason) → IsAnnounced bus why (emergency_halt bus why)
unfolding emergency_halt
emergency_halt-IsAnnounced bus why = elim (Bool-cases bus.connected) [
  | inr apart ↦ rw apart (refl, refl)
  | inl joined ↦ elim (Bool-cases bus.writes) [
    | inl written ↦ rw (joined, written) (refl, refl)
    | inr lost ↦ rw (joined, lost) (refl, refl)
  ]
]

trip-is_tripped :
    (why : HaltReason) (now : ℕ) (c : CircuitBreaker) → (trip why now c).is_tripped ≡ true
unfolding trip
trip-is_tripped why now c = ground arith

module _ {F : Type 0} ⦃f : Float F⦄ where
  -- A limit is breached when the proposal comes in: the daily one after the reset, or the total one.
  abbrev pub is_breached : ℕ → RiskAgent F → Bool
  is_breached now s =
      (daily_check now s).0
      || total_drawdown_limit_breached s.settings.max_total_drawdown_pct (daily_check now s).1

  -- The limit that the evaluation finds breached first.
  abbrev pub limit_breached : ℕ → RiskAgent F → HaltReason
  limit_breached now s = if (daily_check now s).0 then daily_loss else total_drawdown

  -- The proposal is turned down, for an emergency halt of this reason, and the agent is halted.
  record IsStop (why : HaltReason) (v : Verdict F) : Type 0 where
    pub rejected : v.assessment.decision ≡ RiskDecision.rejected
    pub emergency : v.emergency ≡ some why
    pub halted : v.agent.breaker.is_tripped ≡ true

  halts-IsStop :
      (now aid : ℕ) (p : TradeProposal F) (why : HaltReason) (r : RejectionReason)
      (snap : Snapshot F) (s : RiskAgent F)
      → IsStop why (halts now aid p why r snap s)
  unfolding halts reject
  halts-IsStop now aid p why r snap s = record {
    rejected = refl;
    emergency = refl;
    halted = trip-is_tripped why now s.breaker;
  }

  evaluate_daily-IsStop :
      (now aid : ℕ) (p : TradeProposal F) (snap : Snapshot F) (out : Bool × PortfolioState)
      (s : RiskAgent F)
      → (out.0 || total_drawdown_limit_breached s.settings.max_total_drawdown_pct out.1) ≡ true
      → IsStop (if out.0 then daily_loss else total_drawdown) (evaluate_daily now aid p snap out s)
  unfolding evaluate_daily evaluate_drawdown
  evaluate_daily-IsStop now aid p snap (true, ledger) s h =
      halts-IsStop now aid p daily_loss RejectionReason.daily_loss_limit snap
        (record s { portfolio = ledger })
  evaluate_daily-IsStop now aid p snap (false, ledger) s h =
      rw (h, evaluate_drawdown)
        (halts-IsStop now aid p total_drawdown RejectionReason.total_drawdown_limit snap
          (record s { portfolio = ledger }))

  evaluate-IsStop :
      (now aid : ℕ) (p : TradeProposal F) (s : RiskAgent F)
      → is_halted s ≡ false
      → is_breached now s ≡ true
      → IsStop (limit_breached now s) (evaluate now aid p s)
  evaluate-IsStop now aid p s trading h =
      rw (evaluate-trading now aid p s trading)
        (evaluate_daily-IsStop now aid p (snapshot s.portfolio) (daily_check now s) s h)

  -- From the proposal at which a limit is breached, nothing is approved any more: that proposal and
  -- all later ones are rejected, and the agent ends halted, however the bus behaves. With that proposal
  -- the breached limit is written to the halt key if the bus is connected and takes the write, and it is
  -- published as an override unless that write or the publication fails.
  pub handle-breached :
      (bus : HaltBus) (now aid : ℕ) (p : TradeProposal F) (es : List (RiskEvent F))
      (s : RiskAgent F)
      → is_halted s ≡ false
      → is_breached now s ≡ true
      → let (s', out) = handle (proposed now aid p ∷ es) s in
        IsAnnounced bus (limit_breached now s) (announced bus (evaluate now aid p s).emergency)
        × (is_halted s' ≡ true)
        × All (λ a. a.decision ≡ RiskDecision.rejected) out
  unfolding handle announced
  handle-breached bus now aid p es s trading h =
      let stop = evaluate-IsStop now aid p s trading h in
      let (still, rest) = handle-halted es (evaluate now aid p s).agent (rw stop.halted refl) in
      (
        rw stop.emergency (emergency_halt-IsAnnounced bus (limit_breached now s)),
        still,
        (stop.rejected, All-map (λ a. λ (r : IsHaltRejection a). r.0) _ rest),
      )
