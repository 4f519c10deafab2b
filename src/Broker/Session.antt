-- ===== src/Broker/Session.antt =====
-- The paper broker between two tasks of the execution agent (agents/execution/agent.py): the order
-- loop, which sleeps inside `place_order`, and the stop-loss monitor, which closes positions and can
-- run during that sleep. The state is the broker, the order that sleeps, and the fills so far.
use multi_agent_trading_syst.Prelude.{
  ℕ, suc, ◌+◌, ◌*◌, ◌≤◌, Option, none, some, List, [], ◌∷◌, length,
}
use multi_agent_trading_syst.Prelude.Int.{pos, pos_part, neg_part, ◌+ℤ◌, int_laws, parts_of_eq}
use multi_agent_trading_syst.Prelude.Decimal.{Decimal, cent}
use multi_agent_trading_syst.Prelude.Float.{Float}
use multi_agent_trading_syst.Models.Trade.{RiskAssessment, ExecutionResult}
use multi_agent_trading_syst.Broker.State.{Broker}
use multi_agent_trading_syst.Broker.Order.{
  Result, ok, err, Draw, OrderIds, close_position, finish_order, begin_order, priced, cached,
  Started,
}
use multi_agent_trading_syst.Broker.Invariant.{
  IsValid, finish_order-IsValid, close_position-IsValid,
}
use multi_agent_trading_syst.Broker.Equity.{
  equity, Accounts, Closes, Reports, finish_order-Accounts, close_position-Closes,
}

-- What the two tasks can do next.
pub data Event (F : Type 0) : Type 0 where
  -- The order loop takes an assessment and comes to its sleep.
  begin : RiskAssessment F → Event F
  -- The sleep is over.
  finish : Draw → ℕ → Event F
  -- The monitor closes a position.
  monitor_close : ℕ → Option Decimal → OrderIds → Event F

pub record Session (F : Type 0) : Type 0 where
  pub broker : Broker
  pub sleeping : Option (RiskAssessment F × ℕ)
  pub fills : List ExecutionResult

module _ {F : Type 0} where
  abbrev after_order : Session F → Result ExecutionResult × Broker → Session F
  after_order s (err _, b) = record { broker = b; sleeping = none; fills = s.fills }
  after_order s (ok r, b) = record { broker = b; sleeping = none; fills = r ∷ s.fills }

  abbrev after_close : Session F → Option ExecutionResult × Broker → Session F
  after_close s (none, b) = record s { broker = b }
  after_close s (some r, b) = record s { broker = b; fills = r ∷ s.fills }

  abbrev after_begin : Session F → RiskAssessment F → Started → Session F
  after_begin s a (priced (ok ref)) = record s { sleeping = some (a, ref) }
  after_begin s a _ = s

  abbrev after_sleep : Session F → Draw → ℕ → Option (RiskAssessment F × ℕ) → Session F
  after_sleep s d rid none = s
  after_sleep s d rid (some (a, ref)) = after_order s (finish_order a ref d rid s.broker)

module _ {F : Type 0} ⦃f : Float F⦄ where
  -- An order that is cached or refused ends at once; while one sleeps the loop takes no other.
  abbrev begin_if_idle : Session F → RiskAssessment F → Option (RiskAssessment F × ℕ) → Session F
  begin_if_idle s a (some _) = s
  begin_if_idle s a none = after_begin s a (begin_order a s.broker)

  unfoldable pub step : Event F → Session F → Session F
  step (begin a) s = begin_if_idle s a s.sleeping
  step (finish d rid) s = after_sleep s d rid s.sleeping
  step (monitor_close symbol price ids) s = after_close s (close_position symbol price ids s.broker)

  unfoldable pub run : List (Event F) → Session F → Session F
  unfolding step
  run [] s = s
  run (e ∷ es) s = run es (step e s)

-- The PnL that fills report, and how many report one.
abbrev pub pnl_of : Option Decimal → Decimal
pnl_of none = pos 0
pnl_of (some d) = d

abbrev pub total_pnl : List ExecutionResult → Decimal
total_pnl [] = pos 0
total_pnl (r ∷ rs) = pnl_of r.realized_pnl_usd +ℤ total_pnl rs

-- Twice the distance of two amounts is at most n cents.
abbrev pub IsWithinHalfCents : ℕ → Decimal → Decimal → Type 0
IsWithinHalfCents n x y =
    (2 * (pos_part x + neg_part y) ≤ 2 * (pos_part y + neg_part x) + n * cent)
    × (2 * (pos_part y + neg_part x) ≤ 2 * (pos_part x + neg_part y) + n * cent)

-- What holds of a session that began with a given equity.
pub record IsSound {F : Type 0} (start : Decimal) (s : Session F) : Type 0 where
  pub valid : IsValid s.broker
  pub balanced : IsWithinHalfCents (length s.fills) (start +ℤ total_pnl s.fills) (equity s.broker)

fill-balanced :
    (start : Decimal) (r : Option Decimal) (total : Decimal) (n : ℕ) (b b' : Broker)
    → Reports r b b'
    → IsWithinHalfCents n (start +ℤ total) (equity b)
    → IsWithinHalfCents (suc n) (start +ℤ (pnl_of r +ℤ total)) (equity b')
fill-balanced start none total n b b' same h = omega (int_laws, parts_of_eq same, h)
fill-balanced start (some pnl) total n b b' near h = omega (int_laws, near, h)

module _ {F : Type 0} (start : Decimal) where
  after_order-IsSound :
      (s : Session F) (out : Result ExecutionResult × Broker)
      → IsSound start s
      → IsValid out.1
      → Accounts s.broker out
      → IsSound start (after_order s out)
  after_order-IsSound s (err e, b) h v same = record { valid = v; balanced = rw same h.balanced }
  after_order-IsSound s (ok r, b) h v acc = record {
    valid = v;
    balanced =
        fill-balanced start r.realized_pnl_usd (total_pnl s.fills) (length s.fills) s.broker b acc
          h.balanced;
  }

  after_close-IsSound :
      (s : Session F) (out : Option ExecutionResult × Broker)
      → IsSound start s
      → IsValid out.1
      → Closes s.broker out
      → IsSound start (after_close s out)
  after_close-IsSound s (none, b) h v same = record { valid = v; balanced = rw same h.balanced }
  after_close-IsSound s (some r, b) h v acc = record {
    valid = v;
    balanced =
        fill-balanced start r.realized_pnl_usd (total_pnl s.fills) (length s.fills) s.broker b acc
          h.balanced;
  }

  after_begin-IsSound :
      (s : Session F) (a : RiskAssessment F) (t : Started)
      → IsSound start s
      → IsSound start (after_begin s a t)
  after_begin-IsSound s a (cached r) h = h
  after_begin-IsSound s a (priced (err e)) h = h
  after_begin-IsSound s a (priced (ok ref)) h = record { valid = h.valid; balanced = h.balanced }

  after_sleep-IsSound :
      (s : Session F) (d : Draw) (rid : ℕ) (o : Option (RiskAssessment F × ℕ))
      → IsSound start s
      → IsSound start (after_sleep s d rid o)
  after_sleep-IsSound s d rid none h = h
  after_sleep-IsSound s d rid (some (a, ref)) h =
      after_order-IsSound s _ h (finish_order-IsValid a ref d rid s.broker h.valid)
        (finish_order-Accounts a ref d rid s.broker)

module _ {F : Type 0} ⦃f : Float F⦄ (start : Decimal) where
  begin_if_idle-IsSound :
      (s : Session F) (a : RiskAssessment F) (o : Option (RiskAssessment F × ℕ))
      → IsSound start s
      → IsSound start (begin_if_idle s a o)
  begin_if_idle-IsSound s a (some _) h = h
  begin_if_idle-IsSound s a none h = after_begin-IsSound start s a (begin_order a s.broker) h

  step-IsSound : (e : Event F) (s : Session F) → IsSound start s → IsSound start (step e s)
  unfolding step
  step-IsSound (begin a) s h = begin_if_idle-IsSound s a s.sleeping h
  step-IsSound (finish d rid) s h = after_sleep-IsSound start s d rid s.sleeping h
  step-IsSound (monitor_close symbol price ids) s h =
      after_close-IsSound start s _ h (close_position-IsValid symbol price ids s.broker h.valid)
        (close_position-Closes symbol price ids s.broker)

  -- However the order loop and the stop-loss monitor interleave, also when the monitor closes
  -- positions while an order sleeps: the portfolio stays valid, and the equity is the equity at the
  -- start plus the PnL that all fills reported, up to half a cent for each fill.
  pub run-IsSound :
      (es : List (Event F)) (s : Session F) → IsSound start s → IsSound start (run es s)
  unfolding run
  run-IsSound [] s h = h
  run-IsSound (e ∷ es) s h = run-IsSound es (step e s) (step-IsSound e s h)
