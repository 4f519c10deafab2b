-- ===== src/Execution/Tests.antt =====
-- The stop-loss monitor on a portfolio with one position.
use multi_agent_trading_syst.Prelude.{
  ℕ, Option, ◌*◌, ◌/◌, ◌≡◌, refl, true, false, none, some, [], ◌∷◌, arith, if◌then◌else◌,
}
use multi_agent_trading_syst.Prelude.Int.{pos, ◌-ℤ◌, ◌+ℤ◌, ◌*ℤ◌}
use multi_agent_trading_syst.Prelude.Decimal.{Decimal, unit}
use multi_agent_trading_syst.Prelude.Dict.{get}
use multi_agent_trading_syst.Prelude.Fixed.{Fixed, fixed_float, one, div_fixed, fixed_of_decimal}
use multi_agent_trading_syst.Samples.{ids, kept}
use multi_agent_trading_syst.Broker.State.{Broker, get_positions}
use multi_agent_trading_syst.Broker.Invariant.{IsValid}
use multi_agent_trading_syst.Execution.Agent.{ExecutionAgent, monitor_cycle, current_price}
use multi_agent_trading_syst.Execution.Monitor.{is_due, examined, monitor_cycle-get}

abbrev holding : Broker
holding = record {
  paper_mode = true;
  cash_balance = pos (800 * unit);
  positions = (1, kept) ∷ [];
  filled_orders = [];
}

holding-IsValid : IsValid holding
holding-IsValid = record {
  one_per_symbol = (refl, tt);
  keyed = (refl, tt);
  cache_dict = tt;
  cache_bounded = omega arith;
}

-- The last price, 90 dollars, is a tenth below the entry.
abbrev agent : ExecutionAgent
agent = record { broker = holding; trading_halted = false; last_price = (1, pos (90 * unit)) ∷ [] }

abbrev stop : Fixed
stop = pos (2 * one / 100)

abbrev target : Fixed
target = pos (4 * one / 100)

abbrev price : ℕ → Option Decimal
price k = current_price (λ j. none) k agent

monitor_cycle-get_example :
    get 1 (monitor_cycle stop target (λ k. none) (λ k. ids) (λ k. false) agent).1.broker.positions
    ≡ (if is_due stop target price
          (λ k. ids)
          (λ k. false)
          1
          (examined stop target price (λ k. ids) (λ k. false) (get_positions holding))
        then none
        else some kept)
monitor_cycle-get_example =
    monitor_cycle-get stop target (λ k. none) (λ k. ids) (λ k. false) agent 1 holding-IsValid

-- The position is closed, although its result cannot be published.
stops :
    is_due stop target price
      (λ k. ids)
      (λ k. false)
      1
      (examined stop target price (λ k. ids) (λ k. false) (get_positions holding))
    ≡ true
unfolding current_price get_positions div_fixed fixed_of_decimal ◌-ℤ◌ ◌+ℤ◌ ◌*ℤ◌
stops = refl
