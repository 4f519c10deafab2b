-- ===== src/Risk/Breaker.antt =====
-- agents/risk/circuit_breaker.py
use multi_agent_trading_syst.Prelude.{ℕ, Bool, true, false, Option, none, some, if◌then◌else◌}

-- Which limit was breached: the reason that is recorded and broadcast.
pub data HaltReason : Type 0 where
  daily_loss total_drawdown : HaltReason

pub record CircuitBreaker : Type 0 where
  pub is_tripped : Bool
  pub reason : Option HaltReason
  pub tripped_at : Option ℕ

unfoldable pub closed_breaker : CircuitBreaker
closed_breaker = record { is_tripped = false; reason = none; tripped_at = none }

-- Only the first trip is recorded.
unfoldable pub trip : HaltReason → ℕ → CircuitBreaker → CircuitBreaker
trip reason now c =
    if c.is_tripped
    then c
    else record { is_tripped = true; reason = some reason; tripped_at = some now }

unfoldable pub reset : CircuitBreaker → CircuitBreaker
unfolding closed_breaker
reset c = closed_breaker
