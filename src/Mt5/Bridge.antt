-- ===== src/Mt5/Bridge.antt =====
-- agents/execution/mt5_bridge.py: the queue of commands, the waiting callers and the HTTP handlers.
use multi_agent_trading_syst.Prelude.{
  ℕ, ◌-◌, ◌*◌, ◌^◌, Bool, false, Option, none, some, List, [], ◌∷◌, ◌++◌, ltb,
}
use multi_agent_trading_syst.Prelude.Int.{pos}
use multi_agent_trading_syst.Prelude.Decimal.{Decimal}
use multi_agent_trading_syst.Prelude.Dict.{Dict, get, put, remove}
use multi_agent_trading_syst.Models.Trade.{OrderSide}
use multi_agent_trading_syst.Mt5.Mapper.{SymbolMapper, to_python}
use multi_agent_trading_syst.Mt5.Orders.{Command, Response}

pub record BrokerBalance : Type 0 where
  pub total_equity_usd : Decimal
  pub free_margin_usd : Decimal
  pub used_margin_usd : Decimal

-- A position as the terminal posts it, and as the bridge passes it on.
pub record Mt5Position : Type 0 where
  pub symbol : ℕ
  pub side : OrderSide
  pub quantity : Decimal
  pub entry_price : Decimal
  pub current_price : Decimal
  pub unrealised_pnl : Decimal
  pub stop_loss : Option Decimal
  pub take_profit : Option Decimal
  pub ticket : ℕ

pub record AccountState : Type 0 where
  pub balance : Option BrokerBalance
  pub positions : List Mt5Position

-- The future of a caller: it waits, or it was cancelled by its timeout.
pub data Waiter : Type 0 where
  waiting cancelled : Waiter

pub record Bridge (F : Type 0) : Type 0 where
  pub command_queue : List (ℕ × Command F)
  pub result_futures : Dict Waiter
  pub cached_state : AccountState
  pub last_heartbeat_at : Option ℕ

-- The caller that gets a result: none if it is unknown or its future is done.
abbrev pub resolved : Response → Option Waiter → Option Response
resolved r none = none
resolved r (some cancelled) = none
resolved r (some waiting) = some r

abbrev cancelled_at : ℕ → Dict Waiter → Option Waiter → Dict Waiter
cancelled_at id d (some waiting) = put id cancelled d
cancelled_at id d _ = d

abbrev pub cancelled_in : ℕ → Dict Waiter → Dict Waiter
cancelled_in id d = cancelled_at id d (get id d)

module _ {F : Type 0} where
  abbrev pub new_bridge : Bridge F
  new_bridge = record {
    command_queue = [];
    result_futures = [];
    cached_state = record { balance = none; positions = [] };
    last_heartbeat_at = none;
  }

  -- `_enqueue_and_wait` up to its wait.
  abbrev pub enqueue : ℕ → Command F → Bridge F → Bridge F
  enqueue id command b = record b {
    result_futures = put id waiting b.result_futures;
    command_queue = b.command_queue ++ ((id, command) ∷ []);
  }

  -- `wait_for` at the timeout cancels a future that still waits, and then its caller takes it out.
  abbrev pub cancel : ℕ → Bridge F → Bridge F
  cancel id b = record b { result_futures = cancelled_in id b.result_futures }

  abbrev pub expire : ℕ → Bridge F → Bridge F
  expire id b = record b { result_futures = remove id b.result_futures }

  abbrev poll_queue : List (ℕ × Command F) → Bridge F → Option (ℕ × Command F) × Bridge F
  poll_queue [] b = (none, b)
  poll_queue (c ∷ cs) b = (some c, record b { command_queue = cs })

  -- `_handle_command`: `none` is the empty status.
  unfoldable pub handle_command : Bridge F → Option (ℕ × Command F) × Bridge F
  handle_command b = poll_queue b.command_queue b

  -- `_handle_result`: `none` stands for a body that is no JSON, which is answered by 400.
  unfoldable pub handle_result : Option Response → Bridge F → Option Response × Bridge F
  handle_result none b = (none, b)
  handle_result (some r) b = (
    resolved r (get r.command_id b.result_futures),
    record b { result_futures = remove r.command_id b.result_futures },
  )

  -- `_handle_state` at the monotonic time `now`.
  unfoldable pub handle_state : ℕ → Option AccountState → Bridge F → Bridge F
  handle_state now none b = b
  handle_state now (some body) b = record b { cached_state = body; last_heartbeat_at = some now }

abbrev is_recent : ℕ → Option ℕ → Bool
is_recent now none = false
is_recent now (some t) = ltb (now - t) (5 * 10 ^ 6)

module _ {F : Type 0} where
  -- `ping`: a heartbeat less than five seconds ago.
  abbrev pub ping : ℕ → Bridge F → Bool
  ping now b = is_recent now b.last_heartbeat_at

  -- `get_balance`: `none` is its ExchangeConnectionError.
  abbrev pub get_balance : Bridge F → Option BrokerBalance
  get_balance b = b.cached_state.balance

abbrev or_symbol : ℕ → Option ℕ → ℕ
or_symbol symbol none = symbol
or_symbol symbol (some s) = s

-- `Decimal(str(sl)) if sl else None`
abbrev if_set : Option Decimal → Option Decimal
if_set none = none
if_set (some (pos ℕ.zero)) = none
if_set (some x) = some x

abbrev pub broker_position : SymbolMapper → Mt5Position → Mt5Position
broker_position m p = record p {
  symbol = or_symbol p.symbol (to_python m p.symbol);
  stop_loss = if_set p.stop_loss;
  take_profit = if_set p.take_profit;
}

abbrev pub broker_positions : SymbolMapper → List Mt5Position → List Mt5Position
broker_positions m [] = []
broker_positions m (p ∷ ps) = broker_position m p ∷ broker_positions m ps

module _ {F : Type 0} where
  -- `get_positions`
  abbrev pub get_positions : SymbolMapper → Bridge F → List Mt5Position
  get_positions m b = broker_positions m b.cached_state.positions
