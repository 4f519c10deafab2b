-- ===== src/Lifecycle/Base.antt =====
-- agents/base.py: `BaseAgent`. The text of an error is a number. Metrics, the heartbeat and the bus
-- connection are left out; what `setup` and `teardown` do is up to the agent.
use multi_agent_trading_syst.Prelude.{
  ℕ, ◌+◌, Bool, true, false, Option, none, some, List, [], ◌∷◌, leb, not, ◌&&◌, if◌then◌else◌,
}

-- core/models/system.py
pub data AgentStatus : Type 0 where
  starting running paused stopping stopped error quarantined : AgentStatus

pub record BaseAgent : Type 0 where
  pub status : AgentStatus
  pub stop_event : Bool
  pub consecutive_errors : ℕ
  pub total_errors : ℕ
  pub messages_processed : ℕ
  pub last_error : Option ℕ
  pub max_consecutive_errors : ℕ
  pub trading_halted : Bool

-- `__init__`
abbrev pub new_agent : ℕ → BaseAgent
new_agent max_agent_crashes = record {
  status = starting;
  stop_event = false;
  consecutive_errors = 0;
  total_errors = 0;
  messages_processed = 0;
  last_error = none;
  max_consecutive_errors = max_agent_crashes;
  trading_halted = false;
}

abbrev pub is_ended : AgentStatus → Bool
is_ended stopping = true
is_ended stopped = true
is_ended quarantined = true
is_ended _ = false

-- `_should_continue`
abbrev pub should_continue : BaseAgent → Bool
should_continue s = not s.stop_event && not (is_ended s.status)

-- `_record_success`
unfoldable pub record_success : BaseAgent → BaseAgent
record_success s = record s {
  consecutive_errors = 0;
  messages_processed = s.messages_processed + 1;
}

-- `_handle_error`
unfoldable pub handle_error : ℕ → BaseAgent → BaseAgent
handle_error text s =
    let counted = record s {
      consecutive_errors = s.consecutive_errors + 1;
      total_errors = s.total_errors + 1;
      last_error = some text;
    } in
    if leb s.max_consecutive_errors (s.consecutive_errors + 1)
    then record counted { status = quarantined; stop_event = true }
    else counted

-- What the read of the halt key gives: it raises, there is no key or an empty text, or a reason.
pub data Latch : Type 0 where
  unreadable unset set : Latch

-- `_load_halt_latch`
unfoldable pub load_halt_latch : Latch → BaseAgent → BaseAgent
load_halt_latch unreadable s = s
load_halt_latch unset s = s
load_halt_latch set s = record s { trading_halted = true }

-- `start`, when the bus connects and `setup` returns.
unfoldable pub start : Latch → BaseAgent → BaseAgent
unfolding load_halt_latch
start latch s =
    let s' = load_halt_latch latch (record s { status = starting }) in
    record s' { status = running }

-- `stop`, when `teardown` and the disconnect return.
unfoldable pub stop : BaseAgent → BaseAgent
stop s = record s { status = stopped; stop_event = true }

-- One override in `_risk_override_listener`, by whether it requires a human reset.
unfoldable pub on_override : Bool → BaseAgent → BaseAgent
unfolding stop
on_override true s = stop (record s { trading_halted = true })
on_override false s = record s { trading_halted = true }

-- How the handler of one message ends: it returns, or raises with a text.
pub data Handled : Type 0 where
  returned : Handled
  raised : ℕ → Handled

unfoldable pub after_message : Handled → BaseAgent → BaseAgent
unfolding record_success handle_error
after_message returned s = record_success s
after_message (raised text) s = handle_error text s

-- The loop of the consumers, such as `_consume_technical` of agents/decision/agent.py: each message is
-- handled unless the agent must not continue; then the loop is left.
unfoldable pub consume : List Handled → BaseAgent → BaseAgent
unfolding after_message
consume [] s = s
consume (m ∷ ms) s =
    let rest = consume ms (after_message m s) in if should_continue s then rest else s
