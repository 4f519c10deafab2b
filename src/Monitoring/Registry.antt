-- ===== src/Monitoring/Registry.antt =====
-- agents/monitoring/agent.py: the record of a watched agent, and the alerts (core/models/system.py).
-- Times are in microseconds, timeouts in seconds.
use multi_agent_trading_syst.Prelude.{ℕ, ◌+◌, ◌-◌, ◌*◌, ◌^◌, Bool, false, Option, none, some, ltb}
use multi_agent_trading_syst.Lifecycle.Base.{AgentStatus}

pub data AlertType : Type 0 where
  agent_crash agent_stale daily_loss_threshold drawdown_threshold stale_market_data : AlertType
  circuit_breaker_tripped order_rejected exchange_connection_lost : AlertType

pub data AlertSeverity : Type 0 where
  info warning critical : AlertSeverity

-- The number in the message of a staleness alert is `consecutive_missed`.
pub record SystemAlert : Type 0 where
  pub alert_type : AlertType
  pub severity : AlertSeverity
  pub timestamp : ℕ
  pub agent_name : Option ℕ
  pub consecutive_missed : ℕ

pub record AgentHeartbeat : Type 0 where
  pub agent_name : ℕ
  pub status : AgentStatus

pub record AgentRecord : Type 0 where
  pub name : ℕ
  pub last_heartbeat : Option AgentHeartbeat
  pub last_seen_at : Option ℕ
  pub status : AgentStatus
  pub consecutive_missed : ℕ
  pub total_heartbeats : ℕ
  pub last_alert_at : Option ℕ

abbrev pub new_record : ℕ → AgentRecord
new_record name = record {
  name = name;
  last_heartbeat = none;
  last_seen_at = none;
  status = AgentStatus.starting;
  consecutive_missed = 0;
  total_heartbeats = 0;
  last_alert_at = none;
}

-- `AgentRecord.update`
abbrev pub update : ℕ → AgentHeartbeat → AgentRecord → AgentRecord
update now heartbeat r = record r {
  last_heartbeat = some heartbeat;
  last_seen_at = some now;
  status = heartbeat.status;
  consecutive_missed = 0;
  total_heartbeats = r.total_heartbeats + 1;
}

-- `age_seconds`, in microseconds.
abbrev pub age : ℕ → Option ℕ → Option ℕ
age now none = none
age now (some t) = some (now - t)

abbrev longer_than : ℕ → Option ℕ → Bool
longer_than limit none = false
longer_than limit (some a) = ltb limit a

-- `is_stale`
unfoldable pub is_stale : ℕ → ℕ → AgentRecord → Bool
is_stale timeout now r = longer_than (timeout * 10 ^ 6) (age now r.last_seen_at)

abbrev pub cooldown : ℕ
cooldown = 300 * 10 ^ 6

abbrev pub shorter_than_cooldown : Option ℕ → Bool
shorter_than_cooldown none = false
shorter_than_cooldown (some a) = ltb a cooldown

-- `is_alert_on_cooldown`
unfoldable pub is_alert_on_cooldown : ℕ → AgentRecord → Bool
is_alert_on_cooldown now r = shorter_than_cooldown (age now r.last_alert_at)

-- `to_dict`: the age is left out where it is zero.
pub record AgentView : Type 0 where
  pub name : ℕ
  pub status : AgentStatus
  pub last_seen_ago : Option ℕ
  pub consecutive_missed_heartbeats : ℕ
  pub total_heartbeats : ℕ
  pub view_is_stale : Bool

abbrev nonzero : Option ℕ → Option ℕ
nonzero (some ℕ.zero) = none
nonzero o = o

unfoldable pub to_dict : ℕ → AgentRecord → AgentView
unfolding is_stale
to_dict now r = record {
  name = r.name;
  status = r.status;
  last_seen_ago = nonzero (age now r.last_seen_at);
  consecutive_missed_heartbeats = r.consecutive_missed;
  total_heartbeats = r.total_heartbeats;
  view_is_stale = is_stale (30 * 3) now r;
}
