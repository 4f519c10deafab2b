-- ===== src/Monitoring/Agent.antt =====
-- agents/monitoring/agent.py: the heartbeat listener, the staleness check, the routing of alerts and
-- the health endpoint. Alerts are collected in the order of raising.
use multi_agent_trading_syst.Prelude.{
  ℕ, ◌+◌, Bool, true, false, not, ◌&&◌, Option, none, some, List, [], ◌∷◌, ◌++◌, ◌==◌,
  if◌then◌else◌, length, map,
}
use multi_agent_trading_syst.Prelude.Dict.{Dict, get, put}
use multi_agent_trading_syst.Lifecycle.Base.{AgentStatus}
use multi_agent_trading_syst.Monitoring.Registry.{
  AlertType, AlertSeverity, SystemAlert, AgentHeartbeat, AgentRecord, AgentView, new_record, update,
  is_stale, is_alert_on_cooldown, to_dict,
}

-- `checking` is whether the task of the staleness checker still runs.
pub record MonitoringAgent : Type 0 where
  pub agents : Dict AgentRecord
  pub alerts : List SystemAlert
  pub checking : Bool

abbrev pub new_monitor : MonitoringAgent
new_monitor = record { agents = []; alerts = []; checking = true }

-- `_raise_alert` sets the time of the record; a failed publication is only logged.
abbrev pub alerted : ℕ → AgentRecord → AgentRecord
alerted now r = record r { last_alert_at = some now }

abbrev pub record_or_new : ℕ → Option AgentRecord → AgentRecord
record_or_new name none = new_record name
record_or_new name (some r) = r

abbrev pub crash_alert : ℕ → ℕ → ℕ → SystemAlert
crash_alert now name missed = record {
  alert_type = AlertType.agent_crash;
  severity = AlertSeverity.critical;
  timestamp = now;
  agent_name = some name;
  consecutive_missed = missed;
}

abbrev pub is_quarantined : AgentStatus → Bool
is_quarantined AgentStatus.quarantined = true
is_quarantined _ = false

-- `_process_heartbeat`
unfoldable pub process_heartbeat : ℕ → AgentHeartbeat → MonitoringAgent → MonitoringAgent
process_heartbeat now heartbeat s =
    let name = heartbeat.agent_name in
    let r = update now heartbeat (record_or_new name (get name s.agents)) in
    if is_quarantined heartbeat.status
    then record s {
      agents = put name (alerted now r) s.agents;
      alerts = s.alerts ++ (crash_alert now name r.consecutive_missed ∷ []);
    }
    else record s { agents = put name r s.agents }

abbrev pub stale_alert : ℕ → ℕ → ℕ → SystemAlert
stale_alert now name missed = record {
  alert_type = AlertType.agent_stale;
  severity = AlertSeverity.critical;
  timestamp = now;
  agent_name = some name;
  consecutive_missed = missed;
}

abbrev pub missed : AgentRecord → AgentRecord
missed r = record r { consecutive_missed = r.consecutive_missed + 1 }

-- The body of the loop over the agents.
unfoldable pub check_agent : ℕ → ℕ → ℕ → ℕ → AgentRecord → AgentRecord × List SystemAlert
check_agent own timeout now name r =
    if name == own
    then (r, [])
    else if is_stale timeout now r
    then (if is_alert_on_cooldown now (missed r)
        then (missed r, [])
        else (alerted now (missed r), stale_alert now name (r.consecutive_missed + 1) ∷ []))
    else (r, [])

-- What comes about during a round of checks: when each agent is looked at, and the heartbeats that are
-- received while the alert about it is sent, each at its time.
pub record Round : Type 0 where
  pub at_time : ℕ → ℕ
  pub arriving : ℕ → List (ℕ × AgentHeartbeat)

unfoldable pub process_heartbeats : List (ℕ × AgentHeartbeat) → MonitoringAgent → MonitoringAgent
unfolding process_heartbeat
process_heartbeats [] s = s
process_heartbeats ((now, h) ∷ hs) s = process_heartbeats hs (process_heartbeat now h s)

-- The heartbeats of the time in which the alert is sent, if there is one.
unfoldable pub while_sending :
    List SystemAlert → List (ℕ × AgentHeartbeat) → MonitoringAgent → MonitoringAgent
unfolding process_heartbeats
while_sending [] hs s = s
while_sending (_ ∷ _) hs s = process_heartbeats hs s

-- One pass through the loop: the record is changed in place.
unfoldable pub check_record :
    ℕ → ℕ → Round → ℕ → Option AgentRecord → MonitoringAgent → MonitoringAgent
unfolding check_agent while_sending
check_record own timeout round name none s = s
check_record own timeout round name (some r) s =
    let (r', raised) = check_agent own timeout (round.at_time name) name r in
    while_sending raised (round.arriving name)
      (record s { agents = put name r' s.agents; alerts = s.alerts ++ raised })

-- The loop over the agents that were known at its start. Python raises a RuntimeError when a dict has
-- changed its size since the iteration began, and nothing catches it: the checker ends.
unfoldable pub check_names : ℕ → ℕ → Round → ℕ → List ℕ → MonitoringAgent → MonitoringAgent
unfolding check_record
check_names own timeout round count [] s = s
check_names own timeout round count (name ∷ names) s =
    let s' = check_record own timeout round name (get name s.agents) s in
    let rest = check_names own timeout round count names s' in
    if length s'.agents == count then rest else record s' { checking = false }

-- One round of `_staleness_check_loop`.
unfoldable pub check_staleness : ℕ → ℕ → Round → MonitoringAgent → MonitoringAgent
unfolding check_names
check_staleness own timeout round s =
    if s.checking
    then check_names own timeout round (length s.agents) (map (λ e. e.0) s.agents) s
    else s

-- What can happen to the agent: a heartbeat at a time, or a round of checks.
pub data MonitorEvent : Type 0 where
  heartbeat : (now : ℕ) → AgentHeartbeat → MonitorEvent
  check : Round → MonitorEvent

unfoldable pub after_event : ℕ → ℕ → MonitorEvent → MonitoringAgent → MonitoringAgent
unfolding process_heartbeat check_staleness
after_event own timeout (heartbeat now h) s = process_heartbeat now h s
after_event own timeout (check round) s = check_staleness own timeout round s

abbrev pub after_events : ℕ → ℕ → List MonitorEvent → MonitoringAgent → MonitoringAgent
after_events own timeout [] s = s
after_events own timeout (e ∷ es) s = after_events own timeout es (after_event own timeout e s)

-- Where an alert goes: `_route_alert`, to the log and, if it is configured, to Slack.
pub data Route : Type 0 where
  log_info log_warning log_critical slack : Route

abbrev log_route : AlertSeverity → Route
log_route AlertSeverity.info = log_info
log_route AlertSeverity.warning = log_warning
log_route AlertSeverity.critical = log_critical

unfoldable pub route_alert : Bool → SystemAlert → List Route
route_alert has_webhook a = log_route a.severity ∷ (if has_webhook then slack ∷ [] else [])

-- An alert that the agent raises itself also comes back over `system.alert`, where it listens.
unfoldable pub routes_of_raised : Bool → SystemAlert → List Route
unfolding route_alert
routes_of_raised has_webhook a = route_alert has_webhook a ++ route_alert has_webhook a

-- The names of the stale agents, with the one that is left out, if any.
abbrev pub is_name : Option ℕ → ℕ → Bool
is_name none n = false
is_name (some k) n = n == k

unfoldable pub stale_names : Option ℕ → ℕ → ℕ → Dict AgentRecord → List ℕ
stale_names own timeout now [] = []
stale_names own timeout now (e ∷ d) =
    let rest = stale_names own timeout now d in
    if is_stale timeout now e.1 && not (is_name own e.0) then e.0 ∷ rest else rest

pub record Health : Type 0 where
  pub status : ℕ
  pub agent_count : ℕ
  pub stale_agents : List ℕ

abbrev status_of : List ℕ → ℕ
status_of [] = 200
status_of (_ ∷ _) = 503

-- `_handle_health`
unfoldable pub handle_health : ℕ → ℕ → ℕ → MonitoringAgent → Health
unfolding stale_names
handle_health own timeout now s =
    let stale_agents = stale_names (some own) timeout now s.agents in
    record {
      status = status_of stale_agents;
      agent_count = length s.agents;
      stale_agents = stale_agents;
    }

-- `_handle_agents`
unfoldable pub handle_agents : ℕ → MonitoringAgent → List (ℕ × AgentView)
unfolding to_dict
handle_agents now s = map (λ e. (e.0, to_dict now e.1)) s.agents

-- `health_extra`, which counts the monitoring agent itself.
unfoldable pub health_extra : ℕ → ℕ → MonitoringAgent → ℕ × List ℕ
unfolding stale_names
health_extra timeout now s = (length s.agents, stale_names none timeout now s.agents)
