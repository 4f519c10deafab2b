-- ===== src/Monitoring/Tests.antt =====
-- The monitoring agent on concrete heartbeats: runs, and the theorem at an input that meets its
-- hypotheses.
use multi_agent_trading_syst.Prelude.{
  ℕ, ◌*◌, ◌^◌, ◌≡◌, refl, true, false, some, none, List, [], ◌∷◌, arith, if◌then◌else◌, ◌==◌,
}
use multi_agent_trading_syst.Lifecycle.Base.{AgentStatus}
use multi_agent_trading_syst.Monitoring.Registry.{AgentRecord, is_stale, is_alert_on_cooldown}
use multi_agent_trading_syst.Monitoring.Agent.{
  MonitorEvent, Round, heartbeat, check, new_monitor, after_event, after_events, check_staleness,
  check_names, check_record, while_sending, process_heartbeats, crash_alert, stale_alert,
  log_critical, slack, routes_of_raised, process_heartbeat, check_agent, handle_health,
}
use multi_agent_trading_syst.Monitoring.Silence.{IsNoticed, silence-IsNoticed}

abbrev second : ℕ
second = 10 ^ 6

-- The agent 1, alive at its first second.
abbrev alive : List MonitorEvent
alive = heartbeat second (record { agent_name = 1; status = AgentStatus.running }) ∷ []

abbrev last_record : AgentRecord
last_record = record {
  name = 1;
  last_heartbeat = some (record { agent_name = 1; status = AgentStatus.running });
  last_seen_at = some second;
  status = AgentStatus.running;
  consecutive_missed = 0;
  total_heartbeats = 1;
  last_alert_at = none;
}

-- A round at one time in which no heartbeat arrives.
abbrev quiet : ℕ → Round
quiet now = record { at_time = λ k. now; arriving = λ k. [] }

-- The agent 2 is heard of for the first time while the alert about the agent 1 is sent.
abbrev newcomer : ℕ → Round
newcomer now = record {
  at_time = λ k. now;
  arriving = λ k.
      if k == 1 then (now, record { agent_name = 2; status = AgentStatus.running }) ∷ [] else [];
}

-- The second alert about the same silence waits for the cooldown.
abbrev checks : List MonitorEvent
checks =
    check (quiet (100 * second)) ∷ check (quiet (200 * second)) ∷ check (quiet (400 * second)) ∷ []

two_alerts :
    (after_events 0 90
      (heartbeat second (record { agent_name = 1; status = AgentStatus.running }) ∷ checks)
      new_monitor).alerts
    ≡ stale_alert (100 * second) 1 1 ∷ stale_alert (400 * second) 1 3 ∷ []
unfolding after_event process_heartbeat check_staleness check_names check_record while_sending
    process_heartbeats check_agent is_stale is_alert_on_cooldown
two_alerts = refl

-- An alert of the agent itself is routed twice.
routed_twice :
    routes_of_raised true (crash_alert 0 1 0) ≡ log_critical ∷ slack ∷ log_critical ∷ slack ∷ []
unfolding routes_of_raised
routed_twice = refl

newcomer_ends_checker :
    (check_staleness 0 90 (newcomer (100 * second)) (after_events 0 90 alive new_monitor)).checking
    ≡ false
unfolding after_event process_heartbeat check_staleness check_names check_record while_sending
    process_heartbeats check_agent is_stale is_alert_on_cooldown
newcomer_ends_checker = refl

silence-IsNoticed_example :
    IsNoticed 1
      (100 * second)
      (check_staleness 0 90 (quiet (100 * second)) (after_events 0 90 alive new_monitor)).alerts
    × ((handle_health 0 90 (100 * second) (after_events 0 90 alive new_monitor)).status ≡ 503)
unfolding after_event process_heartbeat check_staleness check_names check_record while_sending
    process_heartbeats check_agent is_stale is_alert_on_cooldown
silence-IsNoticed_example =
    silence-IsNoticed 0 90 1 second (quiet (100 * second)) alive last_record (λ e. omega (arith, e))
      refl refl (omega arith) (λ k. tt) refl
