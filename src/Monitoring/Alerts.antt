-- ===== src/Monitoring/Alerts.antt =====
-- What becomes of an agent that has fallen silent (agents/monitoring/agent.py).
use multi_agent_trading_syst.Prelude.{
  ℕ, ◌+◌, ◌≡◌, refl, Bool, true, false, ◌&&◌, ◌||◌, Option, none, some, List, [], ◌∷◌, ◌++◌, arith,
  ◌==◌, Bool-cases, Option-cases, inl, inr, length, map,
}
use multi_agent_trading_syst.Prelude.Dict.{Dict, get, put}
use multi_agent_trading_syst.Monitoring.Registry.{
  SystemAlert, AgentHeartbeat, AgentRecord, is_stale, is_alert_on_cooldown,
}
use multi_agent_trading_syst.Monitoring.Agent.{
  MonitoringAgent, Round, MonitorEvent, heartbeat, check, record_or_new, is_quarantined,
  crash_alert, process_heartbeat, process_heartbeats, while_sending, check_agent, check_record,
  check_names, check_staleness, after_event, after_events, stale_alert, missed,
}

abbrev concerns : ℕ → Option ℕ → Bool
concerns name none = false
concerns name (some n) = name == n

-- An alert about this agent was raised at this time.
abbrev pub is_alerted : ℕ → ℕ → List SystemAlert → Bool
is_alerted name t [] = false
is_alerted name t (a ∷ xs) =
    (concerns name a.agent_name && t == a.timestamp) || is_alerted name t xs

pub is_alerted-append :
    (name t : ℕ) (xs ys : List SystemAlert)
    → is_alerted name t (xs ++ ys) ≡ (is_alerted name t xs || is_alerted name t ys)
is_alerted-append name t [] ys = refl
is_alerted-append name t (a ∷ xs) ys = ground (arith, is_alerted-append name t xs ys)

-- The time that a record keeps is that of an alert that was raised.
abbrev pub IsLoggedAt : ℕ → Option ℕ → List SystemAlert → Type 0
IsLoggedAt name none xs = Unit
IsLoggedAt name (some t) xs = is_alerted name t xs ≡ true

abbrev pub IsLogged : Dict AgentRecord → List SystemAlert → Type 0
IsLogged [] xs = Unit
IsLogged (e ∷ d) xs = IsLoggedAt e.0 e.1.last_alert_at xs × IsLogged d xs

pub IsLoggedAt-append :
    (name : ℕ) (t : Option ℕ) (xs ys : List SystemAlert)
    → IsLoggedAt name t xs
    → IsLoggedAt name t (xs ++ ys)
IsLoggedAt-append name none xs ys h = tt
IsLoggedAt-append name (some t) xs ys h = ground (arith, is_alerted-append name t xs ys)

pub IsLogged-append :
    (d : Dict AgentRecord) (xs ys : List SystemAlert) → IsLogged d xs → IsLogged d (xs ++ ys)
IsLogged-append [] xs ys h = tt
IsLogged-append (e ∷ d) xs ys (h, hs) =
    (IsLoggedAt-append e.0 e.1.last_alert_at xs ys h, IsLogged-append d xs ys hs)

pub put-IsLogged :
    (name : ℕ) (r : AgentRecord) (d : Dict AgentRecord) (xs : List SystemAlert)
    → IsLoggedAt name r.last_alert_at xs
    → IsLogged d xs
    → IsLogged (put name r d) xs
put-IsLogged name r [] xs h hs = (h, tt)
put-IsLogged name r (e ∷ d) xs h (k, ks) = elim (Bool-cases (name == e.0)) [
  | inl same ↦ rw same (h, ks)
  | inr other ↦ rw other (k, put-IsLogged name r d xs h ks)
]

pub get-IsLoggedAt :
    (name : ℕ) (r : AgentRecord) (d : Dict AgentRecord) (xs : List SystemAlert)
    → get name d ≡ some r
    → IsLogged d xs
    → IsLoggedAt name r.last_alert_at xs
get-IsLoggedAt name r [] xs h k = absurd (ground arith)
get-IsLoggedAt name r (e ∷ d) xs h (k, ks) = elim (Bool-cases (name == e.0)) [
  | inl same ↦
      let key : name ≡ e.0 = ground (arith, same) in
      let found : some e.1 ≡ some r = rw same at h in
      let it : e.1 ≡ r = ground (arith, found) in rw (key, ← it) k
  | inr other ↦ get-IsLoggedAt name r d xs (rw other at h) ks
]

pub is_alerted_here :
    (name now : ℕ) (a : SystemAlert) (xs ys : List SystemAlert)
    → a.agent_name ≡ some name
    → a.timestamp ≡ now
    → is_alerted name now (xs ++ (a ∷ ys)) ≡ true
is_alerted_here name now a xs ys of_name of_time =
    let split = is_alerted-append name now xs (a ∷ ys) in
    let here : concerns name a.agent_name ≡ true = rw of_name (ground arith) in
    ground (arith, split, here, of_time)

-- The record after a check is logged by the alerts so far with that of the check.
pub check_agent-IsLoggedAt :
    (own timeout now name : ℕ) (r : AgentRecord) (xs : List SystemAlert)
    → IsLoggedAt name r.last_alert_at xs
    → IsLoggedAt name
        (check_agent own timeout now name r).0.last_alert_at
        (xs ++ (check_agent own timeout now name r).1)
unfolding check_agent
check_agent-IsLoggedAt own timeout now name r xs h =
    let kept = IsLoggedAt-append name r.last_alert_at xs [] h in
    elim (Bool-cases (name == own)) [
      | inl itself ↦ rw itself kept
      | inr other ↦ elim (Bool-cases (is_stale timeout now r)) [
        | inr fresh ↦ rw (other, fresh) kept
        | inl stale ↦ elim (Bool-cases (is_alert_on_cooldown now (missed r))) [
          | inl cool ↦ rw (other, stale, cool) kept
          | inr due ↦
              rw (other, stale, due)
                (is_alerted_here name now (stale_alert now name (r.consecutive_missed + 1)) xs []
                  refl refl)
        ]
      ]
    ]

record_or_new-IsLoggedAt :
    (name : ℕ) (d : Dict AgentRecord) (xs : List SystemAlert)
    → IsLogged d xs
    → IsLoggedAt name (record_or_new name (get name d)).last_alert_at xs
record_or_new-IsLoggedAt name d xs h = elim (Option-cases (get name d)) [
  | inl new ↦ rw new tt
  | inr (r, old) ↦ rw old (get-IsLoggedAt name r d xs old h)
]

-- What the agent keeps true: its records are logged by its alerts.
abbrev pub IsSound : MonitoringAgent → Type 0
IsSound s = IsLogged s.agents s.alerts

process_heartbeat-IsSound :
    (now : ℕ) (h : AgentHeartbeat) (s : MonitoringAgent)
    → IsSound s
    → IsSound (process_heartbeat now h s)
unfolding process_heartbeat
process_heartbeat-IsSound now h s logged =
    let known = record_or_new-IsLoggedAt h.agent_name s.agents s.alerts logged in
    elim (Bool-cases (is_quarantined h.status)) [
      | inl crashed ↦
          let a = crash_alert now h.agent_name 0 in
          rw crashed (
            put-IsLogged h.agent_name _ s.agents (s.alerts ++ (a ∷ []))
              (is_alerted_here h.agent_name now a s.alerts [] refl refl)
              (IsLogged-append s.agents s.alerts (a ∷ []) logged))
      | inr alive ↦ rw alive (put-IsLogged h.agent_name _ s.agents s.alerts known logged)
    ]

process_heartbeats-IsSound :
    (hs : List (ℕ × AgentHeartbeat)) (s : MonitoringAgent)
    → IsSound s
    → IsSound (process_heartbeats hs s)
unfolding process_heartbeats
process_heartbeats-IsSound [] s h = h
process_heartbeats-IsSound ((now, b) ∷ hs) s h =
    process_heartbeats-IsSound hs (process_heartbeat now b s) (process_heartbeat-IsSound now b s h)

while_sending-IsSound :
    (raised : List SystemAlert) (hs : List (ℕ × AgentHeartbeat)) (s : MonitoringAgent)
    → IsSound s
    → IsSound (while_sending raised hs s)
unfolding while_sending
while_sending-IsSound [] hs s h = h
while_sending-IsSound (a ∷ raised) hs s h = process_heartbeats-IsSound hs s h

pub check_record-IsSound :
    (own timeout : ℕ) (round : Round) (name : ℕ) (o : Option AgentRecord) (s : MonitoringAgent)
    → get name s.agents ≡ o
    → IsSound s
    → IsSound (check_record own timeout round name o s)
unfolding check_record
check_record-IsSound own timeout round name none s e h = h
check_record-IsSound own timeout round name (some r) s e h =
    let now = round.at_time name in
    let (r', raised) = check_agent own timeout now name r in
    let known = get-IsLoggedAt name r s.agents s.alerts e h in
    while_sending-IsSound raised (round.arriving name) _ (
      put-IsLogged name r' s.agents (s.alerts ++ raised)
        (check_agent-IsLoggedAt own timeout now name r s.alerts known)
        (IsLogged-append s.agents s.alerts raised h))

check_names-IsSound :
    (own timeout : ℕ) (round : Round) (count : ℕ) (names : List ℕ) (s : MonitoringAgent)
    → IsSound s
    → IsSound (check_names own timeout round count names s)
unfolding check_names
check_names-IsSound own timeout round count [] s h = h
check_names-IsSound own timeout round count (name ∷ names) s h =
    let s' = check_record own timeout round name (get name s.agents) s in
    let sound = check_record-IsSound own timeout round name (get name s.agents) s refl h in
    elim (Bool-cases (length s'.agents == count)) [
      | inl same ↦ rw same (check_names-IsSound own timeout round count names s' sound)
      | inr changed ↦ rw changed sound
    ]

pub after_events-IsSound :
    (own timeout : ℕ) (es : List MonitorEvent) (s : MonitoringAgent)
    → IsSound s
    → IsSound (after_events own timeout es s)
unfolding after_event check_staleness
after_events-IsSound own timeout [] s h = h
after_events-IsSound own timeout (heartbeat now b ∷ es) s h =
    after_events-IsSound own timeout es (process_heartbeat now b s)
      (process_heartbeat-IsSound now b s h)
after_events-IsSound own timeout (check round ∷ es) s h =
    after_events-IsSound own timeout es (check_staleness own timeout round s)
      (elim (Bool-cases s.checking) [
        | inl alive ↦ rw alive (
            check_names-IsSound own timeout round (length s.agents) (map (λ e. e.0) s.agents)
              (record s { checking = true }) h)
        | inr ended ↦ rw ended h
      ])
