-- ===== src/Monitoring/Silence.antt =====
-- How soon the system notices an agent that is silent (agents/monitoring/agent.py).
use multi_agent_trading_syst.Prelude.{
  ℕ, ◌+◌, ◌-◌, ◌*◌, ◌^◌, ◌<◌, ◌≡◌, ◌≢◌, refl, ◌∙◌, Bool, true, false, not, ◌&&◌, ◌||◌, Option, none,
  some, List, [], ◌∷◌, ◌++◌, arith, ◌==◌, ltb, Bool-cases, Option-cases, inl, inr, length, map,
}
use multi_agent_trading_syst.Prelude.Dict.{Dict, get, get-put_ne}
use multi_agent_trading_syst.Monitoring.Registry.{
  SystemAlert, AgentHeartbeat, AgentRecord, is_stale, is_alert_on_cooldown, cooldown,
}
use multi_agent_trading_syst.Monitoring.Agent.{
  MonitoringAgent, MonitorEvent, Round, new_monitor, process_heartbeat, process_heartbeats,
  while_sending, check_agent, check_record, check_names, check_staleness, after_events,
  handle_health, stale_names, is_quarantined, is_name, stale_alert, missed,
}
use multi_agent_trading_syst.Monitoring.Alerts.{
  is_alerted, is_alerted-append, IsLoggedAt, get-IsLoggedAt, is_alerted_here, IsLoggedAt-append,
  IsSound, check_record-IsSound, after_events-IsSound,
}

-- An alert about the agent was raised less than the cooldown before this time, or later.
abbrev pub IsNoticed : ℕ → ℕ → List SystemAlert → Type 0
IsNoticed name now xs = (t : ℕ) × ((is_alerted name t xs ≡ true) × (now < t + cooldown))

cooling :
    (now : ℕ) (r : AgentRecord)
    → is_alert_on_cooldown now r ≡ true
    → (t : ℕ) × ((r.last_alert_at ≡ some t) × (now < t + cooldown))
unfolding is_alert_on_cooldown
cooling now r h = elim (Option-cases r.last_alert_at) [
  | inl never ↦ absurd (ground (arith, rw never at h))
  | inr (t, e) ↦
      let soon : ltb (now - t) cooldown ≡ true = rw e at h in (t, (e, ground (arith, soon)))
]

check_agent-IsNoticed :
    (own timeout now name : ℕ) (r : AgentRecord) (xs : List SystemAlert)
    → name ≢ own
    → is_stale timeout now r ≡ true
    → IsLoggedAt name r.last_alert_at xs
    → IsNoticed name now (xs ++ (check_agent own timeout now name r).1)
unfolding check_agent
check_agent-IsNoticed own timeout now name r xs ne stale h =
    let other : (name == own) ≡ false = ground (arith, ne) in
    elim (Bool-cases (is_alert_on_cooldown now (missed r))) [
      | inl cool ↦
          let (t, (e, soon)) = cooling now (missed r) cool in
          let logged : is_alerted name t xs ≡ true = rw e at h in
          rw (other, stale, cool) (t, (IsLoggedAt-append name (some t) xs [] logged, soon))
      | inr due ↦
          rw (other, stale, due)
            (
              now,
              (
                is_alerted_here name now (stale_alert now name (r.consecutive_missed + 1)) xs []
                    refl refl,
                omega arith,
              ),
            )
    ]

-- Alerts are never taken back.
abbrev Grows : MonitoringAgent → MonitoringAgent → Type 0
Grows s s' = (name t : ℕ) → is_alerted name t s.alerts ≡ true → is_alerted name t s'.alerts ≡ true

append-grows :
    (name t : ℕ) (xs ys : List SystemAlert)
    → is_alerted name t xs ≡ true
    → is_alerted name t (xs ++ ys) ≡ true
append-grows name t xs ys h = ground (arith, is_alerted-append name t xs ys, h)

process_heartbeat-Grows :
    (now : ℕ) (h : AgentHeartbeat) (s : MonitoringAgent) → Grows s (process_heartbeat now h s)
unfolding process_heartbeat
process_heartbeat-Grows now h s name t k = elim (Bool-cases (is_quarantined h.status)) [
  | inl crashed ↦ rw crashed (append-grows name t s.alerts _ k)
  | inr alive ↦ rw alive k
]

process_heartbeats-Grows :
    (hs : List (ℕ × AgentHeartbeat)) (s : MonitoringAgent) → Grows s (process_heartbeats hs s)
unfolding process_heartbeats
process_heartbeats-Grows [] s name t k = k
process_heartbeats-Grows ((now, h) ∷ hs) s name t k =
    process_heartbeats-Grows hs (process_heartbeat now h s) name t
      (process_heartbeat-Grows now h s name t k)

while_sending-Grows :
    (raised : List SystemAlert) (hs : List (ℕ × AgentHeartbeat)) (s : MonitoringAgent)
    → Grows s (while_sending raised hs s)
unfolding while_sending
while_sending-Grows [] hs s name t k = k
while_sending-Grows (a ∷ raised) hs s name t k = process_heartbeats-Grows hs s name t k

check_record-Grows :
    (own timeout : ℕ) (round : Round) (k : ℕ) (o : Option AgentRecord) (s : MonitoringAgent)
    → Grows s (check_record own timeout round k o s)
unfolding check_record
check_record-Grows own timeout round k none s name t h = h
check_record-Grows own timeout round k (some r) s name t h =
    let raised = (check_agent own timeout (round.at_time k) k r).1 in
    while_sending-Grows raised (round.arriving k) _ name t (append-grows name t s.alerts raised h)

check_names-Grows :
    (own timeout : ℕ) (round : Round) (count : ℕ) (names : List ℕ) (s : MonitoringAgent)
    → Grows s (check_names own timeout round count names s)
unfolding check_names
check_names-Grows own timeout round count [] s name t h = h
check_names-Grows own timeout round count (k ∷ names) s name t h =
    let s' = check_record own timeout round k (get k s.agents) s in
    let here = check_record-Grows own timeout round k (get k s.agents) s name t h in
    elim (Bool-cases (length s'.agents == count)) [
      | inl same ↦ rw same (check_names-Grows own timeout round count names s' name t here)
      | inr changed ↦ rw changed here
    ]

-- No heartbeat of a list is from this agent.
abbrev pub IsSilent : ℕ → List (ℕ × AgentHeartbeat) → Type 0
IsSilent name [] = Unit
IsSilent name ((now, h) ∷ hs) = (name ≢ h.agent_name) × IsSilent name hs

process_heartbeat-other :
    (name now : ℕ) (h : AgentHeartbeat) (s : MonitoringAgent)
    → name ≢ h.agent_name
    → get name (process_heartbeat now h s).agents ≡ get name s.agents
unfolding process_heartbeat
process_heartbeat-other name now h s ne = elim (Bool-cases (is_quarantined h.status)) [
  | inl crashed ↦ rw crashed (get-put_ne name h.agent_name _ s.agents ne)
  | inr alive ↦ rw alive (get-put_ne name h.agent_name _ s.agents ne)
]

process_heartbeats-other :
    (name : ℕ) (hs : List (ℕ × AgentHeartbeat)) (s : MonitoringAgent)
    → IsSilent name hs
    → get name (process_heartbeats hs s).agents ≡ get name s.agents
unfolding process_heartbeats
process_heartbeats-other name [] s h = refl
process_heartbeats-other name ((now, b) ∷ hs) s (ne, h) =
    process_heartbeats-other name hs (process_heartbeat now b s) h
    ∙ process_heartbeat-other name now b s ne

while_sending-other :
    (name : ℕ) (raised : List SystemAlert) (hs : List (ℕ × AgentHeartbeat)) (s : MonitoringAgent)
    → IsSilent name hs
    → get name (while_sending raised hs s).agents ≡ get name s.agents
unfolding while_sending
while_sending-other name [] hs s h = refl
while_sending-other name (a ∷ raised) hs s h = process_heartbeats-other name hs s h

check_record-other :
    (own timeout : ℕ) (round : Round) (name k : ℕ) (o : Option AgentRecord) (s : MonitoringAgent)
    → name ≢ k
    → IsSilent name (round.arriving k)
    → get name (check_record own timeout round k o s).agents ≡ get name s.agents
unfolding check_record
check_record-other own timeout round name k none s ne silent = refl
check_record-other own timeout round name k (some r) s ne silent =
    let (r', raised) = check_agent own timeout (round.at_time k) k r in
    while_sending-other name raised (round.arriving k) _ silent ∙ get-put_ne name k r' s.agents ne

check_record-IsNoticed :
    (own timeout : ℕ) (round : Round) (name : ℕ) (r : AgentRecord) (s : MonitoringAgent)
    → name ≢ own
    → get name s.agents ≡ some r
    → is_stale timeout (round.at_time name) r ≡ true
    → IsSound s
    → IsNoticed name (round.at_time name) (check_record own timeout round name (some r) s).alerts
unfolding check_record
check_record-IsNoticed own timeout round name r s ne held stale sound =
    let now = round.at_time name in
    let raised = (check_agent own timeout now name r).1 in
    let known = get-IsLoggedAt name r s.agents s.alerts held sound in
    let (t, (alerted, soon)) =
      check_agent-IsNoticed own timeout now name r s.alerts ne stale known in
    (t, (while_sending-Grows raised (round.arriving name) _ name t alerted, soon))

-- A name that is among these.
abbrev is_among : ℕ → List ℕ → Bool
is_among name [] = false
is_among name (k ∷ ks) = name == k || is_among name ks

check_names-IsNoticed :
    (own timeout : ℕ) (round : Round) (count name : ℕ) (names : List ℕ) (r : AgentRecord)
    (s : MonitoringAgent)
    → name ≢ own
    → is_among name names ≡ true
    → get name s.agents ≡ some r
    → is_stale timeout (round.at_time name) r ≡ true
    → ((k : ℕ) → IsSilent name (round.arriving k))
    → IsSound s
    → (check_names own timeout round count names s).checking ≡ true
    → IsNoticed name (round.at_time name) (check_names own timeout round count names s).alerts
unfolding check_names
check_names-IsNoticed own timeout round count name [] r s ne among held stale silent sound alive =
    absurd (ground (arith, among))
check_names-IsNoticed own timeout round count name (k ∷ ks) r s ne among held stale silent sound
      alive =
    let s' = check_record own timeout round k (get k s.agents) s in
    elim (Bool-cases (length s'.agents == count)) [
      | inr changed ↦ let no : false ≡ true = rw changed at alive in absurd (ground (arith, no))
      | inl same ↦ rw same (elim (Bool-cases (name == k)) [
        | inl here ↦
            let key : k ≡ name = ground (arith, here) in
            let found : get k s.agents ≡ some r = rw key held in
            let (t, (alerted, soon)) =
              check_record-IsNoticed own timeout round name r s ne held stale sound in
            let alerted' : is_alerted name t s'.alerts ≡ true = rw (found, key) alerted in
            (t, (check_names-Grows own timeout round count ks s' name t alerted', soon))
        | inr other ↦
            let apart : name ≢ k = λ e. ground (arith, other, e) in
            let held' =
              check_record-other own timeout round name k (get k s.agents) s apart (silent k)
              ∙ held in
            let sound' = check_record-IsSound own timeout round k (get k s.agents) s refl sound in
            check_names-IsNoticed own timeout round count name ks r s' ne
              (ground (arith, among, other)) held' stale silent sound' (rw same at alive)
      ])
    ]

stale_names-full :
    (own timeout now name : ℕ) (d : Dict AgentRecord) (r : AgentRecord)
    → name ≢ own
    → get name d ≡ some r
    → is_stale timeout now r ≡ true
    → (n : ℕ) × ((ns : List ℕ) × (stale_names (some own) timeout now d ≡ n ∷ ns))
unfolding stale_names
stale_names-full own timeout now name [] r ne h stale = absurd (ground arith)
stale_names-full own timeout now name (e ∷ d) r ne h stale =
    elim (Bool-cases (is_stale timeout now e.1 && not (is_name (some own) e.0))) [
      | inl listed ↦ rw listed (_, (_, refl))
      | inr unlisted ↦
          let other : (name == e.0) ≡ false = elim (Bool-cases (name == e.0)) [
            | inr apart ↦ apart
            | inl same ↦
                let key : name ≡ e.0 = ground (arith, same) in
                let found : some e.1 ≡ some r = rw same at h in
                let it : e.1 ≡ r = ground (arith, found) in
                let stale' : is_stale timeout now e.1 ≡ true = rw it stale in
                let apart : (e.0 == own) ≡ false = ground (arith, key, ne) in
                absurd (ground (arith, unlisted, stale', apart))
          ] in
          rw unlisted (stale_names-full own timeout now name d r ne (rw other at h) stale)
    ]

is_among-keys :
    (name : ℕ) (d : Dict AgentRecord) (r : AgentRecord)
    → get name d ≡ some r
    → is_among name (map (λ e. e.0) d) ≡ true
is_among-keys name [] r h = absurd (ground (arith, h))
is_among-keys name (e ∷ d) r h = elim (Bool-cases (name == e.0)) [
  | inl same ↦ rw same refl
  | inr other ↦ rw other (is_among-keys name d r (rw other at h))
]

silent-is_stale :
    (timeout now seen : ℕ) (r : AgentRecord)
    → r.last_seen_at ≡ some seen
    → seen + timeout * 10 ^ 6 < now
    → is_stale timeout now r ≡ true
unfolding is_stale
silent-is_stale timeout now seen r e h = rw e (ground (arith, h))

check_staleness-IsNoticed :
    (own timeout name : ℕ) (round : Round) (r : AgentRecord) (s : MonitoringAgent)
    → name ≢ own
    → get name s.agents ≡ some r
    → is_stale timeout (round.at_time name) r ≡ true
    → ((k : ℕ) → IsSilent name (round.arriving k))
    → IsSound s
    → (check_staleness own timeout round s).checking ≡ true
    → IsNoticed name (round.at_time name) (check_staleness own timeout round s).alerts
unfolding check_staleness
check_staleness-IsNoticed own timeout name round r s ne held stale silent sound alive =
    elim (Bool-cases s.checking) [
      | inr ended ↦ let no : false ≡ true = rw ended at alive in absurd (ground (arith, no))
      | inl runs ↦ rw runs (
          check_names-IsNoticed own timeout round (length s.agents) name (map (λ e. e.0) s.agents) r
            (record s { checking = true }) ne (is_among-keys name s.agents r held) held stale silent
            sound (rw runs at alive))
    ]

-- Whatever happened since the start, an agent other than the monitor is noticed by the next round of
-- checks if its last heartbeat is longer ago than the timeout when it is looked at, no heartbeat of it
-- arrives during the round, and the checker survives the round: an alert about it was raised then or less
-- than the cooldown of 300 seconds before, and the health endpoint answers 503 at that time.
pub silence-IsNoticed :
    (own timeout name seen : ℕ) (round : Round) (es : List MonitorEvent) (r : AgentRecord)
    → name ≢ own
    → get name (after_events own timeout es new_monitor).agents ≡ some r
    → r.last_seen_at ≡ some seen
    → seen + timeout * 10 ^ 6 < round.at_time name
    → ((k : ℕ) → IsSilent name (round.arriving k))
    → (check_staleness own timeout round (after_events own timeout es new_monitor)).checking ≡ true
    → let s = after_events own timeout es new_monitor in
      IsNoticed name (round.at_time name) (check_staleness own timeout round s).alerts
      × ((handle_health own timeout (round.at_time name) s).status ≡ 503)
unfolding handle_health
silence-IsNoticed own timeout name seen round es r ne held last late silent alive =
    let s = after_events own timeout es new_monitor in
    let sound = after_events-IsSound own timeout es new_monitor tt in
    let stale = silent-is_stale timeout (round.at_time name) seen r last late in
    let (n, (ns, full)) =
      stale_names-full own timeout (round.at_time name) name s.agents r ne held stale in
    (
      check_staleness-IsNoticed own timeout name round r s ne held stale silent sound alive,
      rw full refl,
    )
