-- ===== src/Lifecycle/Tests.antt =====
-- Agents with a limit of two or three errors.
use multi_agent_trading_syst.Prelude.{
  ℕ, ◌+◌, ◌^◌, ◌≤◌, ◌<◌, ◌≡◌, true, false, List, [], ◌∷◌, ◌++◌, map, arith,
}
use multi_agent_trading_syst.Lifecycle.Base.{
  Handled, returned, raised, new_agent, should_continue, consume,
}
use multi_agent_trading_syst.Lifecycle.Supervisor.{Ending, crashed, run_agent}
use multi_agent_trading_syst.Lifecycle.Quarantine.{IsHealthy, consume-quarantines}
use multi_agent_trading_syst.Lifecycle.Restarts.{runs, total_wait, ends_given_up, run_agent-Reports}

new_agent-IsHealthy : IsHealthy (new_agent 2)
new_agent-IsHealthy = record { limited = omega arith; below = λ e. omega arith }

abbrev early : List Handled
early = raised 5 ∷ returned ∷ []

abbrev late : List Handled
late = returned ∷ []

consume-quarantines_example :
    (should_continue (consume (early ++ (map raised (6 ∷ 7 ∷ []) ++ late)) (new_agent 2)) ≡ false)
    × (consume (early ++ (map raised (6 ∷ 7 ∷ []) ++ late)) (new_agent 2)
        ≡ consume (early ++ map raised (6 ∷ 7 ∷ [])) (new_agent 2))
consume-quarantines_example =
    consume-quarantines early late (6 ∷ 7 ∷ []) (new_agent 2) new_agent-IsHealthy (omega arith)

abbrev always : ℕ → Ending
always n = crashed

run_agent-Reports_example :
    let r = run_agent always 3 in
    (runs r ≤ 3)
    × (total_wait r + 2 ≤ 2 ^ 3)
    × (ends_given_up r ≡ true → (k : ℕ) → k < 3 → always k ≡ crashed)
run_agent-Reports_example = run_agent-Reports always 3 (omega arith)
