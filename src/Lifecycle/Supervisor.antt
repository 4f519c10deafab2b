-- ===== src/Lifecycle/Supervisor.antt =====
-- agents/base.py: `run_agent`, the restart of a crashed agent as a new instance.
use multi_agent_trading_syst.Prelude.{ℕ, zero, suc, ◌^◌, leb, if◌then◌else◌}

-- How one `run` of an instance ends.
pub data Ending : Type 0 where
  clean cancelled crashed : Ending

-- What the supervisor did: it ran no instance (no crash is allowed at all), the last instance ended
-- without a crash, or it gave up after a crash; and the waits before restarts, in seconds.
pub data Report : Type 0 where
  never_run finished gave_up : Report
  restarted : ℕ → Report → Report

-- The loop after some crashes. `left` is how many more are allowed; `ending n` is how the instance
-- that starts after n crashes ends.
unfoldable pub supervise : (ℕ → Ending) → ℕ → ℕ → Report
supervise ending zero crash_count = never_run
supervise ending (suc left) crash_count =
    let again = supervise ending left (suc crash_count) in
    elim (ending crash_count) [
      | clean ↦ finished
      | cancelled ↦ finished
      | crashed ↦ if leb left 0 then gave_up else restarted (2 ^ suc crash_count) again
    ]

-- `run_agent`
unfoldable pub run_agent : (ℕ → Ending) → ℕ → Report
unfolding supervise
run_agent ending max_crashes = supervise ending max_crashes 0
