-- ===== src/Lifecycle/Halt.antt =====
-- The halt of trading and what happens to an agent (agents/base.py, `_load_halt_latch`, `_risk_override_listener`).
use multi_agent_trading_syst.Prelude.{◌≡◌, refl, Bool, true, false, List, [], ◌∷◌, arith}
use multi_agent_trading_syst.Lifecycle.Base.{
  BaseAgent, Handled, returned, raised, after_message, record_success, handle_error, set, start,
  stop, on_override,
}

-- What can happen to a running agent.
pub data LifeEvent : Type 0 where
  message : Handled → LifeEvent
  override : Bool → LifeEvent
  stopping_call : LifeEvent

unfoldable pub after_event : LifeEvent → BaseAgent → BaseAgent
unfolding after_message on_override stop
after_event (message m) s = after_message m s
after_event (override reset) s = on_override reset s
after_event stopping_call s = stop s

abbrev pub after_events : List LifeEvent → BaseAgent → BaseAgent
after_events [] s = s
after_events (e ∷ es) s = after_events es (after_event e s)

after_event-halted :
    (e : LifeEvent) (s : BaseAgent)
    → s.trading_halted ≡ true
    → (after_event e s).trading_halted ≡ true
unfolding after_event record_success handle_error
after_event-halted (message returned) s h = h
after_event-halted (message (raised text)) s h = ground arith
after_event-halted (override true) s h = refl
after_event-halted (override false) s h = refl
after_event-halted stopping_call s h = h

pub after_events-halted :
    (es : List LifeEvent) (s : BaseAgent)
    → s.trading_halted ≡ true
    → (after_events es s).trading_halted ≡ true
after_events-halted [] s h = h
after_events-halted (e ∷ es) s h =
    after_events-halted es (after_event e s) (after_event-halted e s h)

-- Trading stays halted through whatever happens in an instance that starts while the halt latch is
-- set, and from the first override on in any instance.
pub halt_persists :
    (before after : List LifeEvent) (reset : Bool) (s : BaseAgent)
    → ((after_events after (start set s)).trading_halted ≡ true)
      × ((after_events after (on_override reset (after_events before s))).trading_halted ≡ true)
unfolding start on_override stop
halt_persists before after true s =
    (after_events-halted after _ refl, after_events-halted after _ refl)
halt_persists before after false s =
    (after_events-halted after _ refl, after_events-halted after _ refl)
