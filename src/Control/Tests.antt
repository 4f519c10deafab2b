-- ===== src/Control/Tests.antt =====
-- Halt and resume requests on concrete keys.
use multi_agent_trading_syst.Prelude.{◌≡◌, refl, true, false, none, some, [], ◌∷◌, List, ◌⊎◌, ℕ}
use multi_agent_trading_syst.Lifecycle.Base.{new_agent, start}
use multi_agent_trading_syst.Lifecycle.Halt.{LifeEvent, message, override, after_events}
use multi_agent_trading_syst.Lifecycle.Base.{raised}
use multi_agent_trading_syst.Control.Api.{
  Text, Request, Bus, resume_body, require_control_key, refusal, refused, handle, handle_each,
  latch_of, endpoint, post_halt,
}
use multi_agent_trading_syst.Control.Latched.{halt_request, post_halt-lasts}
use multi_agent_trading_syst.Control.Guarded.{IsAuthorised, IsTurnedAway, handle-IsAuthorised}

abbrev secret : Text
secret = 115 ∷ 51 ∷ []

abbrev reason : Text
reason = 104 ∷ []

-- Nobody hears the override.
abbrev mute : Bus
mute = record { is_there = true; writes = true; deletes = true; subscribers = none }

-- A resume with a wrong key.
abbrev intruder : Request
intruder = record { x_api_key = some (115 ∷ []); body = resume_body }

-- The publish fails and the answer is an error, but the halt key is written.
halt_unheard :
    handle (some secret) mute (halt_request (some secret) reason) none
    ≡ record { answer = refused 502; halt_key = some reason; published = [] }
unfolding handle endpoint post_halt require_control_key
halt_unheard = refl

-- A halt with an empty reason is answered like any other, but no agent that starts later halts.
halt_without_reason :
    latch_of (handle_each (some secret) ((mute, halt_request (some secret) []) ∷ []) none)
    ≡ latch_of none
unfolding handle_each handle endpoint post_halt require_control_key
halt_without_reason = refl

abbrev events : List LifeEvent
events = message (raised 1) ∷ override false ∷ []

post_halt-lasts_example :
    (after_events events (
      start
        (latch_of (
          handle_each
            (some secret)
            ((mute, halt_request (some secret) reason) ∷ (mute, intruder) ∷ [])
            none))
        (new_agent 5))).trading_halted
    ≡ true
unfolding require_control_key
post_halt-lasts_example =
    post_halt-lasts (some secret) (some secret) 104 [] mute none ((mute, intruder) ∷ []) events
      (new_agent 5) refl refl refl ((401, refl), tt)

handle-IsAuthorised_example :
    IsAuthorised (some secret) intruder.x_api_key
    ⊎ ((status : ℕ) × IsTurnedAway status
        × (handle (some secret) mute intruder (some reason) ≡ refusal status (some reason)))
handle-IsAuthorised_example = handle-IsAuthorised (some secret) mute intruder (some reason)
