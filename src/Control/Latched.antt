-- ===== src/Control/Latched.antt =====
-- The halt of trading through the control plane (api/routers/control.py and agents/base.py).
use multi_agent_trading_syst.Prelude.{
  ℕ, ◌≡◌, refl, ap, ◌∙◌, arith, Bool, true, false, if◌then◌else◌, Option, none, some, List, [], ◌∷◌,
}
use multi_agent_trading_syst.Lifecycle.Base.{BaseAgent, set, start}
use multi_agent_trading_syst.Lifecycle.Halt.{LifeEvent, after_events, halt_persists}
use multi_agent_trading_syst.Control.Api.{
  Text, CommandRequest, RiskOverride, command_message, risk_override, commanded, halted, Body,
  command_body, halt_body, resume_body, Request, Bus, require_control_key, refusal, publish,
  post_command, post_halt, endpoint, allowed, handle, handle_each, latch_of,
}

-- The key is one at which an agent halts.
abbrev IsLatched : Option Text → Type 0
IsLatched key = latch_of key ≡ set

-- A request that does not lift the halt: no halt with an empty reason, and a resume only without the
-- configured key.
abbrev pub KeepsHalt : Option Text → Option Text → Body → Type 0
KeepsHalt configured given (command_body b) = Unit
KeepsHalt configured given (halt_body []) = ⊥
KeepsHalt configured given (halt_body (_ ∷ _)) = Unit
KeepsHalt configured given resume_body =
    (status : ℕ) × (require_control_key configured given ≡ some status)

abbrev pub AllKeepHalt : Option Text → List (Bus × Request) → Type 0
AllKeepHalt configured [] = Unit
AllKeepHalt configured ((bus, r) ∷ rs) =
    KeepsHalt configured r.x_api_key r.body × AllKeepHalt configured rs

post_command-IsLatched :
    (bus : Bus) (b : CommandRequest) (key : Option Text)
    → IsLatched key
    → IsLatched (post_command bus b key).halt_key
unfolding post_command
post_command-IsLatched bus b key h = go bus.is_there bus.subscribers
  where
    go :
        (there : Bool) (count : Option ℕ)
        → IsLatched
            (if there
              then publish count (λ n. commanded n) (command_message b) key
              else refusal 503 key).halt_key
    go false count = h
    go true none = h
    go true (some n) = h

post_halt-IsLatched :
    (bus : Bus) (x : ℕ) (xs : Text) (key : Option Text)
    → IsLatched key
    → IsLatched (post_halt bus (x ∷ xs) key).halt_key
unfolding post_halt
post_halt-IsLatched bus x xs key h = go bus.is_there bus.writes bus.subscribers
  where
    override : RiskOverride
    override = record { reason = x ∷ xs; requires_human_reset = true }

    go :
        (there writes : Bool) (count : Option ℕ)
        → IsLatched
            (if there
              then (if writes
                  then publish count (λ n. halted n) (risk_override override) (some (x ∷ xs))
                  else refusal 502 key)
              else refusal 503 key).halt_key
    go false writes count = h
    go true false count = h
    go true true none = refl
    go true true (some n) = refl

-- A latched key that a request does not lift stays latched, whether the request is allowed or not.
served-IsLatched :
    (check : Option ℕ) (configured : Option Text) (bus : Bus) (r : Request) (key : Option Text)
    → require_control_key configured r.x_api_key ≡ check
    → KeepsHalt configured r.x_api_key r.body
    → IsLatched key
    → IsLatched (allowed check (endpoint bus r.body key) key).halt_key
unfolding endpoint
served-IsLatched (some status) configured bus r key e keeps h = h
served-IsLatched none configured bus r key e keeps h = endpoint-IsLatched r.body keeps
  where
    endpoint-IsLatched :
        (b : Body) → KeepsHalt configured r.x_api_key b → IsLatched (endpoint bus b key).halt_key
    endpoint-IsLatched (command_body b) k = post_command-IsLatched bus b key h
    endpoint-IsLatched (halt_body []) k = absurd k
    endpoint-IsLatched (halt_body (x ∷ xs)) k = post_halt-IsLatched bus x xs key h
    endpoint-IsLatched resume_body (status, e') = absurd (ground (arith, e, e'))

handle_each-IsLatched :
    (configured : Option Text) (rs : List (Bus × Request)) (key : Option Text)
    → AllKeepHalt configured rs
    → IsLatched key
    → IsLatched (handle_each configured rs key)
unfolding handle_each handle
handle_each-IsLatched configured [] key keep h = h
handle_each-IsLatched configured ((bus, r) ∷ rs) key (keeps, keep) h =
    handle_each-IsLatched configured rs (handle configured bus r key).halt_key keep (
      served-IsLatched (require_control_key configured r.x_api_key) configured bus r key refl keeps
        h)

-- The halt key after a halt whose write succeeds.
abbrev pub halt_request : Option Text → Text → Request
halt_request given reason = record { x_api_key = given; body = halt_body reason }

halted-key :
    (configured given : Option Text) (x : ℕ) (xs : Text) (bus : Bus) (key : Option Text)
    → require_control_key configured given ≡ none
    → bus.is_there ≡ true
    → bus.writes ≡ true
    → (handle configured bus (halt_request given (x ∷ xs)) key).halt_key ≡ some (x ∷ xs)
unfolding handle endpoint post_halt
halted-key configured given x xs bus key e there writes = rw (e, there, writes) (go bus.subscribers)
  where
    override : RiskOverride
    override = record { reason = x ∷ xs; requires_human_reset = true }

    go :
        (count : Option ℕ)
        → (publish count (λ n. halted n) (risk_override override) (some (x ∷ xs))).halt_key
          ≡ some (x ∷ xs)
    go none = refl
    go (some n) = refl

-- After a halt request with the configured key and a reason, whose halt key could be written, trading
-- is halted in every agent that starts and reads the key then, through whatever happens to it, also
-- where the request was answered with an error because its message could not be published. This lasts
-- through all requests, whatever keys they carry and however the bus behaves, up to a resume with the
-- configured key or a halt with an empty reason.
pub post_halt-lasts :
    (configured given : Option Text) (x : ℕ) (xs : Text) (bus : Bus) (key : Option Text)
    (rs : List (Bus × Request)) (events : List LifeEvent) (s : BaseAgent)
    → require_control_key configured given ≡ none
    → bus.is_there ≡ true
    → bus.writes ≡ true
    → AllKeepHalt configured rs
    → (let later = handle_each configured ((bus, halt_request given (x ∷ xs)) ∷ rs) key in
        (after_events events (start (latch_of later) s)).trading_halted)
      ≡ true
unfolding handle_each
post_halt-lasts configured given x xs bus key rs events s e there writes keep =
    let request = halt_request given (x ∷ xs) in
    let written = halted-key configured given x xs bus key e there writes in
    let first : IsLatched (handle configured bus request key).halt_key = ap latch_of written in
    let kept =
      handle_each-IsLatched configured rs (handle configured bus request key).halt_key keep first in
    ap (λ l. (after_events events (start l s)).trading_halted) kept
    ∙ (halt_persists [] events true s).0
