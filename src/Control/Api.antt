-- ===== src/Control/Api.antt =====
-- api/routers/control.py: the key of the control plane, and the endpoints for commands, halt and resume.
-- A text is a list of characters. A refusal is the HTTP status that is raised.
use multi_agent_trading_syst.Prelude.{
  ℕ, Bool, true, false, Option, none, some, List, [], ◌∷◌, ◌==◌, ◌&&◌, if◌then◌else◌,
}
use multi_agent_trading_syst.Lifecycle.Base.{Latch, unset, set}

abbrev pub Text : Type 0
Text = List ℕ

-- core/models/system.py
pub data SystemCommand : Type 0 where
  pause resume stop restart halt_trading emergency_exit : SystemCommand

-- `CommandRequest`, which gives the published message its target and reason too.
pub record CommandRequest : Type 0 where
  pub command : SystemCommand
  pub target_agent : Text
  pub reason : Option Text

pub record RiskOverride : Type 0 where
  pub reason : Text
  pub requires_human_reset : Bool

pub data Published : Type 0 where
  command_message : CommandRequest → Published
  risk_override : RiskOverride → Published

pub data Body : Type 0 where
  command_body : CommandRequest → Body
  halt_body : Text → Body
  resume_body : Body

pub record Request : Type 0 where
  pub x_api_key : Option Text
  pub body : Body

-- What the bus does during a request: whether there is one, whether the halt key can be written and
-- deleted, and how many subscribers a publish reaches, or that it raises.
pub record Bus : Type 0 where
  pub is_there : Bool
  pub writes : Bool
  pub deletes : Bool
  pub subscribers : Option ℕ

pub data Answer : Type 0 where
  refused : (status : ℕ) → Answer
  commanded : (subscribers_notified : ℕ) → Answer
  halted : (subscribers_notified : ℕ) → Answer
  resumed : Answer

-- The answer, the halt key afterwards, and the messages that were published.
pub record Served : Type 0 where
  pub answer : Answer
  pub halt_key : Option Text
  pub published : List Published

-- `secrets.compare_digest`
abbrev pub same_text : Text → Text → Bool
same_text [] [] = true
same_text (x ∷ xs) (y ∷ ys) = (x == y) && same_text xs ys
same_text _ _ = false

-- `require_control_key`: the status of the refusal, if any, for the configured and the given key.
unfoldable pub require_control_key : Option Text → Option Text → Option ℕ
require_control_key none given = some 403
require_control_key (some []) given = some 403
require_control_key (some (k ∷ ks)) none = some 401
require_control_key (some (k ∷ ks)) (some given) =
    if same_text given (k ∷ ks) then none else some 401

abbrev pub refusal : ℕ → Option Text → Served
refusal status key = record { answer = refused status; halt_key = key; published = [] }

-- `bus.publish`, and the answer by the number of subscribers.
abbrev pub publish : Option ℕ → (ℕ → Answer) → Published → Option Text → Served
publish none answer m key = refusal 502 key
publish (some count) answer m key = record {
  answer = answer count;
  halt_key = key;
  published = m ∷ [];
}

-- `post_command`
unfoldable pub post_command : Bus → CommandRequest → Option Text → Served
post_command bus body key =
    if bus.is_there
    then publish bus.subscribers (λ n. commanded n) (command_message body) key
    else refusal 503 key

-- `post_halt`: the halt key is written first.
unfoldable pub post_halt : Bus → Text → Option Text → Served
post_halt bus reason key =
    let override : RiskOverride = record { reason = reason; requires_human_reset = true } in
    if bus.is_there
    then (if bus.writes
        then publish bus.subscribers (λ n. halted n) (risk_override override) (some reason)
        else refusal 502 key)
    else refusal 503 key

-- `post_resume`
unfoldable pub post_resume : Bus → Option Text → Served
post_resume bus key =
    if bus.is_there
    then (if bus.deletes
        then record { answer = resumed; halt_key = none; published = [] }
        else refusal 502 key)
    else refusal 503 key

-- The endpoint of a body.
unfoldable pub endpoint : Bus → Body → Option Text → Served
unfolding post_command post_halt post_resume
endpoint bus (command_body b) key = post_command bus b key
endpoint bus (halt_body reason) key = post_halt bus reason key
endpoint bus resume_body key = post_resume bus key

abbrev pub allowed : Option ℕ → Served → Option Text → Served
allowed none served key = served
allowed (some status) served key = refusal status key

-- A request to the router, whose dependency is the key.
unfoldable pub handle : Option Text → Bus → Request → Option Text → Served
unfolding endpoint require_control_key
handle configured bus r key =
    allowed (require_control_key configured r.x_api_key) (endpoint bus r.body key) key

-- One request after the other; the halt key that they leave.
unfoldable pub handle_each : Option Text → List (Bus × Request) → Option Text → Option Text
unfolding handle
handle_each configured [] key = key
handle_each configured ((bus, r) ∷ rs) key =
    handle_each configured rs (handle configured bus r key).halt_key

-- What an agent makes of the halt key when it can read it, in `_load_halt_latch`.
abbrev pub latch_of : Option Text → Latch
latch_of none = unset
latch_of (some []) = unset
latch_of (some (_ ∷ _)) = set
