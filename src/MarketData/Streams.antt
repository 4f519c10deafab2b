-- ===== src/MarketData/Streams.antt =====
-- agents/market_data/websocket_handler.py. A pair of a symbol and a timeframe is one number; what a
-- stream does is a parameter, since the source leaves it to a later release.
use multi_agent_trading_syst.Prelude.{
  ℕ, zero, suc, ◌+◌, ◌-◌, ◌^◌, Bool, true, false, not, ◌&&◌, Option, none, some, List, [], ◌∷◌,
  ◌++◌, ltb, leb, if◌then◌else◌,
}
use multi_agent_trading_syst.Prelude.Dict.{Dict, get, put, remove}
use multi_agent_trading_syst.Prelude.Float.{Float, min_float}

pub record StreamHealth : Type 0 where
  pub connected : Bool
  pub last_message_at : Option ℕ
  pub message_count : ℕ
  pub error_count : ℕ
  pub reconnect_count : ℕ

abbrev pub new_health : StreamHealth
new_health = record {
  connected = false;
  last_message_at = none;
  message_count = 0;
  error_count = 0;
  reconnect_count = 0;
}

-- `record_message` at a time.
abbrev pub record_message : ℕ → StreamHealth → StreamHealth
record_message now h = record h { message_count = h.message_count + 1; last_message_at = some now }

-- `record_error`
abbrev pub record_error : StreamHealth → StreamHealth
record_error h = record h { error_count = h.error_count + 1 }

-- The streams that were started, and for each task whether it is done.
pub record WebSocketHandler : Type 0 where
  pub streams : Dict StreamHealth
  pub tasks : Dict Bool
  pub is_running : Bool

abbrev is_live : Option Bool → Bool
is_live none = false
is_live (some done) = not done

-- `start_stream`: a stream that runs is left alone.
unfoldable pub start_stream : ℕ → WebSocketHandler → WebSocketHandler
start_stream key s = if is_live (get key s.tasks) then s else record {
  streams = put key new_health s.streams;
  tasks = put key false s.tasks;
  is_running = true;
}

-- `stop_stream`
unfoldable pub stop_stream : ℕ → WebSocketHandler → WebSocketHandler
stop_stream key s = record s { tasks = remove key s.tasks }

abbrev stop_each : Dict Bool → WebSocketHandler → WebSocketHandler
unfolding stop_stream
stop_each [] s = s
stop_each (e ∷ tasks) s = stop_each tasks (stop_stream e.0 s)

-- `stop_all`
unfoldable pub stop_all : WebSocketHandler → WebSocketHandler
unfolding stop_each
stop_all s = stop_each s.tasks (record s { is_running = false })

-- How a stream ends: it returns, its task is cancelled, or it raises.
pub data StreamEnd : Type 0 where
  returned cancelled raised : StreamEnd

-- What the loop meets when it has seen so many failures: whether the handler still runs, and how the
-- stream ends if it is opened.
pub record World : Type 0 where
  pub running : ℕ → Bool
  pub ending : ℕ → StreamEnd

-- The loop: the health of the stream, the failures so far, the waits, and how often it was opened.
pub record Loop (F : Type 0) : Type 0 where
  pub health : StreamHealth
  pub attempt : ℕ
  pub waits : List F
  pub opened : ℕ

abbrev pub new_loop : {F : Type 0} → StreamHealth → Loop F
new_loop h = record { health = h; attempt = 0; waits = []; opened = 0 }

module _ {F : Type 0} where
  abbrev pub open_stream : Loop F → Loop F
  open_stream s = record s { health = record s.health { connected = true }; opened = s.opened + 1 }

  -- The bookkeeping of a failure.
  abbrev pub fail_stream : Loop F → Loop F
  fail_stream s =
      let h = record_error (record s.health { connected = false }) in
      record s {
        health = record h { reconnect_count = h.reconnect_count + 1 };
        attempt = s.attempt + 1;
      }

  -- What follows the loop.
  abbrev pub exit_stream : Loop F → Loop F
  exit_stream s = record s { health = record s.health { connected = false } }

module _ {F : Type 0} ⦃f : Float F⦄ where
  -- The wait after so many failures: the delay doubles each time, up to a minute.
  abbrev pub wait_after : F → ℕ → F
  wait_after delay attempt = min_float (f.mul delay (f.lit (2 ^ (attempt - 1)) 1)) (f.lit 60 1)

  abbrev pub wait_stream : F → Loop F → Loop F
  wait_stream delay s = record s { waits = s.waits ++ (wait_after delay s.attempt ∷ []) }

  -- What the end of a stream leads to; the third argument is the rest of the loop.
  abbrev pub after_stream : ℕ → Loop F → Option (Loop F) → StreamEnd → Option (Loop F)
  after_stream limit s again returned = some (exit_stream (open_stream s))
  after_stream limit s again cancelled = some (exit_stream (open_stream s))
  after_stream limit s again raised =
      let failed = fail_stream (open_stream s) in
      if ltb limit failed.attempt then some (exit_stream failed) else again

  -- `_stream_with_reconnect` with so many rounds to spend: `none` is that they ran out.
  unfoldable pub stream_with_reconnect : ℕ → ℕ → F → World → Loop F → Option (Loop F)
  stream_with_reconnect zero limit delay w s = none
  stream_with_reconnect (suc k) limit delay w s =
      let again =
        stream_with_reconnect k limit delay w (wait_stream delay (fail_stream (open_stream s))) in
      if w.running s.attempt && leb s.attempt limit
      then after_stream limit s again (w.ending s.attempt)
      else some (exit_stream s)
