-- ===== src/Mt5/Queue.antt =====
-- What passes between the callers of the bridge and the terminal, over any order of events
-- (agents/execution/mt5_bridge.py).
use multi_agent_trading_syst.Prelude.{
  ℕ, ◌+◌, ◌≡◌, ◌≢◌, refl, ◌∙◌, sym, ap, Option, none, some, List, [], ◌∷◌, ◌++◌, ◌==◌,
  if◌then◌else◌,
}
use multi_agent_trading_syst.Mt5.Orders.{Command, Response}
use multi_agent_trading_syst.Mt5.Bridge.{
  AccountState, Bridge, Waiter, waiting, enqueue, cancel, expire, handle_command, handle_result,
  handle_state,
}

-- What can happen to the bridge: a caller issues a command, its wait is cancelled at the timeout and
-- then given up, and the terminal polls, posts a result or posts its state.
pub data BridgeEvent (F : Type 0) : Type 0 where
  issued : (id : ℕ) → Command F → BridgeEvent F
  timed_out : (id : ℕ) → BridgeEvent F
  given_up : (id : ℕ) → BridgeEvent F
  polled : BridgeEvent F
  posted_result : Option Response → BridgeEvent F
  posted_state : (now : ℕ) → Option AccountState → BridgeEvent F

-- The bridge with the commands that the terminal has fetched and the results that callers have got.
pub record Traffic (F : Type 0) : Type 0 where
  pub bridge : Bridge F
  pub fetched : List (ℕ × Command F)
  pub delivered : List Response

module _ {ℓ} {A : Type ℓ} where
  abbrev pub with_some : List A → Option A → List A
  with_some xs none = xs
  with_some xs (some x) = xs ++ (x ∷ [])

module _ {F : Type 0} where
  unfoldable pub after_event : BridgeEvent F → Traffic F → Traffic F
  unfolding handle_command handle_result handle_state
  after_event (issued id c) t = record t { bridge = enqueue id c t.bridge }
  after_event (timed_out id) t = record t { bridge = cancel id t.bridge }
  after_event (given_up id) t = record t { bridge = expire id t.bridge }
  after_event polled t =
      let (command, b) = handle_command t.bridge in
      record t { bridge = b; fetched = with_some t.fetched command }
  after_event (posted_result body) t =
      let (response, b) = handle_result body t.bridge in
      record t { bridge = b; delivered = with_some t.delivered response }
  after_event (posted_state now body) t = record t { bridge = handle_state now body t.bridge }

  abbrev pub after_events : List (BridgeEvent F) → Traffic F → Traffic F
  after_events [] t = t
  after_events (e ∷ es) t = after_events es (after_event e t)

  -- The commands that callers issue.
  abbrev pub issued_by : BridgeEvent F → List (ℕ × Command F)
  issued_by (issued id c) = (id, c) ∷ []
  issued_by _ = []

  abbrev pub all_issued : List (BridgeEvent F) → List (ℕ × Command F)
  all_issued [] = []
  all_issued (e ∷ es) = issued_by e ++ all_issued es

  -- The event issues no command under this id.
  abbrev pub Avoids : ℕ → BridgeEvent F → Type 0
  Avoids id (issued k c) = id ≢ k
  Avoids id _ = Unit

  abbrev pub IsFresh : ℕ → List (BridgeEvent F) → Type 0
  IsFresh id [] = Unit
  IsFresh id (e ∷ es) = Avoids id e × IsFresh id es

abbrev pub count_id : ℕ → List Response → ℕ
count_id id [] = 0
count_id id (r ∷ rs) = if id == r.command_id then count_id id rs + 1 else count_id id rs

-- Whether a caller still waits.
abbrev pub open_waits : Option Waiter → ℕ
open_waits (some waiting) = 1
open_waits _ = 0

append_assoc {ℓ} : {A : Type ℓ} (xs ys zs : List A) → (xs ++ ys) ++ zs ≡ xs ++ (ys ++ zs)
append_assoc [] ys zs = refl
append_assoc (x ∷ xs) ys zs = ap (λ l. x ∷ l) (append_assoc xs ys zs)

append_nil {ℓ} : {A : Type ℓ} (xs : List A) → xs ++ [] ≡ xs
append_nil [] = refl
append_nil (x ∷ xs) = ap (λ l. x ∷ l) (append_nil xs)

module _ {F : Type 0} where
  abbrev in_order : Traffic F → List (ℕ × Command F)
  in_order t = t.fetched ++ t.bridge.command_queue

  poll-in_order : (t : Traffic F) → in_order (after_event polled t) ≡ in_order t
  unfolding after_event handle_command
  poll-in_order t = by_queue t.bridge.command_queue refl
    where
      by_queue :
          (q : List (ℕ × Command F))
          → t.bridge.command_queue ≡ q
          → in_order (after_event polled t) ≡ in_order t
      by_queue [] e = rw e refl
      by_queue (c ∷ cs) e = rw e (append_assoc t.fetched (c ∷ []) cs)

  state-queue :
      (now : ℕ) (body : Option AccountState) (b : Bridge F)
      → (handle_state now body b).command_queue ≡ b.command_queue
  unfolding handle_state
  state-queue now none b = refl
  state-queue now (some body) b = refl

  result-queue :
      (body : Option Response) (b : Bridge F)
      → (handle_result body b).1.command_queue ≡ b.command_queue
  unfolding handle_result
  result-queue none b = refl
  result-queue (some r) b = refl

  after_event-in_order :
      (e : BridgeEvent F) (t : Traffic F) → in_order (after_event e t) ≡ in_order t ++ issued_by e
  unfolding after_event
  after_event-in_order (issued id c) t =
      sym (append_assoc t.fetched t.bridge.command_queue ((id, c) ∷ []))
  after_event-in_order (timed_out id) t = sym (append_nil _)
  after_event-in_order (given_up id) t = sym (append_nil _)
  after_event-in_order polled t = poll-in_order t ∙ sym (append_nil _)
  after_event-in_order (posted_result body) t =
      ap (λ q. t.fetched ++ q) (result-queue body t.bridge) ∙ sym (append_nil _)
  after_event-in_order (posted_state now body) t =
      ap (λ q. t.fetched ++ q) (state-queue now body t.bridge) ∙ sym (append_nil _)

  pub after_events-in_order :
      (es : List (BridgeEvent F)) (t : Traffic F)
      → in_order (after_events es t) ≡ in_order t ++ all_issued es
  after_events-in_order [] t = sym (append_nil _)
  after_events-in_order (e ∷ es) t =
      after_events-in_order es (after_event e t)
      ∙ ap (λ l. l ++ all_issued es) (after_event-in_order e t)
      ∙ append_assoc (in_order t) (issued_by e) (all_issued es)
