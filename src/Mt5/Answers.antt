-- ===== src/Mt5/Answers.antt =====
-- The answers that callers of the bridge get (agents/execution/mt5_bridge.py).
use multi_agent_trading_syst.Prelude.{
  ℕ, ◌+◌, ◌≤◌, ◌≡◌, refl, ap, none, some, List, [], ◌∷◌, ◌++◌, arith,
}
use multi_agent_trading_syst.Prelude.Dict.{
  IsDict, get, put-IsDict, remove-IsDict, get-put, get-remove,
}
use multi_agent_trading_syst.Mt5.Orders.{Command, Response}
use multi_agent_trading_syst.Mt5.Bridge.{
  Bridge, waiting, cancelled, cancelled_in, handle_command, handle_result, handle_state,
}
use multi_agent_trading_syst.Mt5.Queue.{
  BridgeEvent, issued, timed_out, given_up, polled, posted_result, posted_state, Traffic,
  after_event, after_events, all_issued, Avoids, IsFresh, count_id, open_waits,
  after_events-in_order,
}

abbrev pub Futures-IsDict : {F : Type 0} → Traffic F → Type 0
Futures-IsDict t = IsDict t.bridge.result_futures

cancelled_in-IsDict : (id : ℕ) (d : _) → IsDict d → IsDict (cancelled_in id d)
cancelled_in-IsDict id d h = ground (arith, put-IsDict id cancelled d)

cancelled_in-waits :
    (j id : ℕ) (d : _) → open_waits (get j (cancelled_in id d)) ≤ open_waits (get j d)
cancelled_in-waits j id d = ground (arith, get-put j id cancelled d)

count_id-append :
    (id : ℕ) (rs : List Response) (r : Response)
    → count_id id (rs ++ (r ∷ [])) ≡ count_id id rs + count_id id (r ∷ [])
count_id-append id [] r = ground arith
count_id-append id (x ∷ rs) r = ground (arith, count_id-append id rs r)

module _ {F : Type 0} where
  poll-futures : (b : Bridge F) → (handle_command b).1.result_futures ≡ b.result_futures
  unfolding handle_command
  poll-futures b = by_queue b.command_queue refl
    where
      by_queue :
          (q : List (ℕ × Command F))
          → b.command_queue ≡ q
          → (handle_command b).1.result_futures ≡ b.result_futures
      by_queue [] e = rw e refl
      by_queue (c ∷ cs) e = rw e refl

  after_event-IsDict :
      (e : BridgeEvent F) (t : Traffic F) → Futures-IsDict t → Futures-IsDict (after_event e t)
  unfolding after_event handle_command handle_result handle_state
  after_event-IsDict (issued id c) t h = put-IsDict id waiting _ h
  after_event-IsDict (timed_out id) t h = cancelled_in-IsDict id _ h
  after_event-IsDict (given_up id) t h = remove-IsDict id _ h
  after_event-IsDict polled t h = rw (poll-futures t.bridge) h
  after_event-IsDict (posted_result none) t h = h
  after_event-IsDict (posted_result (some r)) t h = remove-IsDict r.command_id _ h
  after_event-IsDict (posted_state now none) t h = h
  after_event-IsDict (posted_state now (some body)) t h = h

  abbrev answers : ℕ → Traffic F → ℕ
  answers id t = count_id id t.delivered + open_waits (get id t.bridge.result_futures)

  after_event-answers :
      (id : ℕ) (e : BridgeEvent F) (t : Traffic F)
      → Futures-IsDict t
      → Avoids id e
      → answers id (after_event e t) ≤ answers id t
  unfolding after_event handle_command handle_result handle_state
  after_event-answers id (issued k c) t h fresh =
      ground (arith, get-put id k waiting t.bridge.result_futures)
  after_event-answers id (timed_out k) t h fresh =
      omega (arith, cancelled_in-waits id k t.bridge.result_futures)
  after_event-answers id (given_up k) t h fresh =
      ground (arith, get-remove id k t.bridge.result_futures h)
  after_event-answers id polled t h fresh =
      omega (arith, ap (λ d. open_waits (get id d)) (poll-futures t.bridge))
  after_event-answers id (posted_result none) t h fresh = omega arith
  after_event-answers id (posted_result (some r)) t h fresh = ground (
    arith,
    get-remove id r.command_id t.bridge.result_futures h,
    count_id-append id t.delivered r,
  )
  after_event-answers id (posted_state now none) t h fresh = omega arith
  after_event-answers id (posted_state now (some body)) t h fresh = omega arith

  after_events-answers :
      (id : ℕ) (es : List (BridgeEvent F)) (t : Traffic F)
      → Futures-IsDict t
      → IsFresh id es
      → answers id (after_events es t) ≤ answers id t
  after_events-answers id [] t h fresh = omega arith
  after_events-answers id (e ∷ es) t h (avoids, fresh) = omega (
    arith,
    after_event-answers id e t h avoids,
    after_events-answers id es (after_event e t) (after_event-IsDict e t h) fresh,
  )

-- Whatever callers and the terminal do, in whatever order, the commands that the terminal fetched,
-- followed by those still queued, are the commands that were there and then those that were issued,
-- each once and in the order of issue, also where the caller has given up; and a command whose id is
-- not issued again is answered at most once, and only while its caller waits.
pub after_events-IsServed :
    {F : Type 0} (id : ℕ) (es : List (BridgeEvent F)) (t : Traffic F)
    → Futures-IsDict t
    → IsFresh id es
    → ((after_events es t).fetched ++ (after_events es t).bridge.command_queue
        ≡ (t.fetched ++ t.bridge.command_queue) ++ all_issued es)
      × (count_id id (after_events es t).delivered
          ≤ count_id id t.delivered + open_waits (get id t.bridge.result_futures))
after_events-IsServed id es t h fresh =
    (after_events-in_order es t, omega (arith, after_events-answers id es t h fresh))
