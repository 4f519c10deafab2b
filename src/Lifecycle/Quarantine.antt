-- ===== src/Lifecycle/Quarantine.antt =====
-- The error counter of an agent (agents/base.py, `_handle_error`, `_should_continue`).
use multi_agent_trading_syst.Prelude.{
  ℕ, ◌+◌, ◌≤◌, ◌<◌, ◌≡◌, refl, sym, ◌∙◌, true, false, List, [], ◌∷◌, ◌++◌, map, arith, Bool-cases,
  inl, inr, length, leb,
}
use multi_agent_trading_syst.Lifecycle.Base.{
  BaseAgent, Handled, returned, raised, should_continue, after_message, consume, record_success,
  handle_error,
}

-- An agent that goes on has fewer errors in a row than its limit, which is not zero.
pub record IsHealthy (s : BaseAgent) : Type 0 where
  pub limited : 0 < s.max_consecutive_errors
  pub below : should_continue s ≡ true → s.consecutive_errors < s.max_consecutive_errors

after_message-IsHealthy :
    (m : Handled) (s : BaseAgent) → IsHealthy s → IsHealthy (after_message m s)
unfolding after_message record_success handle_error
after_message-IsHealthy returned s h = record { limited = h.limited; below = λ e. h.limited }
after_message-IsHealthy (raised text) s h =
    elim (Bool-cases (leb s.max_consecutive_errors (s.consecutive_errors + 1))) [
      | inl over ↦ rw over (record { limited = h.limited; below = λ e. absurd (cc e) })
      | inr under ↦ rw under (record { limited = h.limited; below = λ e. ground (arith, under) })
    ]

consume-IsHealthy : (ms : List Handled) (s : BaseAgent) → IsHealthy s → IsHealthy (consume ms s)
unfolding consume
consume-IsHealthy [] s h = h
consume-IsHealthy (m ∷ ms) s h = elim (Bool-cases (should_continue s)) [
  | inl on ↦ rw on (consume-IsHealthy ms (after_message m s) (after_message-IsHealthy m s h))
  | inr off ↦ rw off h
]

consume-stopped : (ms : List Handled) (s : BaseAgent) → should_continue s ≡ false → consume ms s ≡ s
unfolding consume
consume-stopped [] s h = refl
consume-stopped (m ∷ ms) s h = rw h refl

consume-append :
    (ms ns : List Handled) (s : BaseAgent) → consume (ms ++ ns) s ≡ consume ns (consume ms s)
unfolding consume
consume-append [] ns s = refl
consume-append (m ∷ ms) ns s = elim (Bool-cases (should_continue s)) [
  | inl on ↦ rw on (consume-append ms ns (after_message m s))
  | inr off ↦ rw off (sym (consume-stopped ns s off))
]

after_message-limit :
    (m : Handled) (s : BaseAgent)
    → (after_message m s).max_consecutive_errors ≡ s.max_consecutive_errors
unfolding after_message record_success handle_error
after_message-limit returned s = refl
after_message-limit (raised text) s = ground arith

consume-limit :
    (ms : List Handled) (s : BaseAgent)
    → (consume ms s).max_consecutive_errors ≡ s.max_consecutive_errors
unfolding consume
consume-limit [] s = refl
consume-limit (m ∷ ms) s = elim (Bool-cases (should_continue s)) [
  | inl on ↦ rw on (consume-limit ms (after_message m s) ∙ after_message-limit m s)
  | inr off ↦ rw off refl
]

raised-counts :
    (text : ℕ) (s : BaseAgent)
    → (after_message (raised text) s).consecutive_errors ≡ s.consecutive_errors + 1
unfolding after_message handle_error
raised-counts text s = ground arith

-- As long as an agent goes on, each of the errors in a row has been counted.
fails-count :
    (texts : List ℕ) (s : BaseAgent)
    → should_continue (consume (map raised texts) s) ≡ true
    → (consume (map raised texts) s).consecutive_errors ≡ s.consecutive_errors + length texts
unfolding consume
fails-count [] s h = omega arith
fails-count (text ∷ texts) s h = elim (Bool-cases (should_continue s)) [
  | inl on ↦
      let rest = fails-count texts (after_message (raised text) s) (rw on at h) in
      let one = raised-counts text s in rw on (omega (arith, rest, one))
  | inr off ↦ absurd (cc (off, rw off at h))
]

fails-stop :
    (texts : List ℕ) (s : BaseAgent)
    → IsHealthy s
    → s.max_consecutive_errors ≤ length texts
    → should_continue (consume (map raised texts) s) ≡ false
fails-stop texts s h enough = elim (Bool-cases (should_continue (consume (map raised texts) s))) [
  | inl on ↦
      let after = consume-IsHealthy (map raised texts) s h in
      let below = after.below on in
      let counted = fails-count texts s on in
      let limit = consume-limit (map raised texts) s in
      absurd (omega (arith, below, counted, limit, enough))
  | inr off ↦ off
]

-- Whatever came before, as many failing messages in a row as the limit allows stop a healthy agent,
-- and it handles none of the messages after them.
pub consume-quarantines :
    (ms ns : List Handled) (texts : List ℕ) (s : BaseAgent)
    → IsHealthy s
    → s.max_consecutive_errors ≤ length texts
    → (should_continue (consume (ms ++ (map raised texts ++ ns)) s) ≡ false)
      × (consume (ms ++ (map raised texts ++ ns)) s ≡ consume (ms ++ map raised texts) s)
consume-quarantines ms ns texts s h enough =
    let s1 = consume ms s in
    let fails = map raised texts in
    let limit = consume-limit ms s in
    let off = fails-stop texts s1 (consume-IsHealthy ms s h) (omega (arith, limit, enough)) in
    let tail_skipped = consume-stopped ns (consume fails s1) off in
    let split = consume-append ms (fails ++ ns) s ∙ consume-append fails ns s1 in
    let joined = consume-append ms fails s in
    (rw (split, tail_skipped) off, split ∙ tail_skipped ∙ sym joined)
