-- ===== src/Lifecycle/Restarts.antt =====
-- How often an agent is restarted, and how long that takes (agents/base.py, `run_agent`).
use multi_agent_trading_syst.Prelude.{
  ℕ, zero, suc, ◌+◌, ◌*◌, ◌^◌, ◌≤◌, ◌<◌, ◌≡◌, refl, Bool, true, false, arith, leb, Bool-cases,
  leb→le, inl, inr, ◌⊎◌,
}
use multi_agent_trading_syst.Lifecycle.Supervisor.{
  Ending, clean, cancelled, crashed, Report, never_run, finished, gave_up, restarted, supervise,
  run_agent,
}

-- How many instances ran.
abbrev pub runs : Report → ℕ
runs never_run = 0
runs finished = 1
runs gave_up = 1
runs (restarted w r) = suc (runs r)

-- The seconds of all waits together.
abbrev pub total_wait : Report → ℕ
total_wait (restarted w r) = w + total_wait r
total_wait _ = 0

abbrev pub ends_given_up : Report → Bool
ends_given_up gave_up = true
ends_given_up (restarted w r) = ends_given_up r
ends_given_up _ = false

double : (n : ℕ) → 2 ^ suc n ≡ 2 * 2 ^ n
double n = omega arith

grows : (a b : ℕ) → a ≤ b → 2 ^ a ≤ 2 ^ b
grows a zero h = let a_is : a ≡ 0 = omega (arith, h) in rw a_is (omega arith)
grows a (suc b) h = elim (Bool-cases (leb a b)) [
  | inl small ↦ omega (arith, grows a b (leb→le a b small), double b)
  | inr large ↦ let a_is : a ≡ suc b = ground (arith, h, large) in rw a_is (omega arith)
]

Ending-cases : (e : Ending) → (e ≡ clean) ⊎ (e ≡ cancelled) ⊎ (e ≡ crashed)
Ending-cases clean = inl refl
Ending-cases cancelled = inr (inl refl)
Ending-cases crashed = inr (inr refl)

-- What the supervisor's report says about the endings of the instances from one crash count on.
record Reports (ending : ℕ → Ending) (left crash_count : ℕ) (r : Report) : Type 0 where
  few : runs r ≤ left
  quick : total_wait r + 2 ^ suc crash_count ≤ 2 ^ (crash_count + left)
  all_crashed : ends_given_up r ≡ true → (k : ℕ) → k < left → ending (crash_count + k) ≡ crashed

last-crashed :
    (ending : ℕ → Ending) (c k : ℕ) → ending c ≡ crashed → k < 1 → ending (c + k) ≡ crashed
last-crashed ending c k e h = let same : c + k ≡ c = omega (arith, h) in rw same e

finished-Reports : (ending : ℕ → Ending) (left c : ℕ) → Reports ending (suc left) c finished
finished-Reports ending left c = record {
  few = omega arith;
  quick = omega (arith, grows (suc c) (c + suc left) (omega arith));
  all_crashed = λ e. absurd (cc e);
}

gave_up-Reports : (ending : ℕ → Ending) (c : ℕ) → ending c ≡ crashed → Reports ending 1 c gave_up
gave_up-Reports ending c is = record {
  few = omega arith;
  quick = omega (arith, grows (suc c) (c + 1) (omega arith));
  all_crashed = λ e k h. last-crashed ending c k is h;
}

next-crashed :
    (ending : ℕ → Ending) (left c : ℕ)
    → ending c ≡ crashed
    → ((k : ℕ) → k < left → ending (suc c + k) ≡ crashed)
    → (k : ℕ) → k < suc left
    → ending (c + k) ≡ crashed
next-crashed ending left c is rest zero h = last-crashed ending c 0 is (omega arith)
next-crashed ending left c is rest (suc k) h =
    let same : c + suc k ≡ suc c + k = omega arith in rw same (rest k (omega (arith, h)))

restarted-Reports :
    (ending : ℕ → Ending) (left c : ℕ) (r : Report)
    → ending c ≡ crashed
    → Reports ending left (suc c) r
    → Reports ending (suc left) c (restarted (2 ^ suc c) r)
restarted-Reports ending left c r is h = record {
  few = omega (arith, h.few);
  quick =
      let same : suc c + left ≡ c + suc left = omega arith in
      let rest : total_wait r + 2 ^ suc (suc c) ≤ 2 ^ (c + suc left) = rw same at h.quick in
      omega (arith, rest, double (suc c));
  all_crashed = λ e. next-crashed ending left c is (h.all_crashed e);
}

more-left : (n : ℕ) → leb (suc n) 0 ≡ false
more-left n = ground arith

supervise-crashed :
    (ending : ℕ → Ending) (n c : ℕ)
    → ending c ≡ crashed
    → supervise ending (suc (suc n)) c ≡ restarted (2 ^ suc c) (supervise ending (suc n) (suc c))
unfolding supervise
supervise-crashed ending n c is = rw (is, supervise) (rw (more-left n) refl)

supervise-Reports :
    (ending : ℕ → Ending) (left c : ℕ) → Reports ending (suc left) c (supervise ending (suc left) c)
unfolding supervise
supervise-Reports ending zero c = elim (Ending-cases (ending c)) [
  | inl is ↦ rw (is, supervise) (finished-Reports ending 0 c)
  | inr (inl is) ↦ rw (is, supervise) (finished-Reports ending 0 c)
  | inr (inr is) ↦ rw (is, supervise) (gave_up-Reports ending c is)
]
supervise-Reports ending (suc n) c =
    let rest = supervise-Reports ending n (suc c) in
    elim (Ending-cases (ending c)) [
      | inl is ↦ rw (is, supervise) (finished-Reports ending (suc n) c)
      | inr (inl is) ↦ rw (is, supervise) (finished-Reports ending (suc n) c)
      | inr (inr is) ↦
          rw (supervise-crashed ending n c is) (restarted-Reports ending (suc n) c _ is rest)
    ]

-- An agent that may crash at all is run at most as often as it may crash, all waits together stay
-- below two to that power (they double from two seconds on), and the supervisor gives up only when
-- every one of the allowed instances has crashed.
pub run_agent-Reports :
    (ending : ℕ → Ending) (max_crashes : ℕ)
    → 0 < max_crashes
    → let r = run_agent ending max_crashes in
      (runs r ≤ max_crashes)
      × (total_wait r + 2 ≤ 2 ^ max_crashes)
      × (ends_given_up r ≡ true → (k : ℕ) → k < max_crashes → ending k ≡ crashed)
unfolding run_agent
run_agent-Reports ending zero h = absurd (omega (arith, h))
run_agent-Reports ending (suc left) h =
    let r = supervise-Reports ending left 0 in
    let bare : (k : ℕ) → 0 + k ≡ k = λ k. omega arith in
    (
      r.few,
      omega (arith, rw (bare (suc left)) at r.quick),
      λ e k small. rw (bare k) at (r.all_crashed e k small),
    )
