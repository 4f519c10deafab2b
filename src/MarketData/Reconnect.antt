-- ===== src/MarketData/Reconnect.antt =====
-- The reconnection of a stream comes to an end (agents/market_data/websocket_handler.py).
use multi_agent_trading_syst.Prelude.{
  ℕ, zero, suc, ◌+◌, ◌≤◌, ◌≡◌, refl, true, false, ◌&&◌, Option, some, [], ◌∷◌, arith, ltb, leb,
  Bool-cases, inl, inr, length, length-append, All, All-append,
}
use multi_agent_trading_syst.Prelude.Float.{Float, IsOrdered, min_float}
use multi_agent_trading_syst.MarketData.Streams.{
  StreamHealth, StreamEnd, World, Loop, new_loop, open_stream, fail_stream, wait_stream, wait_after,
  stream_with_reconnect, after_stream, returned, cancelled, raised,
}

module _ {F : Type 0} ⦃f : Float F⦄ where
  -- No wait is longer than a minute, and at most the allowed reconnections were waited for.
  pub record IsBounded (limit : ℕ) (s : Loop F) : Type 0 where
    pub opened : s.opened ≤ limit + 1
    pub attempts : s.attempt ≤ limit + 1
    pub waited : length s.waits ≤ limit
    pub short_waits : All (λ x. f.le x (f.lit 60 1) ≡ true) s.waits

  -- Before a round every failure was waited for.
  record IsPaced (limit : ℕ) (s : Loop F) : Type 0 where
    attempts : s.attempt ≤ limit
    opened : s.opened ≡ s.attempt
    waited : length s.waits ≡ s.attempt
    short_waits : All (λ x. f.le x (f.lit 60 1) ≡ true) s.waits

  -- The loop gives a result, with the stream disconnected and within the bounds.
  abbrev pub Ends : ℕ → Option (Loop F) → Type 0
  Ends limit x = (t : Loop F) × ((x ≡ some t) × ((t.health.connected ≡ false) × IsBounded limit t))

  after_stream-Ends :
      (limit : ℕ) (s : Loop F) (again : Option (Loop F)) (e : StreamEnd)
      → IsPaced limit s
      → (ltb limit (s.attempt + 1) ≡ false → Ends limit again)
      → Ends limit (after_stream limit s again e)
  after_stream-Ends limit s again returned h k = (
    _,
    (
      refl,
      (
        refl,
        record {
          opened = omega (arith, h.opened, h.attempts);
          attempts = omega (arith, h.attempts);
          waited = omega (arith, h.waited, h.attempts);
          short_waits = h.short_waits;
        },
      ),
    ),
  )
  after_stream-Ends limit s again cancelled h k = (
    _,
    (
      refl,
      (
        refl,
        record {
          opened = omega (arith, h.opened, h.attempts);
          attempts = omega (arith, h.attempts);
          waited = omega (arith, h.waited, h.attempts);
          short_waits = h.short_waits;
        },
      ),
    ),
  )
  after_stream-Ends limit s again raised h k = elim (Bool-cases (ltb limit (s.attempt + 1))) [
    | inl last ↦ rw last (
      _,
      (
        refl,
        (
          refl,
          record {
            opened = omega (arith, h.opened, h.attempts);
            attempts = omega (arith, h.attempts);
            waited = omega (arith, h.waited, h.attempts);
            short_waits = h.short_waits;
          },
        ),
      ),
    )
    | inr more ↦ rw more (k more)
  ]

module _ {F : Type 0} ⦃f : Float F⦄ (o : IsOrdered F) where
  min_float-le : (x y : F) → f.le (min_float x y) y ≡ true
  min_float-le x y = elim (Bool-cases (f.lt y x)) [
    | inl less ↦ rw less (o.le_refl y)
    | inr more ↦ rw more (ground (arith, o.lt-eq-not-le y x, more))
  ]

  wait-IsPaced :
      (limit : ℕ) (delay : F) (s : Loop F)
      → IsPaced limit s
      → ltb limit (s.attempt + 1) ≡ false
      → IsPaced limit (wait_stream delay (fail_stream (open_stream s)))
  wait-IsPaced limit delay s h more = record {
    attempts = ground (arith, more);
    opened = omega (arith, h.opened);
    waited = omega (arith, h.waited, length-append s.waits (wait_after delay (s.attempt + 1) ∷ []));
    short_waits = All-append _ s.waits _ h.short_waits (min_float-le _ _, tt);
  }

  reconnect_from :
      (k limit : ℕ) (delay : F) (w : World) (s : Loop F)
      → IsPaced limit s
      → limit + 1 ≤ s.attempt + k
      → (t : Loop F) × ((stream_with_reconnect k limit delay w s ≡ some t)
          × ((t.health.connected ≡ false) × IsBounded limit t))
  unfolding stream_with_reconnect
  reconnect_from zero limit delay w s h enough = absurd (omega (arith, h.attempts, enough))
  reconnect_from (suc k) limit delay w s h enough =
      elim (Bool-cases (w.running s.attempt && leb s.attempt limit)) [
        | inr over ↦ rw over (
          _,
          (
            refl,
            (
              refl,
              record {
                opened = omega (arith, h.opened, h.attempts);
                attempts = omega (arith, h.attempts);
                waited = omega (arith, h.waited, h.attempts);
                short_waits = h.short_waits;
              },
            ),
          ),
        )
        | inl on ↦ rw on (
            after_stream-Ends limit s _ (w.ending s.attempt) h λ more.
              reconnect_from k limit delay w _ (wait-IsPaced limit delay s h more)
                (omega (arith, enough)))
      ]

  -- However its stream ends each time, the loop comes to an end within one round more than the allowed
  -- reconnections: it opens the stream at most that often, waits at most as often as it may reconnect
  -- and never longer than a minute, and leaves the stream disconnected.
  pub stream_with_reconnect-Ends :
      (limit : ℕ) (delay : F) (w : World) (health : StreamHealth)
      → Ends limit (stream_with_reconnect (limit + 1) limit delay w (new_loop health))
  stream_with_reconnect-Ends limit delay w health =
      reconnect_from (limit + 1) limit delay w (new_loop health)
        (record { attempts = omega arith; opened = refl; waited = refl; short_waits = tt })
        (omega arith)
