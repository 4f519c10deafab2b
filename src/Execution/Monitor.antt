-- ===== src/Execution/Monitor.antt =====
-- The stop-loss monitor of agents/execution/agent.py: which positions a cycle closes.
use multi_agent_trading_syst.Prelude.{
  ℕ, ◌*◌, ◌≡◌, refl, ap, ◌∙◌, Bool, true, false, not, Bool-cases, Option, none, some, List, [], ◌∷◌,
  if◌then◌else◌, ◌==◌, ◌&&◌, ◌||◌, arith, map, Option-cases, inl, inr, is_some,
}
use multi_agent_trading_syst.Prelude.Int.{pos}
use multi_agent_trading_syst.Models.Trade.{OrderSide}
use multi_agent_trading_syst.Prelude.Decimal.{Decimal, place8}
use multi_agent_trading_syst.Prelude.Dict.{Dict, IsDict, get, get-remove}
use multi_agent_trading_syst.Prelude.Float.{Float, nought}
use multi_agent_trading_syst.Broker.State.{
  PaperPosition, Broker, BrokerPosition, as_broker_position, get_positions,
}
use multi_agent_trading_syst.Broker.Order.{OrderIds, close_position, close_reference, settle}
use multi_agent_trading_syst.Broker.Equity.{close-held}
use multi_agent_trading_syst.Broker.Invariant.{IsValid, IsKeyed, close_position-IsValid}
use multi_agent_trading_syst.Execution.Agent.{
  ExecutionAgent, Breach, breach_of, breach_at, close_if, check_and_maybe_close, check_priced,
  monitor_positions, monitor_cycle, current_price,
}

close_position-get :
    (k symbol : ℕ) (price : Option Decimal) (ids : OrderIds) (b : Broker)
    → IsValid b
    → get k (close_position symbol price ids b).1.positions
      ≡ (if k == symbol then none else get k b.positions)
unfolding close_position settle
close_position-get k symbol price ids b v = elim (Option-cases (get symbol b.positions)) [
  | inl flat ↦ rw (flat, close_position) (ground arith)
  | inr (p, held) ↦
      rw (held, close_position)
        (rw (close-held p symbol (close_reference price p) ids b held)
          (get-remove k symbol b.positions v.one_per_symbol))
]

close_if-get :
    (k symbol : ℕ) (breach : Option Breach) (price : Decimal) (ids : OrderIds) (b : Broker)
    → IsValid b
    → get k (close_if breach symbol price ids b).1.positions
      ≡ (if k == symbol && is_some breach then none else get k b.positions)
close_if-get k symbol none price ids b v = ground arith
close_if-get k symbol (some w) price ids b v =
    close_position-get k symbol (some price) ids b v ∙ ground arith

close_if-result :
    (symbol : ℕ) (breach : Option Breach) (price : Decimal) (ids : OrderIds) (b : Broker)
    → is_some (get symbol b.positions) ≡ true
    → is_some (close_if breach symbol price ids b).0 ≡ is_some breach
unfolding close_position
close_if-result symbol none price ids b held = refl
close_if-result symbol (some w) price ids b held = elim (Option-cases (get symbol b.positions)) [
  | inl flat ↦ absurd (ground (arith, rw flat at held))
  | inr (p, found) ↦
      rw (found, close_position)
        (rw (close-held p symbol (close_reference (some price) p) ids b found) refl)
]

close_if-IsValid :
    (symbol : ℕ) (breach : Option Breach) (price : Decimal) (ids : OrderIds) (b : Broker)
    → IsValid b
    → IsValid (close_if breach symbol price ids b).1
close_if-IsValid symbol none price ids b v = v
close_if-IsValid symbol (some w) price ids b v = close_position-IsValid symbol (some price) ids b v

-- No position of a list is on this symbol.
abbrev Fresh : ℕ → List BrokerPosition → Type 0
Fresh k [] = Unit
Fresh k (p ∷ ps) = ((k == p.symbol) ≡ false) × Fresh k ps

-- The symbols of a list of positions are held, and no symbol is listed twice.
abbrev AreHeld : List BrokerPosition → Broker → Type 0
AreHeld [] b = Unit
AreHeld (p ∷ ps) b = (is_some (get p.symbol b.positions) ≡ true) × Fresh p.symbol ps × AreHeld ps b

-- A change at one symbol leaves the others held.
AreHeld-after :
    (k : ℕ) (ps : List BrokerPosition) (b b' : Broker)
    → ((j : ℕ) → (k == j) ≡ false → get j b'.positions ≡ get j b.positions)
    → Fresh k ps
    → AreHeld ps b
    → AreHeld ps b'
AreHeld-after k [] b b' same fresh h = tt
AreHeld-after k (p ∷ ps) b b' same (apart, fresh) (held, once, h) =
    (rw (same p.symbol apart) held, once, AreHeld-after k ps b b' same fresh h)

module _ {F : Type 0} ⦃f : Float F⦄ (sl tp : F) where
  abbrev gain : OrderSide → F → F → F
  gain OrderSide.buy entry current = f.div (f.sub current entry) entry
  gain OrderSide.sell entry current = f.div (f.sub entry current) entry

  -- Both prices are positive, and the gain is at most minus the stop or at least the target.
  abbrev pub is_breached : OrderSide → F → F → Bool
  is_breached side entry current =
      not (f.le entry nought || f.le current nought)
      && (f.le (gain side entry current) (f.neg sl) || f.le tp (gain side entry current))

  breach_of-agrees :
      (side : OrderSide) (entry current : F)
      → is_some (breach_of sl tp side entry current) ≡ is_breached side entry current
  unfolding breach_of
  breach_of-agrees OrderSide.buy entry current = ground arith
  breach_of-agrees OrderSide.sell entry current = ground arith

module _ {F : Type 0} ⦃f : Float F⦄ (sl tp : F) (price : ℕ → Option Decimal) (ids : ℕ → OrderIds)
    (publishes : ℕ → Bool) where
  -- A position is due if there is a price for it and that price breaches a threshold.
  abbrev due_at : BrokerPosition → Option Decimal → Bool
  due_at p none = false
  due_at p (some d) =
      is_breached sl tp p.side (f.of_decimal (pos (p.entry_price * place8))) (f.of_decimal d)

  -- The positions that a cycle gets to: it ends at the first one that is due and whose result cannot be
  -- published.
  abbrev pub examined : List BrokerPosition → List BrokerPosition
  examined [] = []
  examined (p ∷ ps) =
      let rest = examined ps in
      p ∷ (if due_at p (price p.symbol) && not (publishes p.symbol) then [] else rest)

  -- A symbol is due if one of these positions is on it and due.
  abbrev pub is_due : ℕ → List BrokerPosition → Bool
  is_due k [] = false
  is_due k (p ∷ ps) = k == p.symbol && due_at p (price p.symbol) || is_due k ps

  check_priced-get :
      (k : ℕ) (p : BrokerPosition) (o : Option Decimal) (b : Broker)
      → IsValid b
      → get k (check_priced sl tp p o (ids p.symbol) b).1.positions
        ≡ (if k == p.symbol && due_at p o then none else get k b.positions)
  unfolding check_priced check_and_maybe_close
  check_priced-get k p none b v = ground arith
  check_priced-get k p (some d) b v =
      let entry = f.of_decimal (pos (p.entry_price * place8)) in
      close_if-get k p.symbol (breach_at sl tp p d) d (ids p.symbol) b v
      ∙ ap (λ c. if k == p.symbol && c then none else get k b.positions)
          (breach_of-agrees sl tp p.side entry (f.of_decimal d))

  -- A held position is closed, with a result, when it is due.
  check_priced-result :
      (p : BrokerPosition) (o : Option Decimal) (b : Broker)
      → is_some (get p.symbol b.positions) ≡ true
      → is_some (check_priced sl tp p o (ids p.symbol) b).0 ≡ due_at p o
  unfolding check_priced check_and_maybe_close
  check_priced-result p none b held = refl
  check_priced-result p (some d) b held =
      let entry = f.of_decimal (pos (p.entry_price * place8)) in
      close_if-result p.symbol (breach_at sl tp p d) d (ids p.symbol) b held
      ∙ breach_of-agrees sl tp p.side entry (f.of_decimal d)

  check_priced-IsValid :
      (p : BrokerPosition) (o : Option Decimal) (b : Broker)
      → IsValid b
      → IsValid (check_priced sl tp p o (ids p.symbol) b).1
  unfolding check_priced check_and_maybe_close
  check_priced-IsValid p none b v = v
  check_priced-IsValid p (some d) b v =
      close_if-IsValid p.symbol (breach_at sl tp p d) d (ids p.symbol) b v

  check_priced-AreHeld :
      (p : BrokerPosition) (o : Option Decimal) (ps : List BrokerPosition) (b : Broker)
      → IsValid b
      → Fresh p.symbol ps
      → AreHeld ps b
      → AreHeld ps (check_priced sl tp p o (ids p.symbol) b).1
  check_priced-AreHeld p o ps b v fresh held =
      AreHeld-after p.symbol ps b (check_priced sl tp p o (ids p.symbol) b).1
        (λ j apart.
          check_priced-get j p o b v
          ∙ (let other : (j == p.symbol) ≡ false = ground (arith, apart) in rw other refl))
        fresh held

  pub monitor_positions-get :
      (k : ℕ) (ps : List BrokerPosition) (b : Broker)
      → IsValid b
      → AreHeld ps b
      → get k (monitor_positions sl tp price ids publishes ps b).1.positions
        ≡ (if is_due k (examined ps) then none else get k b.positions)
  unfolding monitor_positions
  monitor_positions-get k [] b v held = refl
  monitor_positions-get k (p ∷ ps) b v (here, once, held) =
      let o = price p.symbol in
      let b' = (check_priced sl tp p o (ids p.symbol) b).1 in
      let closed = check_priced-result p o b here in
      let now = check_priced-get k p o b v in
      let rest =
        monitor_positions-get k ps b' (check_priced-IsValid p o b v)
          (check_priced-AreHeld p o ps b v once held) in
      rw closed (elim (Bool-cases (due_at p o && not (publishes p.symbol))) [
        | inl ends ↦ rw ends (now ∙ ground arith)
        | inr goes_on ↦ rw goes_on (rest ∙ rw now (ground arith))
      ])

Fresh-positions :
    (k : ℕ) (d : Dict PaperPosition)
    → get k d ≡ none
    → IsKeyed d
    → Fresh k (map as_broker_position d)
Fresh-positions k [] h keyed = tt
Fresh-positions k (e ∷ d) h (of_key, keyed) = elim (Bool-cases (k == e.0)) [
  | inl same ↦ let found : some e.1 ≡ none = rw same at h in absurd (ground (arith, found))
  | inr other ↦ (rw of_key other, Fresh-positions k d (rw other at h) keyed)
]

positions-AreHeld :
    (d : Dict PaperPosition) (b : Broker)
    → IsDict d
    → IsKeyed d
    → ((k : ℕ) (p : PaperPosition) → get k d ≡ some p → get k b.positions ≡ some p)
    → AreHeld (map as_broker_position d) b
positions-AreHeld [] b dict keyed same = tt
positions-AreHeld (e ∷ d) b (once, dict) (of_key, keyed) same =
    let found : get e.0 b.positions ≡ some e.1 = same e.0 e.1 (ground arith) in
    let rest = λ (k : ℕ) (p : PaperPosition) (h : get k d ≡ some p).
      same k p (elim (Bool-cases (k == e.0)) [
        | inl at_head ↦
            let key : k ≡ e.0 = ground (arith, at_head) in
            absurd (ground (arith, rw key at h, once))
        | inr other ↦ rw other h
      ]) in
    (
      rw (of_key, found) refl,
      rw of_key (Fresh-positions e.0 d once keyed),
      positions-AreHeld d b dict keyed rest,
    )

-- On a valid portfolio, with no order handled and no ticker arriving in between, a cycle of the paper
-- monitor examines the positions in turn, up to and including the first one that is due and whose result
-- cannot be published. Afterwards a symbol is flat if one of these positions is on it, both of its prices
-- are positive, and its gain is at most minus the stop or at least the target; otherwise it holds what
-- it held.
pub monitor_cycle-get :
    {F : Type 0} ⦃f : Float F⦄ (sl tp : F) (cached : ℕ → Option Decimal) (ids : ℕ → OrderIds)
    (publishes : ℕ → Bool) (s : ExecutionAgent) (k : ℕ)
    → IsValid s.broker
    → get k (monitor_cycle sl tp cached ids publishes s).1.broker.positions ≡ (
        let price = λ (symbol : ℕ). current_price cached symbol s in
        if is_due sl tp price ids publishes k
          (examined sl tp price ids publishes (get_positions s.broker))
        then none
        else get k s.broker.positions)
unfolding monitor_cycle get_positions
monitor_cycle-get sl tp cached ids publishes s k v =
    let b = s.broker in
    monitor_positions-get sl tp (λ symbol. current_price cached symbol s) ids publishes k
      (map as_broker_position b.positions) b v
      (positions-AreHeld b.positions b v.one_per_symbol v.keyed (λ j p h. h))
