-- ===== src/Backtest/Accounting.antt =====
-- The accounting of a backtest (backtest/engine.py): realized equity, trades and the equity curve.
use multi_agent_trading_syst.Prelude.{
  ℕ, suc, ◌-◌, ◌≡◌, refl, false, Option, none, some, List, [], ◌∷◌, ◌++◌, Bool-cases, inl, inr,
  length,
}
use multi_agent_trading_syst.Prelude.Deque.{last, last-append}
use multi_agent_trading_syst.Prelude.Float.{Float}
use multi_agent_trading_syst.Models.Market.{OhlcvCandle}
use multi_agent_trading_syst.Models.Trade.{OrderSide, same_side}
use multi_agent_trading_syst.MarketData.Buffer.{CandleBuffer}
use multi_agent_trading_syst.Backtest.Engine.{
  BacktestConfig, OpenTrade, ExitReason, Trade, EquityPoint, Replay, registry_add, trade_of,
  open_trade, on_signal, end_of_data, close_trade, fill_side, fill_pending, bracket_of, close_at,
  check_bracket, equity_at, mark, replay_bar, decide_next, replay_from, start_replay, finish_replay,
  run_with_decider, init, is_open, last_candle_of,
}

module _ {F : Type 0} ⦃f : Float F⦄ where
  -- A balance with the PnL of trades added from the first to the last.
  abbrev pub booked_from : F → List (Trade F) → F
  booked_from x [] = x
  booked_from x (t ∷ ts) = booked_from (f.add x t.pnl_usd) ts

  booked_from-append :
      (x : F) (ts : List (Trade F)) (t : Trade F)
      → booked_from x (ts ++ (t ∷ [])) ≡ f.add (booked_from x ts) t.pnl_usd
  booked_from-append x [] t = refl
  booked_from-append x (u ∷ us) t = booked_from-append (f.add x u.pnl_usd) us t

  -- The realized equity is what the trades so far booked.
  abbrev IsBooked : F → Replay F → Type 0
  IsBooked x s = s.realized_equity ≡ booked_from x s.trades

module _ {F : Type 0} ⦃f : Float F⦄ (g : BacktestConfig F) (x : F) where
  close_trade-IsBooked :
      (p : OpenTrade F) (raw : F) (time index : ℕ) (reason : ExitReason)
      (next : Option (OpenTrade F)) (s : Replay F)
      → IsBooked x s
      → IsBooked x (close_trade g p raw time index reason next s)
  unfolding close_trade
  close_trade-IsBooked p raw time index reason next s h =
      rw (booked_from-append x s.trades _) (rw h refl)

  fill_side-IsBooked :
      (side : OrderSide) (i : ℕ) (c : OhlcvCandle) (o : Option (OpenTrade F)) (s : Replay F)
      → IsBooked x s
      → IsBooked x (fill_side g side i c o s)
  unfolding fill_side
  fill_side-IsBooked side i c none s h = h
  fill_side-IsBooked side i c (some p) s h =
      let raw = f.of_decimal c.open_price in
      let net = (trade_of g p raw c.timestamp i on_signal).pnl_usd in
      let next = open_trade g side raw c.timestamp i (f.add s.realized_equity net) in
      elim (Bool-cases (same_side p.side side)) [
        | inl same ↦ rw same h
        | inr opposite ↦
            rw opposite (close_trade-IsBooked p raw c.timestamp i on_signal (some next) s h)
      ]

  fill_pending-IsBooked :
      (o : Option OrderSide) (i : ℕ) (c : OhlcvCandle) (s : Replay F)
      → IsBooked x s
      → IsBooked x (fill_pending g o i c s)
  unfolding fill_pending
  fill_pending-IsBooked none i c s h = h
  fill_pending-IsBooked (some side) i c s h = fill_side-IsBooked side i c s.position s h

  close_at-IsBooked :
      (p : OpenTrade F) (o : Option (F × ExitReason)) (i : ℕ) (c : OhlcvCandle) (s : Replay F)
      → IsBooked x s
      → IsBooked x (close_at g p o i c s)
  unfolding close_at
  close_at-IsBooked p none i c s h = h
  close_at-IsBooked p (some (raw, reason)) i c s h = close_trade-IsBooked p raw _ i reason none s h

  check_bracket-IsBooked :
      (o : Option (OpenTrade F)) (i : ℕ) (c : OhlcvCandle) (s : Replay F)
      → IsBooked x s
      → IsBooked x (check_bracket g o i c s)
  unfolding check_bracket
  check_bracket-IsBooked none i c s h = h
  check_bracket-IsBooked (some p) i c s h = close_at-IsBooked p (bracket_of g p c) i c s h

  replay_bar-IsBooked :
      (i : ℕ) (c : OhlcvCandle) (s : Replay F) → IsBooked x s → IsBooked x (replay_bar g i c s)
  unfolding replay_bar mark
  replay_bar-IsBooked i c s h =
      let s0 = record s { registry = registry_add c s.registry } in
      let s1 = fill_pending g s0.pending i c s0 in
      check_bracket-IsBooked s1.position i c s1 (fill_pending-IsBooked s0.pending i c s0 h)

  replay_from-IsBooked :
      (decide : CandleBuffer → ℕ → Option OrderSide) (i : ℕ) (cs : List OhlcvCandle) (s : Replay F)
      → IsBooked x s
      → IsBooked x (replay_from g decide i cs s)
  unfolding replay_from
  replay_from-IsBooked decide i [] s h = h
  replay_from-IsBooked decide i (c ∷ []) s h = replay_bar-IsBooked i c s h
  replay_from-IsBooked decide i (c ∷ d ∷ ds) s h =
      replay_from-IsBooked decide (suc i) (d ∷ ds) (decide_next g decide i c (replay_bar g i c s))
        (replay_bar-IsBooked i c s h)

  -- The last point of the curve, when no position is open, is the realized equity.
  abbrev IsSettled : Replay F → Type 0
  IsSettled s =
      (point : EquityPoint F) × (last s.curve ≡ some point)
      × (s.position ≡ none → point.equity ≡ s.realized_equity)

  flat-equity :
      (o : Option (OpenTrade F)) (c : OhlcvCandle) (y : F) → o ≡ none → equity_at g o c y ≡ y
  unfolding equity_at
  flat-equity o c y e = rw e refl

  mark-IsSettled : (c : OhlcvCandle) (s : Replay F) → IsSettled (mark g c s)
  unfolding mark
  mark-IsSettled c s = (
    record {
      timestamp = c.timestamp;
      equity = equity_at g s.position c s.realized_equity;
      in_market = is_open g s.position;
    },
    last-append _ s.curve,
    flat-equity s.position c s.realized_equity,
  )

  replay_bar-IsSettled : (i : ℕ) (c : OhlcvCandle) (s : Replay F) → IsSettled (replay_bar g i c s)
  unfolding replay_bar
  replay_bar-IsSettled i c s =
      let s0 = record s { registry = registry_add c s.registry } in
      let s1 = fill_pending g s0.pending i c s0 in
      mark-IsSettled c (check_bracket g s1.position i c s1)

  replay_from-IsSettled :
      (decide : CandleBuffer → ℕ → Option OrderSide) (i : ℕ) (c : OhlcvCandle)
      (cs : List OhlcvCandle) (s : Replay F)
      → IsSettled (replay_from g decide i (c ∷ cs) s)
  unfolding replay_from
  replay_from-IsSettled decide i c [] s = replay_bar-IsSettled i c s
  replay_from-IsSettled decide i c (d ∷ ds) s =
      replay_from-IsSettled decide (suc i) d ds (decide_next g decide i c (replay_bar g i c s))

  -- What a finished run has: its books balance, and its curve ends at the realized equity.
  pub record IsFinished (s : Replay F) : Type 0 where
    pub books : IsBooked x s
    pub end : EquityPoint F
    pub is_end : last s.curve ≡ some end
    pub balanced : end.equity ≡ s.realized_equity

  finish_replay-IsFinished :
      (o : Option (OpenTrade F)) (n : ℕ) (c : OhlcvCandle) (s : Replay F)
      → s.position ≡ o
      → IsBooked x s
      → IsSettled s
      → IsFinished (finish_replay g o n c s)
  unfolding finish_replay
  finish_replay-IsFinished none n c s e h (point, is_last, flat) = record {
    books = h;
    end = point;
    is_end = is_last;
    balanced = flat e;
  }
  finish_replay-IsFinished (some p) n c s e h settled =
      let raw = f.of_decimal c.close in
      let s' = close_trade g p raw c.timestamp (n - 1) end_of_data (some p) s in
      record {
        books = close_trade-IsBooked p raw c.timestamp (n - 1) end_of_data (some p) s h;
        end = record { timestamp = c.timestamp; equity = s'.realized_equity; in_market = false };
        is_end = last-append _ (init s'.curve);
        balanced = refl;
      }

-- Whatever the candles and the decider, the realized equity of a run is the balance at the start with
-- the PnL of its trades added from the first to the last, and its curve ends at that equity.
pub run_with_decider-IsFinished :
    {F : Type 0} ⦃f : Float F⦄ (g : BacktestConfig F) (c : OhlcvCandle) (cs : List OhlcvCandle)
    (decide : CandleBuffer → ℕ → Option OrderSide)
    → IsFinished g g.initial_balance (run_with_decider g (c ∷ cs) decide)
unfolding run_with_decider
run_with_decider-IsFinished g c cs decide =
    let s = replay_from g decide 0 (c ∷ cs) (start_replay g) in
    finish_replay-IsFinished g g.initial_balance s.position (length (c ∷ cs))
      (last_candle_of g c cs) s refl
      (replay_from-IsBooked g g.initial_balance decide 0 (c ∷ cs) (start_replay g) refl)
      (replay_from-IsSettled g g.initial_balance decide 0 c cs (start_replay g))
