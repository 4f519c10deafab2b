-- ===== src/Backtest/Lookahead.antt =====
-- The first bars of a backtest beside the later ones (backtest/engine.py).
use multi_agent_trading_syst.Prelude.{
  ℕ, suc, ◌+◌, ◌-◌, ◌<◌, ◌≡◌, refl, ◌∙◌, ap, false, Option, none, some, List, [], ◌∷◌, ◌++◌, arith,
  Bool-cases, inl, inr, length, length-append,
}
use multi_agent_trading_syst.Prelude.Float.{Float}
use multi_agent_trading_syst.Models.Market.{OhlcvCandle}
use multi_agent_trading_syst.Models.Trade.{OrderSide, same_side}
use multi_agent_trading_syst.MarketData.Buffer.{CandleBuffer}
use multi_agent_trading_syst.Backtest.Engine.{
  BacktestConfig, OpenTrade, ExitReason, EquityPoint, Replay, registry_add, close_trade, fill_side,
  fill_pending, bracket_of, close_at, check_bracket, equity_at, mark, replay_bar, decide_next,
  replay_from, start_replay, finish_replay, run_with_decider, init, is_open, last_candle_of,
  end_of_data,
}

module _ {ℓ} {A : Type ℓ} where
  -- The second list begins with the first.
  abbrev pub IsPrefix : List A → List A → Type ℓ
  IsPrefix xs ys = (zs : List A) × (ys ≡ xs ++ zs)

  append_assoc : (xs ys zs : List A) → (xs ++ ys) ++ zs ≡ xs ++ (ys ++ zs)
  append_assoc [] ys zs = refl
  append_assoc (x ∷ xs) ys zs = ap (λ l. x ∷ l) (append_assoc xs ys zs)

  init-append : (xs : List A) (y : A) (ys : List A) → init (xs ++ (y ∷ ys)) ≡ xs ++ init (y ∷ ys)
  init-append [] y ys = refl
  init-append (x ∷ []) y ys = refl
  init-append (x ∷ z ∷ zs) y ys = ap (λ l. x ∷ l) (init-append (z ∷ zs) y ys)

module _ {F : Type 0} ⦃f : Float F⦄ (g : BacktestConfig F) where
  fill_side-curve :
      (side : OrderSide) (i : ℕ) (c : OhlcvCandle) (o : Option (OpenTrade F)) (s : Replay F)
      → (fill_side g side i c o s).curve ≡ s.curve
  unfolding fill_side close_trade
  fill_side-curve side i c none s = refl
  fill_side-curve side i c (some p) s = elim (Bool-cases (same_side p.side side)) [
    | inl same ↦ rw same refl
    | inr opposite ↦ rw opposite refl
  ]

  fill_pending-curve :
      (o : Option OrderSide) (i : ℕ) (c : OhlcvCandle) (s : Replay F)
      → (fill_pending g o i c s).curve ≡ s.curve
  unfolding fill_pending
  fill_pending-curve none i c s = refl
  fill_pending-curve (some side) i c s = fill_side-curve side i c s.position s

  close_at-curve :
      (p : OpenTrade F) (o : Option (F × ExitReason)) (i : ℕ) (c : OhlcvCandle) (s : Replay F)
      → (close_at g p o i c s).curve ≡ s.curve
  unfolding close_at close_trade
  close_at-curve p none i c s = refl
  close_at-curve p (some (raw, reason)) i c s = refl

  check_bracket-curve :
      (o : Option (OpenTrade F)) (i : ℕ) (c : OhlcvCandle) (s : Replay F)
      → (check_bracket g o i c s).curve ≡ s.curve
  unfolding check_bracket
  check_bracket-curve none i c s = refl
  check_bracket-curve (some p) i c s = close_at-curve p (bracket_of g p c) i c s

  -- A bar adds one point to the curve.
  replay_bar-curve :
      (i : ℕ) (c : OhlcvCandle) (s : Replay F)
      → (point : EquityPoint F) × ((replay_bar g i c s).curve ≡ s.curve ++ (point ∷ []))
  unfolding replay_bar mark
  replay_bar-curve i c s =
      let s0 = record s { registry = registry_add c s.registry } in
      let s1 = fill_pending g s0.pending i c s0 in
      let s2 = check_bracket g s1.position i c s1 in
      let same : s2.curve ≡ s.curve =
        check_bracket-curve s1.position i c s1 ∙ fill_pending-curve s0.pending i c s0 in
      let point : EquityPoint F = record {
        timestamp = c.timestamp;
        equity = equity_at g s2.position c s2.realized_equity;
        in_market = is_open g s2.position;
      } in
      (point, ap (λ l. l ++ (point ∷ [])) same)

  -- The bars of a list, each with a decision at its end.
  abbrev pub replay_all :
      (CandleBuffer → ℕ → Option OrderSide) → ℕ → List OhlcvCandle → Replay F → Replay F
  replay_all decide i [] s = s
  replay_all decide i (c ∷ cs) s =
      replay_all decide (suc i) cs (decide_next g decide i c (replay_bar g i c s))

  -- Up to a bar that is not the last one, the loop is the same whatever follows.
  replay_from-split :
      (decide : CandleBuffer → ℕ → Option OrderSide) (i : ℕ) (pre : List OhlcvCandle)
      (c : OhlcvCandle) (cs : List OhlcvCandle) (s : Replay F)
      → replay_from g decide i (pre ++ (c ∷ cs)) s
        ≡ replay_from g decide (i + length pre) (c ∷ cs) (replay_all decide i pre s)
  unfolding replay_from
  replay_from-split decide i [] c cs s = ap (λ n. replay_from g decide n (c ∷ cs) s) (omega arith)
  replay_from-split decide i (d ∷ []) c cs s =
      ap (λ n. replay_from g decide n (c ∷ cs) (decide_next g decide i d (replay_bar g i d s)))
        (omega arith)
  replay_from-split decide i (d ∷ e ∷ es) c cs s =
      let s' = decide_next g decide i d (replay_bar g i d s) in
      replay_from-split decide (suc i) (e ∷ es) c cs s'
      ∙ ap (λ n. replay_from g decide n (c ∷ cs) (replay_all decide (suc i) (e ∷ es) s'))
          (omega arith)

  -- The second list begins with the first and is longer.
  abbrev Extends : List (EquityPoint F) → List (EquityPoint F) → Type 0
  Extends xs ys = (z : EquityPoint F) × (zs : List (EquityPoint F)) × (ys ≡ xs ++ (z ∷ zs))

  replay_from-Extends :
      (decide : CandleBuffer → ℕ → Option OrderSide) (i : ℕ) (c : OhlcvCandle)
      (cs : List OhlcvCandle) (s : Replay F)
      → Extends s.curve (replay_from g decide i (c ∷ cs) s).curve
  unfolding replay_from
  replay_from-Extends decide i c [] s = let (z, e) = replay_bar-curve i c s in (z, [], e)
  replay_from-Extends decide i c (d ∷ ds) s =
      let s' = decide_next g decide i c (replay_bar g i c s) in
      let (z, e) = replay_bar-curve i c s in
      let (y, ys, e') = replay_from-Extends decide (suc i) d ds s' in
      (z, y ∷ ys, e' ∙ ap (λ l. l ++ (y ∷ ys)) e ∙ append_assoc s.curve (z ∷ []) (y ∷ ys))

  finish_replay-IsPrefix :
      (o : Option (OpenTrade F)) (n : ℕ) (c : OhlcvCandle) (s : Replay F)
      (shown : List (EquityPoint F))
      → Extends shown s.curve
      → IsPrefix shown (finish_replay g o n c s).curve
  unfolding finish_replay close_trade
  finish_replay-IsPrefix none n c s shown (z, zs, e) = (z ∷ zs, e)
  finish_replay-IsPrefix (some p) n c s shown (z, zs, e) =
      let raw = f.of_decimal c.close in
      let s' = close_trade g p raw c.timestamp (n - 1) end_of_data (some p) s in
      let point : EquityPoint F = record {
        timestamp = c.timestamp;
        equity = s'.realized_equity;
        in_market = false;
      } in
      (
        init (z ∷ zs) ++ (point ∷ []),
        ap (λ l. init l ++ (point ∷ [])) e
            ∙ ap (λ l. l ++ (point ∷ [])) (init-append shown z zs)
            ∙ append_assoc shown (init (z ∷ zs)) (point ∷ []),
      )

  run-IsPrefix :
      (decide : CandleBuffer → ℕ → Option OrderSide) (c : OhlcvCandle) (cs : List OhlcvCandle)
      (shown : List (EquityPoint F))
      → Extends shown (replay_from g decide 0 (c ∷ cs) (start_replay g)).curve
      → IsPrefix shown (run_with_decider g (c ∷ cs) decide).curve
  unfolding run_with_decider
  run-IsPrefix decide c cs shown h =
      let s = replay_from g decide 0 (c ∷ cs) (start_replay g) in
      finish_replay-IsPrefix s.position (length (c ∷ cs)) (last_candle_of g c cs) s shown h

  split-Extends :
      (decide : CandleBuffer → ℕ → Option OrderSide) (pre : List OhlcvCandle) (c : OhlcvCandle)
      (cs : List OhlcvCandle)
      → Extends
          (replay_all decide 0 pre (start_replay g)).curve
          (replay_from g decide 0 (pre ++ (c ∷ cs)) (start_replay g)).curve
  split-Extends decide pre c cs =
      rw (replay_from-split decide 0 pre c cs (start_replay g)) (
        replay_from-Extends decide (0 + length pre) c cs (replay_all decide 0 pre (start_replay g)))

  pub replay_all-length :
      (decide : CandleBuffer → ℕ → Option OrderSide) (i : ℕ) (cs : List OhlcvCandle) (s : Replay F)
      → length (replay_all decide i cs s).curve ≡ length s.curve + length cs
  replay_all-length decide i [] s = omega arith
  replay_all-length decide i (c ∷ cs) s =
      let (z, e) = replay_bar-curve i c s in
      let rest =
        replay_all-length decide (suc i) cs (decide_next g decide i c (replay_bar g i c s)) in
      let one = ap (λ l. length l) e ∙ length-append s.curve (z ∷ []) in omega (arith, rest, one)

  -- Deciders that agree on these bars lead to the same state.
  pub replay_all-agree :
      (decide decide' : CandleBuffer → ℕ → Option OrderSide) (i : ℕ) (cs : List OhlcvCandle)
      (s : Replay F)
      → ((b : CandleBuffer) (j : ℕ) → j < i + length cs → decide b j ≡ decide' b j)
      → replay_all decide i cs s ≡ replay_all decide' i cs s
  replay_all-agree decide decide' i [] s h = refl
  replay_all-agree decide decide' i (c ∷ cs) s h =
      let s' = replay_bar g i c s in
      let here = h (s'.registry c.symbol c.timeframe) i (omega arith) in
      ap (λ o. replay_all decide (suc i) cs (record s' { pending = o })) here
      ∙ replay_all-agree decide decide' (suc i) cs (decide_next g decide' i c s')
          (λ b j k. h b j (omega (arith, k)))

  pub runs-IsPrefix :
      (decide : CandleBuffer → ℕ → Option OrderSide) (pre : List OhlcvCandle) (c : OhlcvCandle)
      (cs : List OhlcvCandle)
      → IsPrefix
          (replay_all decide 0 pre (start_replay g)).curve
          (run_with_decider g (pre ++ (c ∷ cs)) decide).curve
  runs-IsPrefix decide [] c cs = run-IsPrefix decide c cs [] (split-Extends decide [] c cs)
  runs-IsPrefix decide (d ∷ ds) c cs =
      run-IsPrefix decide d (ds ++ (c ∷ cs)) (replay_all decide 0 (d ∷ ds) (start_replay g)).curve
        (split-Extends decide (d ∷ ds) c cs)

  -- Two runs with the same first bars, whatever follows them, begin with the same points of the equity
  -- curve, one for each of these bars.
  pub no_lookahead :
      (decide : CandleBuffer → ℕ → Option OrderSide) (pre : List OhlcvCandle) (c d : OhlcvCandle)
      (cs ds : List OhlcvCandle)
      → (shown : List (EquityPoint F)) × (length shown ≡ length pre)
        × IsPrefix shown (run_with_decider g (pre ++ (c ∷ cs)) decide).curve
        × IsPrefix shown (run_with_decider g (pre ++ (d ∷ ds)) decide).curve
  no_lookahead decide pre c d cs ds = (
    (replay_all decide 0 pre (start_replay g)).curve,
    replay_all-length decide 0 pre (start_replay g) ∙ omega arith,
    runs-IsPrefix decide pre c cs,
    runs-IsPrefix decide pre d ds,
  )
