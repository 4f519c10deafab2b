-- ===== src/Backtest/Engine.antt =====
-- backtest/engine.py: `run_with_decider`. The decider is a parameter: it sees the buffer of the candles
-- so far and the index of the bar.
use multi_agent_trading_syst.Prelude.{
  ℕ, suc, ◌-◌, Bool, true, false, Option, none, some, List, [], ◌∷◌, ◌++◌, if◌then◌else◌, ◌==◌,
  ◌&&◌, length,
}
use multi_agent_trading_syst.Prelude.Float.{Float, nought, max_float, min_float}
use multi_agent_trading_syst.Models.Market.{OhlcvCandle}
use multi_agent_trading_syst.Models.Trade.{OrderSide, same_side}
use multi_agent_trading_syst.MarketData.Buffer.{CandleBuffer, new_buffer, add, max_buffer_size}

pub record BacktestConfig (F : Type 0) : Type 0 where
  pub initial_balance : F
  pub fee_pct : F
  pub slippage_pct : F
  pub max_position_pct : F
  pub min_order_usd : F
  pub max_order_usd : F
  pub stop_loss_pct : F
  pub take_profit_pct : F

-- `_Position`
pub record OpenTrade (F : Type 0) : Type 0 where
  pub side : OrderSide
  pub entry_fill : F
  pub qty : F
  pub entry_time : ℕ
  pub entry_index : ℕ
  pub size_usd : F

pub data ExitReason : Type 0 where
  on_signal on_stop_loss on_take_profit end_of_data : ExitReason

pub record Trade (F : Type 0) : Type 0 where
  pub side : OrderSide
  pub entry_time : ℕ
  pub exit_time : ℕ
  pub entry_price : F
  pub exit_price : F
  pub quantity : F
  pub notional_usd : F
  pub pnl_usd : F
  pub return_pct : F
  pub bars_held : ℕ
  pub exit_reason : ExitReason

pub record EquityPoint (F : Type 0) : Type 0 where
  pub timestamp : ℕ
  pub equity : F
  pub in_market : Bool

-- The variables of the loop. The buffer of a symbol and a timeframe is made when it is first asked for.
pub record Replay (F : Type 0) : Type 0 where
  pub registry : ℕ → ℕ → CandleBuffer
  pub realized_equity : F
  pub position : Option (OpenTrade F)
  pub pending : Option OrderSide
  pub curve : List (EquityPoint F)
  pub trades : List (Trade F)

-- `registry.add(c)`, the buffers after it.
unfoldable pub registry_add : OhlcvCandle → (ℕ → ℕ → CandleBuffer) → ℕ → ℕ → CandleBuffer
unfolding add
registry_add c buffers symbol timeframe =
    if symbol == c.symbol && timeframe == c.timeframe
    then add c (buffers symbol timeframe)
    else buffers symbol timeframe

module _ {F : Type 0} ⦃f : Float F⦄ (g : BacktestConfig F) where
  abbrev pub up : F → F → F
  up x pct = f.mul x (f.add (f.lit 1 1) pct)

  abbrev pub down : F → F → F
  down x pct = f.mul x (f.sub (f.lit 1 1) pct)

  abbrev pub exit_fill : OrderSide → F → F
  exit_fill OrderSide.buy raw = down raw g.slippage_pct
  exit_fill OrderSide.sell raw = up raw g.slippage_pct

  abbrev pub entry_fill_for : OrderSide → F → F
  entry_fill_for OrderSide.buy raw = up raw g.slippage_pct
  entry_fill_for OrderSide.sell raw = down raw g.slippage_pct

  abbrev gross_of : OrderSide → F → F → F → F
  gross_of OrderSide.buy entry exit qty = f.mul (f.sub exit entry) qty
  gross_of OrderSide.sell entry exit qty = f.mul (f.sub entry exit) qty

  -- The gross PnL less the fees on both sides.
  unfoldable pub net_of : OpenTrade F → F → F
  net_of p exit =
      let fees = f.mul g.fee_pct (f.add (f.mul p.entry_fill p.qty) (f.mul exit p.qty)) in
      f.sub (gross_of p.side p.entry_fill exit p.qty) fees

  -- The trade that `_close` appends.
  abbrev pub trade_of : OpenTrade F → F → ℕ → ℕ → ExitReason → Trade F
  unfolding net_of
  trade_of p raw time index reason =
      let exit = exit_fill p.side raw in
      let net = net_of p exit in
      record {
        side = p.side;
        entry_time = p.entry_time;
        exit_time = time;
        entry_price = p.entry_fill;
        exit_price = exit;
        quantity = p.qty;
        notional_usd = p.size_usd;
        pnl_usd = net;
        return_pct = if f.lt nought p.size_usd then f.div net p.size_usd else nought;
        bars_held = index - p.entry_index;
        exit_reason = reason;
      }

  -- `realized_equity += _close(...)`; the position is then replaced or cleared.
  unfoldable pub close_trade :
      OpenTrade F → F → ℕ → ℕ → ExitReason → Option (OpenTrade F) → Replay F → Replay F
  unfolding trade_of
  close_trade p raw time index reason next s =
      let t = trade_of p raw time index reason in
      record s {
        realized_equity = f.add s.realized_equity t.pnl_usd;
        position = next;
        trades = s.trades ++ (t ∷ []);
      }

  -- `_open`, for a realized equity.
  unfoldable pub open_trade : OrderSide → F → ℕ → ℕ → F → OpenTrade F
  open_trade side raw time index realized =
      let size =
        max_float g.min_order_usd (min_float g.max_order_usd (f.mul g.max_position_pct realized)) in
      let fill = entry_fill_for side raw in
      record {
        side = side;
        entry_fill = fill;
        qty = if f.lt nought fill then f.div size fill else nought;
        entry_time = time;
        entry_index = index;
        size_usd = size;
      }

  -- Step 1: the decision of the last bar is filled at this bar's open. A reversal closes first, and
  -- the new size uses the equity after the close.
  unfoldable pub fill_side :
      OrderSide → ℕ → OhlcvCandle → Option (OpenTrade F) → Replay F → Replay F
  unfolding close_trade open_trade
  fill_side side i c none s =
      let raw = f.of_decimal c.open_price in
      record s { position = some (open_trade side raw c.timestamp i s.realized_equity) }
  fill_side side i c (some p) s =
      let raw = f.of_decimal c.open_price in
      let net = (trade_of p raw c.timestamp i on_signal).pnl_usd in
      let next = open_trade side raw c.timestamp i (f.add s.realized_equity net) in
      if same_side p.side side then s else close_trade p raw c.timestamp i on_signal (some next) s

  unfoldable pub fill_pending : Option OrderSide → ℕ → OhlcvCandle → Replay F → Replay F
  unfolding fill_side
  fill_pending none i c s = s
  fill_pending (some side) i c s = record (fill_side side i c s.position s) { pending = none }

  -- Step 2: the stop is checked before the target.
  unfoldable pub bracket_of : OpenTrade F → OhlcvCandle → Option (F × ExitReason)
  bracket_of p c =
      let high = f.of_decimal c.high in
      let low = f.of_decimal c.low in
      elim p.side [
        | OrderSide.buy ↦
            let sl = down p.entry_fill g.stop_loss_pct in
            let tp = up p.entry_fill g.take_profit_pct in
            if f.le low sl
            then some (sl, on_stop_loss)
            else if f.le tp high
            then some (tp, on_take_profit)
            else none
        | OrderSide.sell ↦
            let sl = up p.entry_fill g.stop_loss_pct in
            let tp = down p.entry_fill g.take_profit_pct in
            if f.le sl high
            then some (sl, on_stop_loss)
            else if f.le low tp
            then some (tp, on_take_profit)
            else none
      ]

  unfoldable pub close_at :
      OpenTrade F → Option (F × ExitReason) → ℕ → OhlcvCandle → Replay F → Replay F
  unfolding close_trade
  close_at p none i c s = s
  close_at p (some (raw, reason)) i c s = close_trade p raw c.timestamp i reason none s

  unfoldable pub check_bracket : Option (OpenTrade F) → ℕ → OhlcvCandle → Replay F → Replay F
  unfolding bracket_of close_at
  check_bracket none i c s = s
  check_bracket (some p) i c s = close_at p (bracket_of p c) i c s

  -- Step 3: the equity with the open position at the close.
  unfoldable pub equity_at : Option (OpenTrade F) → OhlcvCandle → F → F
  equity_at none c realized = realized
  equity_at (some p) c realized =
      f.add realized (gross_of p.side p.entry_fill (f.of_decimal c.close) p.qty)

  abbrev pub is_open : Option (OpenTrade F) → Bool
  is_open none = false
  is_open (some _) = true

  unfoldable pub mark : OhlcvCandle → Replay F → Replay F
  unfolding equity_at
  mark c s =
      let point : EquityPoint F = record {
        timestamp = c.timestamp;
        equity = equity_at s.position c s.realized_equity;
        in_market = is_open s.position;
      } in
      record s { curve = s.curve ++ (point ∷ []) }

  -- Steps 1 to 3 of one bar, after its candle is in the buffer.
  unfoldable pub replay_bar : ℕ → OhlcvCandle → Replay F → Replay F
  unfolding registry_add fill_pending check_bracket mark
  replay_bar i c s =
      let s0 = record s { registry = registry_add c s.registry } in
      let s1 = fill_pending s0.pending i c s0 in mark c (check_bracket s1.position i c s1)

  -- Step 4: the decision at this bar, for the next one.
  abbrev pub decide_next :
      (CandleBuffer → ℕ → Option OrderSide) → ℕ → OhlcvCandle → Replay F → Replay F
  decide_next decide i c s = record s { pending = decide (s.registry c.symbol c.timeframe) i }

  -- The loop from bar i on; there is no decision at the last bar.
  unfoldable pub replay_from :
      (CandleBuffer → ℕ → Option OrderSide) → ℕ → List OhlcvCandle → Replay F → Replay F
  unfolding replay_bar
  replay_from decide i [] s = s
  replay_from decide i (c ∷ []) s = replay_bar i c s
  replay_from decide i (c ∷ d ∷ ds) s =
      replay_from decide (suc i) (d ∷ ds) (decide_next decide i c (replay_bar i c s))

  abbrev pub start_replay : Replay F
  start_replay = record {
    registry = λ symbol timeframe. new_buffer symbol timeframe max_buffer_size;
    realized_equity = g.initial_balance;
    position = none;
    pending = none;
    curve = [];
    trades = [];
  }

-- Without the last element.
abbrev pub init {ℓ} : {A : Type ℓ} → List A → List A
init [] = []
init (x ∷ []) = []
init (x ∷ y ∷ ys) = x ∷ init (y ∷ ys)

module _ {F : Type 0} ⦃f : Float F⦄ (g : BacktestConfig F) where
  -- What is still open after the last candle is closed at its close, and the last point of the curve
  -- is replaced.
  unfoldable pub finish_replay : Option (OpenTrade F) → ℕ → OhlcvCandle → Replay F → Replay F
  unfolding close_trade
  finish_replay none n c s = s
  finish_replay (some p) n c s =
      let s' = close_trade g p (f.of_decimal c.close) c.timestamp (n - 1) end_of_data (some p) s in
      let point : EquityPoint F = record {
        timestamp = c.timestamp;
        equity = s'.realized_equity;
        in_market = false;
      } in
      record s' { curve = init s'.curve ++ (point ∷ []) }

  abbrev pub last_candle_of : OhlcvCandle → List OhlcvCandle → OhlcvCandle
  last_candle_of c [] = c
  last_candle_of c (d ∷ ds) = last_candle_of d ds

  -- `run_with_decider`
  unfoldable pub run_with_decider :
      List OhlcvCandle → (CandleBuffer → ℕ → Option OrderSide) → Replay F
  unfolding replay_from finish_replay
  run_with_decider [] decide = start_replay g
  run_with_decider (c ∷ cs) decide =
      let s = replay_from g decide 0 (c ∷ cs) (start_replay g) in
      finish_replay s.position (length (c ∷ cs)) (last_candle_of c cs) s
