-- ===== src/Backtest/Metrics.antt =====
-- backtest/metrics.py. The month of a time and the power of floats are parameters of what needs them.
use multi_agent_trading_syst.Prelude.{
  ℕ, suc, ◌+◌, ◌-◌, ◌^◌, Bool, Option, none, some, List, [], ◌∷◌, ltb, leb, ◌==◌, if◌then◌else◌,
  length, map, ◌&&◌,
}
use multi_agent_trading_syst.Prelude.Dict.{Dict, get, put}
use multi_agent_trading_syst.Prelude.Deque.{last}
use multi_agent_trading_syst.Prelude.Float.{Float, nought, max_float}
use multi_agent_trading_syst.Backtest.Engine.{EquityPoint, Trade}

module _ {F : Type 0} ⦃f : Float F⦄ where
  abbrev sum_from : F → List F → F
  sum_from total [] = total
  sum_from total (x ∷ xs) = sum_from (f.add total x) xs

  abbrev over_positive : F → F → F
  over_positive x d = if f.lt nought d then f.div x d else nought

  -- `_per_bar_returns`
  unfoldable pub per_bar_returns : List F → List F
  per_bar_returns [] = []
  per_bar_returns (x ∷ []) = []
  per_bar_returns (x ∷ y ∷ ys) = over_positive (f.sub y x) x ∷ per_bar_returns (y ∷ ys)

  -- `_mean`
  unfoldable pub mean : List F → F
  mean [] = nought
  mean (x ∷ xs) = f.div (sum_from nought (x ∷ xs)) (f.lit (length (x ∷ xs)) 1)

  -- `_std` with one degree of freedom less.
  unfoldable pub std : List F → F
  unfolding mean
  std xs =
      let m = mean xs in
      if leb (length xs) 1
      then nought
      else f.sqrt (
          f.div (sum_from nought (map (λ x. f.mul (f.sub x m) (f.sub x m)) xs))
            (f.lit (length xs - 1) 1))

-- The variables of the loop of `max_drawdown`.
pub record Drawdown (F : Type 0) : Type 0 where
  pub peak : F
  pub max_dd : F
  pub cur_len : ℕ
  pub max_len : ℕ

module _ {F : Type 0} ⦃f : Float F⦄ where
  abbrev pub drawdown_step : F → Drawdown F → Drawdown F
  drawdown_step v d =
      let len = d.cur_len + 1 in
      if f.le d.peak v then record d { peak = v; cur_len = 0 } else record {
        peak = d.peak;
        max_dd = max_float d.max_dd (over_positive (f.sub d.peak v) d.peak);
        cur_len = len;
        max_len = if ltb d.max_len len then len else d.max_len;
      }

  abbrev pub drawdown_from : List F → Drawdown F → Drawdown F
  drawdown_from [] d = d
  drawdown_from (v ∷ vs) d = drawdown_from vs (drawdown_step v d)

  -- `max_drawdown`
  unfoldable pub max_drawdown : List F → F × ℕ
  max_drawdown [] = (nought, 0)
  max_drawdown (v ∷ vs) =
      let d =
        drawdown_from (v ∷ vs) (record { peak = v; max_dd = nought; cur_len = 0; max_len = 0 }) in
      (d.max_dd, d.max_len)

  -- The first and the last equity of each month, in the order in which the months appear.
  abbrev span_with : F → Option (F × F) → F × F
  span_with x none = (x, x)
  span_with x (some s) = (s.0, x)

  abbrev by_month : (ℕ → ℕ) → List (EquityPoint F) → Dict (F × F) → Dict (F × F)
  by_month month [] d = d
  by_month month (p ∷ ps) d =
      let k = month p.timestamp in by_month month ps (put k (span_with p.equity (get k d)) d)

  abbrev insert_month : ℕ → F → Dict F → Dict F
  insert_month k v [] = (k, v) ∷ []
  insert_month k v (e ∷ d) =
      let rest = insert_month k v d in if leb k e.0 then (k, v) ∷ e ∷ d else e ∷ rest

  abbrev sorted_returns : Dict (F × F) → Dict F
  sorted_returns [] = []
  sorted_returns (e ∷ d) =
      insert_month e.0 (over_positive (f.sub e.1.1 e.1.0) e.1.0) (sorted_returns d)

  -- `monthly_returns`, in the order of the months.
  unfoldable pub monthly_returns : (ℕ → ℕ) → List (EquityPoint F) → Dict F
  monthly_returns month curve = sorted_returns (by_month month curve [])

-- A profit factor is infinite where there is no loss but a win.
pub data ProfitFactor (F : Type 0) : Type 0 where
  finite : F → ProfitFactor F
  infinite : ProfitFactor F

pub record Metrics (F : Type 0) : Type 0 where
  pub initial_balance : F
  pub final_balance : F
  pub total_return_pct : F
  pub cagr_pct : F
  pub sharpe : F
  pub sortino : F
  pub calmar : F
  pub max_drawdown_pct : F
  pub max_drawdown_duration_bars : ℕ
  pub num_trades : ℕ
  pub win_rate_pct : F
  pub profit_factor : Option F
  pub expectancy_usd : F
  pub avg_win_usd : F
  pub avg_loss_usd : F
  pub exposure_pct : F
  pub monthly : Dict F

module _ {F : Type 0} ⦃f : Float F⦄ where
  abbrev keep : (F → Bool) → List F → List F
  keep t [] = []
  keep t (x ∷ xs) = if t x then x ∷ keep t xs else keep t xs

  abbrev in_market_count : List (EquityPoint F) → ℕ
  in_market_count [] = 0
  in_market_count (p ∷ ps) = if p.in_market then suc (in_market_count ps) else in_market_count ps

  abbrev or_balance : F → Option F → F
  or_balance balance none = balance
  or_balance balance (some x) = x

  -- The years from the first point to the last, of 365.25 days, for times in microseconds.
  abbrev years_of : List (EquityPoint F) → F
  years_of [] = nought
  years_of (p ∷ []) = nought
  years_of (p ∷ q ∷ ps) = elim (last (q ∷ ps)) [
    | none ↦ nought
    | some z ↦
        f.div (f.lit (z.timestamp - p.timestamp) (10 ^ 6)) (f.mul (f.lit 36525 100) (f.lit 86400 1))
  ]

  abbrev fraction : ℕ → ℕ → F
  fraction n d = if d == 0 then nought else f.lit n d

  abbrev factor_of : F → F → ProfitFactor F
  factor_of gross_win gross_loss =
      if f.lt nought gross_loss
      then finite (f.div gross_win gross_loss)
      else if f.lt nought gross_win
      then infinite
      else finite nought

  abbrev rounded_factor : ProfitFactor F → Option F
  rounded_factor (finite x) = some (f.round4 x)
  rounded_factor infinite = none

  abbrev annual : F → F → F → F
  annual m d ann = if f.lt nought d then f.mul (f.div m d) ann else nought

  abbrev percent : F → F
  percent x = f.round4 (f.mul x (f.lit 100 1))

  -- `compute_metrics`; the first argument is `**`.
  unfoldable pub compute_metrics :
      (F → F → F) → (ℕ → ℕ) → List (EquityPoint F) → List (Trade F) → F → F → Metrics F
  unfolding mean std per_bar_returns max_drawdown monthly_returns
  compute_metrics power month curve trades periods_per_year initial =
      let equity = map (λ p. p.equity) curve in
      let final = or_balance initial (last equity) in
      let years = years_of curve in
      let cagr =
        if f.lt nought years && f.lt nought final
        then f.sub (power (f.div final initial) (f.div (f.lit 1 1) years)) (f.lit 1 1)
        else nought in
      let rets = per_bar_returns equity in
      let downside = keep (λ r. f.lt r nought) rets in
      let dstd = if ltb 1 (length downside) then std downside else nought in
      let ann = f.sqrt periods_per_year in
      let (mdd, mdd_len) = max_drawdown equity in
      let pnls = map (λ t. t.pnl_usd) trades in
      let wins = keep (λ x. f.lt nought x) pnls in
      let losses = keep (λ x. f.le x nought) pnls in
      record {
        initial_balance = f.round_to 2 initial;
        final_balance = f.round_to 2 final;
        total_return_pct = percent (over_positive (f.sub final initial) initial);
        cagr_pct = percent cagr;
        sharpe = f.round4 (annual (mean rets) (std rets) ann);
        sortino = f.round4 (annual (mean rets) dstd ann);
        calmar = f.round4 (over_positive cagr mdd);
        max_drawdown_pct = percent mdd;
        max_drawdown_duration_bars = mdd_len;
        num_trades = length trades;
        win_rate_pct = percent (fraction (length wins) (length trades));
        profit_factor =
            rounded_factor (factor_of (sum_from nought wins) (f.neg (sum_from nought losses)));
        expectancy_usd = f.round4 (mean pnls);
        avg_win_usd = f.round4 (mean wins);
        avg_loss_usd = f.round4 (mean losses);
        exposure_pct = percent (fraction (in_market_count curve) (length curve));
        monthly = map (λ e. (e.0, percent e.1)) (monthly_returns month curve);
      }
