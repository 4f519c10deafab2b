-- ===== src/Risk/Sizer.antt =====
-- agents/risk/position_sizer.py
use multi_agent_trading_syst.Prelude.{Option, none, some, if◌then◌else◌}
use multi_agent_trading_syst.Prelude.Int.{pos_part, min_ℤ, max_ℤ}
use multi_agent_trading_syst.Prelude.Decimal.{Decimal, mul_decimal, div_decimal}
use multi_agent_trading_syst.Prelude.Float.{Float, nought, max_float}
use multi_agent_trading_syst.Models.Signals.{MetaValue, TechnicalSignal, missing, number, malformed}
use multi_agent_trading_syst.Models.Trade.{TradeProposal}

pub record PositionSizer (F : Type 0) : Type 0 where
  pub max_position_pct : F
  pub min_order_usd : F
  pub max_order_usd : F
  pub risk_per_trade_pct : F

module _ {F : Type 0} ⦃f : Float F⦄ where
  abbrev pub atr_stop_multiplier : F
  atr_stop_multiplier = f.lit 3 2

  abbrev pub min_stop_loss_pct : F
  min_stop_loss_pct = f.lit 5 1000

  -- The two upper limits of an order: the share of the portfolio, and the absolute one.
  abbrev pub max_from_pct : PositionSizer F → Decimal → Decimal
  max_from_pct z value = mul_decimal (f.to_decimal z.max_position_pct) value

  abbrev pub raw_size : PositionSizer F → Decimal → F → Decimal
  raw_size z value stop =
      let effective_stop = max_float stop min_stop_loss_pct in
      div_decimal (mul_decimal (f.to_decimal z.risk_per_trade_pct) value)
        (pos_part (f.to_decimal effective_stop))

  -- `min(raw_size, max_from_pct, abs_max)`, and then the floor.
  unfoldable pub calculate : PositionSizer F → Decimal → F → Decimal
  calculate z value stop =
      let capped =
        min_ℤ (min_ℤ (raw_size z value stop) (max_from_pct z value))
          (f.to_decimal z.max_order_usd) in
      max_ℤ capped (f.to_decimal z.min_order_usd)

  abbrev metadata_atr : MetaValue F → Option F
  metadata_atr missing = none
  metadata_atr (number x) = some x
  metadata_atr malformed = none

  -- `_extract_atr_pct`
  unfoldable pub extract_atr_pct : Option (TechnicalSignal F) → Option F
  extract_atr_pct none = none
  extract_atr_pct (some t) = metadata_atr t.atr_pct_of_price

  abbrev suggested_or_default : Option F → F
  suggested_or_default none = f.lit 2 100
  suggested_or_default (some x) = if f.lt nought x then x else f.lit 2 100

  abbrev stop_from : Option F → Option F → F
  stop_from none suggested = suggested_or_default suggested
  stop_from (some atr) suggested =
      if f.lt nought atr then f.mul atr atr_stop_multiplier else suggested_or_default suggested

  unfoldable pub get_stop_loss_pct : TradeProposal F → F
  unfolding extract_atr_pct
  get_stop_loss_pct p =
      stop_from (extract_atr_pct p.signal.technical_signal) p.suggested_stop_loss_pct
