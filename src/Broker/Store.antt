-- ===== src/Broker/Store.antt =====
-- agents/execution/paper_broker.py: `connect`, `disconnect` and `_save_portfolio_state`, with the
-- two Redis keys that they read and write, and the texts under them.
use multi_agent_trading_syst.Prelude.{
  ℕ, ◌*◌, ◌/◌, ◌≡◌, Bool, true, Option, none, some, [], ◌∷◌, if◌then◌else◌,
}
use multi_agent_trading_syst.Prelude.Int.{pos, negsuc}
use multi_agent_trading_syst.Prelude.Decimal.{Decimal, place8}
use multi_agent_trading_syst.Prelude.Dict.{Dict, get}
use multi_agent_trading_syst.Models.Trade.{OrderSide}
use multi_agent_trading_syst.Broker.State.{PaperPosition, Broker}

-- A value in the JSON object of a position.
pub data Value (T : Type 0) : Type 0 where
  symbol_value : ℕ → Value T
  side_value : OrderSide → Value T
  decimal_value : T → Value T

-- The keys of such an object.
abbrev pub symbol_key : ℕ
symbol_key = 0

abbrev pub side_key : ℕ
side_key = 1

abbrev pub quantity_key : ℕ
quantity_key = 2

abbrev pub entry_price_key : ℕ
entry_price_key = 3

abbrev pub cost_usd_key : ℕ
cost_usd_key = 4

abbrev pub PositionObject : Type 0 → Type 0
PositionObject T = Dict (Value T)

-- `str(d)` and `Decimal(text)`, and `json.dumps` and `json.loads` of the object of all positions. A text
-- that cannot be parsed raises, which is `none`. The texts of decimals and those of JSON objects are told
-- apart by their types.
pub record Texts (T J : Type 0) : Type 0 where
  pub str : Decimal → T
  pub decimal : T → Option Decimal
  pub dumps : Dict (PositionObject T) → J
  pub loads : J → Option (Dict (PositionObject T))

-- What Python documents of them: a text that was written is read as the value.
pub record AreFaithful {T J : Type 0} (x : Texts T J) : Type 0 where
  pub decimal-str : (d : Decimal) → x.decimal (x.str d) ≡ some d
  pub loads-dumps : (ps : Dict (PositionObject T)) → x.loads (x.dumps ps) ≡ some ps

-- `paper_portfolio:cash` and `paper_portfolio:positions`; `none` is a missing key.
pub record Store (T J : Type 0) : Type 0 where
  pub cash : Option T
  pub positions : Option J

-- How the bus behaves during a call: whether it is there and connected, and which of the accesses
-- to the two keys succeed. One that fails raises.
pub record Bus : Type 0 where
  pub connected : Bool
  pub cash_read : Bool
  pub positions_read : Bool
  pub cash_written : Bool
  pub positions_written : Bool

module _ {A B : Type 0} where
  -- A step that may raise, and what follows it.
  abbrev pub bind : Option A → (A → Option B) → Option B
  bind none k = none
  bind (some x) k = k x

-- A quantity or a price, in units of the eighth place. State keeps no negative ones, which are never saved:
-- here they count as texts that cannot be parsed.
abbrev pub places8 : Decimal → Option ℕ
places8 (pos n) = some (n / place8)
places8 (negsuc n) = none

module _ {T J : Type 0} (x : Texts T J) where
  abbrev pub str8 : ℕ → T
  str8 n = x.str (pos (n * place8))

  -- The object of a position.
  unfoldable pub position_object : PaperPosition → PositionObject T
  position_object p =
      (symbol_key, symbol_value p.symbol)
      ∷ (side_key, side_value p.side)
      ∷ (quantity_key, decimal_value (str8 p.quantity))
      ∷ (entry_price_key, decimal_value (str8 p.entry_price))
      ∷ (cost_usd_key, decimal_value (x.str p.cost_usd))
      ∷ []

  unfoldable pub positions_data : Dict PaperPosition → Dict (PositionObject T)
  unfolding position_object
  positions_data [] = []
  positions_data (e ∷ ps) = (e.0, position_object e.1) ∷ positions_data ps

  -- `p["symbol"]` and `p["side"]`, and the other values through `Decimal`.
  abbrev pub symbol_of : Value T → Option ℕ
  symbol_of (symbol_value k) = some k
  symbol_of _ = none

  abbrev pub side_of : Value T → Option OrderSide
  side_of (side_value s) = some s
  side_of _ = none

  abbrev pub decimal_of : Value T → Option Decimal
  decimal_of (decimal_value t) = x.decimal t
  decimal_of _ = none

  abbrev pub quantity_of : Value T → Option ℕ
  quantity_of v = bind (decimal_of v) places8

  -- `_PaperPosition(...)` from an object; a missing key raises.
  unfoldable pub read_position : PositionObject T → Option PaperPosition
  read_position o = bind (bind (get symbol_key o) symbol_of) (λ symbol.
      bind (bind (get side_key o) side_of) (λ side.
        bind (bind (get quantity_key o) quantity_of) (λ quantity.
          bind (bind (get entry_price_key o) quantity_of) (λ entry_price.
            bind (bind (get cost_usd_key o) decimal_of) (λ cost_usd. some (record {
              symbol = symbol;
              side = side;
              quantity = quantity;
              entry_price = entry_price;
              cost_usd = cost_usd;
            }))))))

  unfoldable pub read_positions : Dict (PositionObject T) → Option (Dict PaperPosition)
  unfolding read_position
  read_positions [] = some []
  read_positions (e ∷ os) =
      let rest = read_positions os in
      bind (read_position e.1) (λ p. bind rest (λ ps. some ((e.0, p) ∷ ps)))

  -- `_save_portfolio_state`: the first failing write ends it, and the failure is only logged.
  unfoldable pub save_portfolio_state : Bus → Broker → Store T J → Store T J
  unfolding positions_data
  save_portfolio_state bus b s =
      let cash_text = x.str b.cash_balance in
      if bus.connected
      then (if bus.cash_written
          then (if bus.positions_written
              then record {
                cash = some cash_text;
                positions = some (x.dumps (positions_data b.positions));
              }
              else record s { cash = some cash_text })
          else s)
      else s

  abbrev pub with_positions : Option (Dict PaperPosition) → Broker → Broker
  with_positions none b = b
  with_positions (some ps) b = record b { positions = ps }

  -- The positions that a text under their key stands for, or an exception.
  unfoldable pub parsed_positions : Bus → J → Option (Dict PaperPosition)
  unfolding read_positions
  parsed_positions bus text =
      if bus.positions_read then bind (x.loads text) read_positions else none

  -- The restore of the positions, once the cash is restored.
  unfoldable pub restore_positions : Bus → Option J → Broker → Broker
  unfolding parsed_positions
  restore_positions bus none b = b
  restore_positions bus (some text) b = with_positions (parsed_positions bus text) b

  abbrev pub restore_parsed : Bus → Store T J → Option Decimal → Broker → Broker
  unfolding restore_positions
  restore_parsed bus s none b = b
  restore_parsed bus s (some c) b =
      restore_positions bus s.positions (record b { cash_balance = c })

  -- The restore in `connect`: what was assigned before an exception stays assigned.
  unfoldable pub restore_cash : Bus → Store T J → Option T → Broker → Broker
  unfolding restore_parsed
  restore_cash bus s none b = b
  restore_cash bus s (some text) b =
      if bus.cash_read then restore_parsed bus s (x.decimal text) b else b

  unfoldable pub restore : Bus → Store T J → Broker → Broker
  unfolding restore_cash
  restore bus s b = if bus.connected then restore_cash bus s s.cash b else b

  -- `connect`; `none` is the RuntimeError outside paper mode.
  unfoldable pub connect : Bus → Broker → Store T J → Option (Broker × Store T J)
  unfolding restore save_portfolio_state
  connect bus b s =
      if b.paper_mode
      then (let b' = restore bus s b in some (b', save_portfolio_state bus b' s))
      else none

  -- `disconnect`
  unfoldable pub disconnect : Bus → Broker → Store T J → Store T J
  unfolding save_portfolio_state
  disconnect bus b s = save_portfolio_state bus b s

abbrev pub healthy : Bus
healthy = record {
  connected = true;
  cash_read = true;
  positions_read = true;
  cash_written = true;
  positions_written = true;
}
