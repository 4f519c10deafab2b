-- ===== src/Broker/Tests.antt =====
-- The paper broker on concrete portfolios: runs, and the theorems at inputs that meet their hypotheses.
use multi_agent_trading_syst.Prelude.{
  ℕ, ◌*◌, ◌^◌, ◌≤◌, ◌<◌, ◌≡◌, refl, true, none, some, [], ◌∷◌, arith,
}
use multi_agent_trading_syst.Prelude.Int.{pos, ◌+ℤ◌, ◌-ℤ◌, ◌≤ℤ◌}
use multi_agent_trading_syst.Prelude.Decimal.{Decimal, unit}
use multi_agent_trading_syst.Prelude.Fixed.{Fixed, fixed_float, decimal_of_fixed}
use multi_agent_trading_syst.Models.Trade.{OrderSide, OrderType, OrderStatus, ExecutionResult}
use multi_agent_trading_syst.Samples.{assessment, whole, ids, start}
use multi_agent_trading_syst.Broker.State.{Broker, new_broker}
use multi_agent_trading_syst.Broker.Order.{ok, place_order, finish_order, close_position}
use multi_agent_trading_syst.Broker.Invariant.{IsValid}
use multi_agent_trading_syst.Broker.Equity.{
  Accounts, Closes, equity, place_order-Accounts, close_position-Closes,
}
use multi_agent_trading_syst.Broker.Idempotent.{place_order_again}
use multi_agent_trading_syst.Broker.Opening.{finish_order-spends, open_close-loses}
use multi_agent_trading_syst.Broker.Store.{
  symbol_value, symbol_key, PositionObject, Texts, AreFaithful, Store, healthy, connect, disconnect,
  parsed_positions,
}
use multi_agent_trading_syst.Broker.Restored.{connect-disconnect, connect-loses_positions}
use multi_agent_trading_syst.Prelude.Dict.{Dict}
use multi_agent_trading_syst.Broker.Session.{
  Session, IsSound, run, begin, finish, monitor_close, run-IsSound,
}

abbrev pub reference : ℕ
reference = 100 * unit

-- 1.99900049 units at 100.05 dollars, for 199.99999902 and a fee of 19 cents.
unfoldable pub bought : ExecutionResult
bought = record {
  result_id = 9;
  proposal_id = 7;
  assessment_id = 8;
  symbol = 1;
  side = OrderSide.buy;
  order_type = OrderType.market;
  status = OrderStatus.filled;
  requested_quantity = 199900049;
  filled_quantity = 199900049;
  average_fill_price = some 10005000000;
  total_cost_usd = some (pos (199900049 * 10005000000 * 10 ^ 8));
  fee_usd = some (pos (19 * 10 ^ 22));
  realized_pnl_usd = none;
  is_paper = true;
}

unfoldable pub after : Broker
unfolding place_order
after = (place_order (assessment OrderSide.buy) whole 9 start).1

buys : place_order (assessment OrderSide.buy) whole 9 start ≡ (ok bought, after)
unfolding place_order decimal_of_fixed bought after
buys = refl

pub finishes : finish_order (assessment OrderSide.buy) reference whole 9 start ≡ (ok bought, after)
unfolding finish_order place_order bought after decimal_of_fixed
finishes = refl

start-IsValid : IsValid start
start-IsValid = record {
  one_per_symbol = tt;
  keyed = tt;
  cache_dict = tt;
  cache_bounded = omega arith;
}

place_order-Accounts_example :
    Accounts start (place_order (assessment OrderSide.sell) whole 9 start)
place_order-Accounts_example = place_order-Accounts (assessment OrderSide.sell) whole 9 start refl

close_position-Closes_example : Closes after (close_position 1 (some (pos (110 * unit))) ids after)
close_position-Closes_example = close_position-Closes 1 (some (pos (110 * unit))) ids after

place_order_again_example :
    place_order
      (assessment OrderSide.buy)
      (record { is_partial = true; fill_ratio = 7 * 10 ^ 16 })
      30
      after
    ≡ (ok bought, after)
place_order_again_example =
    place_order_again (assessment OrderSide.buy) whole
      (record { is_partial = true; fill_ratio = 7 * 10 ^ 16 }) 9 30 start after buys

finish_order-spends_example :
    (spent : ℕ) × (after.cash_balance ≡ start.cash_balance -ℤ pos spent)
    × (spent * 1000 ≤ 200 * unit * 1001)
    × (pos 0 ≤ℤ after.cash_balance)
    × (0 < bought.filled_quantity)
    × (bought.filled_quantity ≤ bought.requested_quantity)
finish_order-spends_example =
    finish_order-spends (assessment OrderSide.buy) reference whole 9 (200 * unit) refl (omega arith)
      start bought after refl finishes

open_close-loses_example :
    equity (close_position 1 (some (pos reference)) ids after).1 ≤ℤ equity start
open_close-loses_example =
    open_close-loses (assessment OrderSide.buy) reference whole 9 (200 * unit) refl (omega arith)
      ids start bought after (omega arith) refl finishes

-- Texts that are the values themselves.
abbrev plain : Texts Decimal (Dict (PositionObject Decimal))
plain = record { str = λ d. d; decimal = λ d. some d; dumps = λ ps. ps; loads = λ ps. some ps }

plain-AreFaithful : AreFaithful plain
plain-AreFaithful = record { decimal-str = λ d. refl; loads-dumps = λ ps. refl }

abbrev empty : Store Decimal (Dict (PositionObject Decimal))
empty = record { cash = none; positions = none }

connect-disconnect_example :
    connect plain healthy (new_broker true (pos 5)) (disconnect plain healthy after empty)
    ≡ some (
      record {
        paper_mode = true;
        cash_balance = after.cash_balance;
        positions = after.positions;
        filled_orders = [];
      },
      disconnect plain healthy after empty,
    )
connect-disconnect_example = connect-disconnect plain plain-AreFaithful after empty (pos 5)

abbrev session : Session Fixed
session = record { broker = start; sleeping = none; fills = [] }

session-IsSound : IsSound (equity start) session
unfolding ◌+ℤ◌
session-IsSound = record { valid = start-IsValid; balanced = (omega arith, omega arith) }

run-IsSound_example : IsSound (equity start) (
    run (begin (assessment OrderSide.buy) ∷ monitor_close 1 none ids ∷ finish whole 9 ∷ []) session)
run-IsSound_example =
    run-IsSound (equity start)
      (begin (assessment OrderSide.buy) ∷ monitor_close 1 none ids ∷ finish whole 9 ∷ []) session
      session-IsSound

-- An object without its cost cannot be read as a position.
abbrev torn : Dict (PositionObject Decimal)
torn = (1, (symbol_key, symbol_value 1) ∷ []) ∷ []

connect-loses_positions_example :
    connect plain healthy
      (new_broker true (pos 5))
      (record { cash = some (pos (800 * unit)); positions = some torn })
    ≡ some (
      record {
        paper_mode = true;
        cash_balance = pos (800 * unit);
        positions = [];
        filled_orders = [];
      },
      record { cash = some (pos (800 * unit)); positions = some [] },
    )
unfolding parsed_positions
connect-loses_positions_example =
    connect-loses_positions plain plain-AreFaithful healthy torn (pos 5) (pos (800 * unit)) refl
      refl refl refl refl
