-- ===== src/Broker/Restored.antt =====
-- A portfolio across restarts (agents/execution/paper_broker.py).
use multi_agent_trading_syst.Prelude.{ℕ, ◌*◌, ◌/◌, ◌≡◌, refl, arith, true, none, some, [], ◌∷◌}
use multi_agent_trading_syst.Prelude.Int.{pos}
use multi_agent_trading_syst.Prelude.Decimal.{Decimal, place8}
use multi_agent_trading_syst.Prelude.Dict.{Dict}
use multi_agent_trading_syst.Broker.State.{PaperPosition, Broker, new_broker}
use multi_agent_trading_syst.Broker.Store.{
  Texts, AreFaithful, Store, Bus, healthy, quantity_of, decimal_value, str8, position_object,
  positions_data, read_position, read_positions, parsed_positions, restore, save_portfolio_state,
  connect, disconnect,
}

module _ {T J : Type 0} (x : Texts T J) (faithful : AreFaithful x) where
  quantity_of-str8 : (n : ℕ) → quantity_of x (decimal_value (str8 x n)) ≡ some n
  quantity_of-str8 n =
      let whole : n * place8 / place8 ≡ n = omega arith in
      rw (faithful.decimal-str (pos (n * place8)), whole) refl

  read_position-position_object :
      (p : PaperPosition) → read_position x (position_object x p) ≡ some p
  unfolding read_position position_object
  read_position-position_object p =
      rw
        (
          quantity_of-str8 p.quantity,
          quantity_of-str8 p.entry_price,
          faithful.decimal-str p.cost_usd,
        )
        refl

  read_positions-positions_data :
      (ps : Dict PaperPosition) → read_positions x (positions_data x ps) ≡ some ps
  unfolding read_positions positions_data
  read_positions-positions_data [] = refl
  read_positions-positions_data (e ∷ ps) =
      rw (read_position-position_object e.1, read_positions-positions_data ps) refl

  -- A portfolio that was saved on a working bus comes back whole in a new broker, with every field of
  -- every position, whatever the store held before and whatever balance the new broker starts from, if a
  -- text that Python wrote for a decimal or a JSON object is read as that value. The keys stay as they
  -- were saved.
  pub connect-disconnect :
      (b : Broker) (s : Store T J) (initial_balance : Decimal)
      → let saved = disconnect x healthy b s in
        connect x healthy (new_broker true initial_balance) saved
        ≡ some (
          record {
            paper_mode = true;
            cash_balance = b.cash_balance;
            positions = b.positions;
            filled_orders = [];
          },
          saved,
        )
  unfolding connect disconnect new_broker save_portfolio_state restore parsed_positions
  connect-disconnect b s initial_balance =
      rw
        (
          faithful.decimal-str b.cash_balance,
          faithful.loads-dumps (positions_data x b.positions),
          read_positions-positions_data b.positions,
        )
        refl

  -- If the cash can be read but the positions cannot be read or parsed, the stored positions are lost: the
  -- broker starts with the cash alone, and `connect` then writes its empty dict over them.
  pub connect-loses_positions :
      (bus : Bus) (text : J) (initial_balance c : Decimal)
      → bus.connected ≡ true
      → bus.cash_read ≡ true
      → bus.cash_written ≡ true
      → bus.positions_written ≡ true
      → parsed_positions x bus text ≡ none
      → connect x bus
          (new_broker true initial_balance)
          (record { cash = some (x.str c); positions = some text })
        ≡ some (
          record { paper_mode = true; cash_balance = c; positions = []; filled_orders = [] },
          record { cash = some (x.str c); positions = some (x.dumps []) },
        )
  unfolding connect new_broker
  connect-loses_positions bus text initial_balance c joined reads writes writes' lost =
      rw (joined, reads, writes, writes', faithful.decimal-str c, lost, connect) refl
