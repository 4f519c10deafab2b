-- ===== src/Mt5/Mapper.antt =====
-- agents/execution/symbol_mapper.py. Symbols of either side are numbers that are only compared.
use multi_agent_trading_syst.Prelude.{ℕ, Option, [], ◌∷◌, if◌then◌else◌}
use multi_agent_trading_syst.Prelude.Dict.{Dict, get, put, has_key}

abbrev pub btc_usdt : ℕ
btc_usdt = 1

abbrev pub eth_usdt : ℕ
eth_usdt = 2

abbrev pub btcusd : ℕ
btcusd = 101

abbrev pub ethusd : ℕ
ethusd = 102

abbrev pub ethusdt : ℕ
ethusdt = 107

-- BTC, ETH, BNB, SOL and XRP, each against USDT and against USD.
abbrev pub default_mappings : Dict ℕ
default_mappings = (btc_usdt, btcusd) ∷ (eth_usdt, ethusd) ∷ (3, 103) ∷ (4, 104) ∷ (5, 105) ∷ []

pub record SymbolMapper : Type 0 where
  pub python_to_mt5 : Dict ℕ
  pub mt5_to_python : Dict ℕ

-- `d.update(extra)`
abbrev pub update : Dict ℕ → Dict ℕ → Dict ℕ
update [] d = d
update (e ∷ extra) d = update extra (put e.0 e.1 d)

-- `{mt5: python for python, mt5 in d.items()}`, onto a dict: the last of two equal keys stands.
abbrev pub reversed_onto : Dict ℕ → Dict ℕ → Dict ℕ
reversed_onto [] r = r
reversed_onto (e ∷ d) r = reversed_onto d (put e.1 e.0 r)

-- `d.setdefault(k, v)`
abbrev pub set_default : ℕ → ℕ → Dict ℕ → Dict ℕ
set_default k v d = if has_key k d then d else put k v d

-- `SymbolMapper(extra)`
unfoldable pub new_mapper : Dict ℕ → SymbolMapper
new_mapper extra =
    let forward = update extra default_mappings in
    record {
      python_to_mt5 = forward;
      mt5_to_python = set_default ethusdt eth_usdt (reversed_onto forward []);
    }

-- `to_mt5`; `none` is its ValueError.
abbrev pub to_mt5 : SymbolMapper → ℕ → Option ℕ
to_mt5 m symbol = get symbol m.python_to_mt5

-- `to_python`
abbrev pub to_python : SymbolMapper → ℕ → Option ℕ
to_python m symbol = get symbol m.mt5_to_python
