-- ===== src/Mt5/Tests.antt =====
-- The bridge on concrete events: runs, and the theorems at inputs that meet their hypotheses.
use multi_agent_trading_syst.Prelude.{
  ◌*◌, ◌/◌, ◌^◌, ◌≤◌, ◌≡◌, refl, false, none, some, List, [], ◌∷◌, ◌++◌,
}
use multi_agent_trading_syst.Prelude.Int.{pos, ◌*ℤ◌}
use multi_agent_trading_syst.Prelude.Decimal.{half_even, half_even_ℤ}
use multi_agent_trading_syst.Prelude.Fixed.{
  Fixed, fixed_float, one, mul_fixed, div_fixed, round_to_fixed,
}
use multi_agent_trading_syst.Mt5.Mapper.{new_mapper, to_mt5, to_python, eth_usdt, ethusd, ethusdt}
use multi_agent_trading_syst.Mt5.Orders.{Lots, Command, Response, ResponseStatus, clamp_volume}
use multi_agent_trading_syst.Mt5.Bridge.{new_bridge}
use multi_agent_trading_syst.Mt5.Queue.{
  BridgeEvent, issued, timed_out, given_up, polled, posted_result, Traffic, after_event,
  after_events, count_id,
}
use multi_agent_trading_syst.Mt5.Answers.{after_events-IsServed}

eth_forward : to_mt5 (new_mapper []) eth_usdt ≡ some ethusd
unfolding new_mapper
eth_forward = refl

-- Both names of the contract lead back.
eth_back :
    (to_python (new_mapper []) ethusd ≡ some eth_usdt)
    × (to_python (new_mapper []) ethusdt ≡ some eth_usdt)
unfolding new_mapper
eth_back = (refl, refl)

abbrev lots : Lots Fixed
lots = record {
  min_volume = pos (one / 100);
  max_volume = pos (10 * one);
  volume_step = pos (one / 100);
}

-- A quantity below the smallest lot is raised to it.
clamp_small : clamp_volume lots (pos (one / 1000)) ≡ pos (one / 100)
unfolding clamp_volume mul_fixed div_fixed round_to_fixed half_even_ℤ half_even ◌*ℤ◌
clamp_small = refl

abbrev close_it : Command Fixed
close_it = Command.close_position_command 101

abbrev idle : Traffic Fixed
idle = record { bridge = new_bridge; fetched = []; delivered = [] }

abbrev answer : Response
answer = record {
  command_id = 7;
  status = ResponseStatus.ok_status;
  order_id = 1;
  fill_quantity = some (10 ^ 6);
  fill_price = none;
  is_buy = false;
}

-- The wait ends before the terminal polls: the command is fetched and its result reaches no caller.
abbrev late : List (BridgeEvent Fixed)
late = timed_out 7 ∷ given_up 7 ∷ polled ∷ posted_result (some answer) ∷ []

abbrev waiting_one : Traffic Fixed
waiting_one = after_events (issued 7 close_it ∷ []) idle

late_fetched :
    ((after_events late waiting_one).fetched ≡ (7, close_it) ∷ [])
    × ((after_events late waiting_one).delivered ≡ [])
unfolding after_event
late_fetched = (refl, refl)

after_events-IsServed_example :
    ((after_events late waiting_one).fetched ++ (after_events late waiting_one).bridge.command_queue
      ≡ (7, close_it) ∷ [])
    × (count_id 7 (after_events late waiting_one).delivered ≤ 1)
unfolding after_event
after_events-IsServed_example =
    after_events-IsServed 7 late waiting_one (refl, tt) (tt, (tt, (tt, (tt, tt))))
