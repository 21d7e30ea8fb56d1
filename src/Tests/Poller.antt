-- ===== src/Tests/Poller.antt =====
-- The order poller at concrete inputs.
use quantpaca.Base.{◌≡◌, ◌≤◌, ◌<◌, ◌↔◌, refl, true, false, [], ◌∷◌, none, some, length, take}
use quantpaca.Js.Number.{num}
use quantpaca.Js.Text.{text, text_eq, to_lower}
use quantpaca.Trading.State.{filled, canceled, partially_filled, map_broker_status_to_trade_state}
use quantpaca.Trading.Types.{PipelineTrade, buy, automation}
use quantpaca.Poller.Targets.{select_poll_targets, candidates}
use quantpaca.Poller.Fetch.{BrokerOrderPollResult}
use quantpaca.Poller.Apply.{apply_trade_poll_result}
use quantpaca.Poller.Selection.{IsOldestFirst, select_poll_targets_lem}
use quantpaca.Poller.Fills.{IsHonest, apply_trade_poll_result-IsHonest}
use mathlib.Core.List.{Perm}

abbrev pub entry_trade : PipelineTrade
entry_trade = record {
  id = text "tr-1";
  symbol = text "NVDA";
  qty = num 10;
  price = num 100;
  side = buy;
  status = partially_filled;
  source = automation;
  timestamp = num 1650000000000;
  reasoning = text "thesis";
  notified_telegram = false;
  exported_sheets = false;
  logged_notion = false;
  risk_decision = none;
  exit_plan = none;
  client_order_id = none;
  broker_order_id = some (text "order-1");
  broker_status = some (text "partially_filled");
  broker_leg_order_ids = some (text "leg-1" ∷ []);
  broker_leg_states = [];
  filled_qty = some (num 4);
  remaining_qty = some (num 6);
  last_poll_error = none;
  exit_closed_broker_side = none;
  exit_plan_complete = false;
}

abbrev pub canceled_poll : BrokerOrderPollResult
canceled_poll = record {
  ok = true;
  status = some (text "canceled");
  filled_qty = some (num 4);
  filled_avg_price = none;
  limit_price = none;
  stop_price = none;
  order_type = none;
  error_message = none;
}

abbrev pub filled_poll : BrokerOrderPollResult
filled_poll = record canceled_poll {
  status = some (text "filled");
  order_type = some (text "limit");
}

select_poll_targets_lem_example :
    let selection = select_poll_targets (entry_trade ∷ []) 1 in
    (arranged : _) × Perm arranged (candidates (entry_trade ∷ []))
    × IsOldestFirst arranged
    × (selection.targets ≡ take 1 arranged)
    × (length selection.targets ≤ 1)
    × ((selection.capped ≡ true) ↔ (length selection.targets < length arranged))
select_poll_targets_lem_example = select_poll_targets_lem (entry_trade ∷ []) 1

apply_trade_poll_result-IsHonest_example :
    IsHonest entry_trade filled_poll
      (apply_trade_poll_result entry_trade filled_poll (num 1650000060000))
apply_trade_poll_result-IsHonest_example =
    apply_trade_poll_result-IsHonest entry_trade filled_poll (num 1650000060000)

pub canceled_sample : map_broker_status_to_trade_state (some (text "canceled")) ≡ canceled
unfolding map_broker_status_to_trade_state text text_eq to_lower
canceled_sample = refl

filled_sample : map_broker_status_to_trade_state (some (text "filled")) ≡ filled
unfolding map_broker_status_to_trade_state text text_eq to_lower
filled_sample = refl
