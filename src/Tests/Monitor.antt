-- ===== src/Tests/Monitor.antt =====
-- The exit monitor and the cancellation of bracket legs at concrete inputs.
use quantpaca.Base.{◌≡◌, refl, true, false, [], ◌∷◌, none, some, every}
use quantpaca.Js.Number.{num, is_finite, le}
use quantpaca.Js.Arith.{floor}
use quantpaca.Js.Text.{Text, text}
use quantpaca.Js.Value.{Value}
use quantpaca.Trading.Types.{buy}
use quantpaca.Exits.{ExitReason}
use quantpaca.Execution.Context.{number_of}
use quantpaca.Poller.Fetch.{BrokerOrderPollResult}
use quantpaca.Poller.Cycle.{CancelResult}
use quantpaca.Liquidation.{EntryRecord, found_entry, cancel_bracket_legs_before_sell}
use quantpaca.Liquidation.Legs.{is_clear, cancel_bracket_legs_lem}
use quantpaca.Monitor.{
  OpenPosition, MonitorInput, PlanLookup, found, shares_of, evaluate_open_position_exits,
}
use quantpaca.Monitor.Protection.{
  Holds, HasShares, IsStopped, IsLosing, evaluate_open_position_exits-Holds,
}
use quantpaca.Monitor.Marks.{AllRaise, evaluate_open_position_exits-AllRaise}
use quantpaca.Tests.Trading.{plan}
use quantpaca.Tests.Poller.{entry_trade, filled_poll}

abbrev position : OpenPosition
position = record {
  symbol = text "NVDA";
  qty = Value.number (num 3);
  current_price = Value.number (num 90);
  unrealized_pl_percent = num 0;
}

abbrev plans : Text → PlanLookup
plans symbol = found (record {
  side = buy;
  exit_plan = plan;
  trade_id = some (text "tr-1");
  high_water_mark = Value.number (num 80);
})

abbrev monitor : MonitorInput
monitor = record {
  now = num 1650000000000;
  legacy_stop_loss_percent = num 5;
  lookup_plan = plans;
  regime_permission = none;
  thesis_invalidated_symbols = [];
}

position-HasShares : HasShares position
unfolding shares_of number_of floor num is_finite le
position-HasShares = record { countable = refl; at_least_one = refl }

evaluate_open_position_exits-Holds_example :
    let result = evaluate_open_position_exits monitor (position ∷ position ∷ []) in
    (IsStopped monitor position
      → (reason : ExitReason) × Holds
          (record { symbol = text "NVDA"; qty = shares_of position; reason = reason })
          result.plan_exits)
    × (IsLosing monitor position
        → Holds
            (record {
              symbol = text "NVDA";
              qty = shares_of position;
              unrealized_loss_percent = num 0;
            })
            result.legacy_exits)
evaluate_open_position_exits-Holds_example =
    evaluate_open_position_exits-Holds monitor (position ∷ []) position [] position-HasShares

evaluate_open_position_exits-AllRaise_example :
    AllRaise monitor (position ∷ []) (evaluate_open_position_exits monitor (position ∷ [])).ratchets
evaluate_open_position_exits-AllRaise_example =
    evaluate_open_position_exits-AllRaise monitor (position ∷ [])

-- The broker refuses to cancel the leg, which has been filled.
abbrev pub uncancelable : Text → CancelResult
uncancelable leg = record { ok = false; status = some (num 422) }

abbrev pub filled_leg : Text → BrokerOrderPollResult
filled_leg leg = filled_poll

abbrev entry_record : EntryRecord
entry_record = record {
  leg_order_ids = text "leg-1" ∷ [];
  leg_states = [];
  entry = some entry_trade;
}

cancel_bracket_legs_lem_example :
    (cancel_bracket_legs_before_sell uncancelable filled_leg
      (num 0)
      (text "NVDA")
      true
      (found_entry entry_record)).ok
    ≡ every (is_clear uncancelable filled_leg []) (text "leg-1" ∷ [])
cancel_bracket_legs_lem_example =
    cancel_bracket_legs_lem uncancelable filled_leg (num 0) (text "NVDA") entry_record refl
