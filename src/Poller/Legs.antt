-- ===== src/Poller/Legs.antt =====
-- src/server/orderStatusPoller.ts, `applyLegPollResult`.
use quantpaca.Base.{
  Bool, true, false, List, [], ◌∷◌, ◌++◌, Option, none, some, if◌then◌else◌, or_else,
}
use quantpaca.Js.Number.{Number, num}
use quantpaca.Js.Text.{Text, text, text_eq}
use quantpaca.Trading.State.{
  TradeState, filled, unknown_broker_state, map_broker_status_to_trade_state,
}
use quantpaca.Trading.Types.{
  PipelineTrade, sell, broker_leg_fill, broker, leg_exit_filled, synthetic_sell, PollError,
  leg_without_quantity,
}
use quantpaca.Poller.Targets.{leg_state, is_terminal_trade_state}
use quantpaca.Poller.Fetch.{BrokerOrderPollResult}
use quantpaca.Poller.Apply.{PartialAuditEvent}

pub record LegPollOutcome : Type 0 where
  pub trade : PipelineTrade
  pub audit_events : List PartialAuditEvent
  pub became_terminal : Bool
  pub leg_mapped_state : TradeState
  pub synthetic_sell_trade : Option PipelineTrade
  pub unusable_reason : Option PollError

abbrev is_filled_state : TradeState → Bool
is_filled_state filled = true
is_filled_state _ = false

-- `{ ...states, [id]: state }`
unfoldable pub set_leg_state :
    Text → TradeState → List (Text × TradeState) → List (Text × TradeState)
set_leg_state id s [] = (id, s) ∷ []
set_leg_state id s ((j, t) ∷ l) = if text_eq j id then (j, s) ∷ l else (j, t) ∷ set_leg_state id s l

is_type : Option Text → Text → Bool
is_type none t = false
is_type (some s) t = text_eq s t

leg_type_of : BrokerOrderPollResult → Text
unfolding is_type
leg_type_of poll =
    if is_type poll.order_type (text "limit")
    then text "take-profit"
    else if is_type poll.order_type (text "stop")
    then text "stop-loss"
    else text "leg"

-- `filledAvgPrice ?? limitPrice ?? stopPrice`
abbrev first_known : Option Number → Option Number → Option Number
first_known none b = b
first_known (some a) b = some a

price_of : BrokerOrderPollResult → Option Number
price_of poll = first_known poll.filled_avg_price (first_known poll.limit_price poll.stop_price)

unfoldable pub synthetic_id : Text → Text
synthetic_id leg = text "tr-legfill-" ++ leg

-- The SELL entry that a leg's fill implies.
unfoldable pub synthetic_sell_of :
    PipelineTrade → Text → BrokerOrderPollResult → Number → Number → PipelineTrade
unfolding synthetic_id price_of leg_type_of
synthetic_sell_of trade leg poll quantity at = record {
  id = synthetic_id leg;
  symbol = trade.symbol;
  qty = quantity;
  price = or_else (price_of poll) (num 0);
  side = sell;
  status = filled;
  source = broker_leg_fill;
  timestamp = at;
  reasoning =
      text "Synthetic ledger entry: "
      ++ (leg_type_of poll
          ++ (text " leg "
              ++ (leg
                  ++ (text " filled broker-side for "
                      ++ (trade.symbol
                          ++ (text " (owning entry trade " ++ (trade.id ++ text ").")))))));
  notified_telegram = true;
  exported_sheets = true;
  logged_notion = true;
  risk_decision = none;
  exit_plan = none;
  client_order_id = none;
  broker_order_id = some leg;
  broker_status = poll.status;
  broker_leg_order_ids = none;
  broker_leg_states = [];
  filled_qty = some quantity;
  remaining_qty = some (num 0);
  last_poll_error = none;
  exit_closed_broker_side = none;
  exit_plan_complete = false;
}

unfoldable pub leg_recorded : PipelineTrade → Text → TradeState → PipelineTrade
unfolding set_leg_state
leg_recorded trade leg mapped = record trade {
  broker_leg_states = set_leg_state leg mapped trade.broker_leg_states;
}

-- The owning trade and the ledger entry after a leg's fill.
leg_filled : PipelineTrade → Text → BrokerOrderPollResult → Number → Number → LegPollOutcome
unfolding synthetic_sell_of leg_recorded price_of leg_type_of is_terminal_trade_state
leg_filled trade leg poll quantity at =
    let kind = leg_type_of poll in
    record {
      trade = record (leg_recorded trade leg filled) {
        exit_closed_broker_side =
            some (record { leg_id = leg; leg_type = kind; price = price_of poll; at = at });
        exit_plan_complete = true;
      };
      audit_events =
          record {
            kind = broker;
            entity_id = some trade.id;
            from_state = none;
            to_state = none;
            message = leg_exit_filled trade.symbol kind (price_of poll);
          }
          ∷ record {
            kind = broker;
            entity_id = some (synthetic_id leg);
            from_state = none;
            to_state = none;
            message = synthetic_sell trade.symbol quantity;
          }
          ∷ [];
      became_terminal = is_terminal_trade_state filled;
      leg_mapped_state = filled;
      synthetic_sell_trade = some (synthetic_sell_of trade leg poll quantity at);
      unusable_reason = none;
    }

leg_unusable : PipelineTrade → Text → BrokerOrderPollResult → LegPollOutcome
leg_unusable trade leg poll =
    let reason = leg_without_quantity poll.status leg trade.symbol in
    record {
      trade = record trade { last_poll_error = some reason };
      audit_events = [];
      became_terminal = false;
      leg_mapped_state = or_else (leg_state leg trade.broker_leg_states) unknown_broker_state;
      synthetic_sell_trade = none;
      unusable_reason = some reason;
    }

-- By the state that the broker's status maps to, and the quantity where it is known.
unfoldable pub apply_leg_mapped :
    PipelineTrade
    → Text
    → BrokerOrderPollResult
    → Number
    → TradeState
    → Option Number
    → LegPollOutcome
unfolding leg_filled leg_unusable leg_recorded is_terminal_trade_state
apply_leg_mapped trade leg poll at filled (some quantity) = leg_filled trade leg poll quantity at
apply_leg_mapped trade leg poll at filled none = leg_unusable trade leg poll
apply_leg_mapped trade leg poll at mapped quantity = record {
  trade = leg_recorded trade leg mapped;
  audit_events = [];
  became_terminal = is_terminal_trade_state mapped;
  leg_mapped_state = mapped;
  synthetic_sell_trade = none;
  unusable_reason = none;
}

unfoldable pub apply_leg_poll_result :
    PipelineTrade → Text → BrokerOrderPollResult → Number → LegPollOutcome
unfolding apply_leg_mapped
apply_leg_poll_result trade leg poll at =
    apply_leg_mapped trade leg poll at (map_broker_status_to_trade_state poll.status)
      poll.filled_qty
