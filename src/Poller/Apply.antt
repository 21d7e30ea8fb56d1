-- ===== src/Poller/Apply.antt =====
-- src/server/orderStatusPoller.ts, `applyTradePollResult`.
use quantpaca.Base.{
  ℕ, Bool, true, false, not, ◌&&◌, ◌||◌, List, [], ◌∷◌, ◌++◌, Option, none, some, if◌then◌else◌,
  or_else, is_some, ◌==◌,
}
use quantpaca.Js.Number.{Number, num, lt, eq, max, is_finite}
use quantpaca.Js.Arith.{sub, mul}
use quantpaca.Js.Text.{Text}
use quantpaca.Trading.State.{TradeState, partially_filled, filled, map_broker_status_to_trade_state}
use quantpaca.Trading.Types.{
  PipelineTrade, AuditType, trade_state, Message, partial_fill, status_polled, PollError,
  trade_without_quantity,
}
use quantpaca.Poller.Fetch.{BrokerOrderPollResult}

pub record PartialAuditEvent : Type 0 where
  pub kind : AuditType
  pub entity_id : Option Text
  pub from_state : Option TradeState
  pub to_state : Option TradeState
  pub message : Message

pub record TradePollOutcome : Type 0 where
  pub trade : PipelineTrade
  pub audit_events : List PartialAuditEvent
  pub should_cancel_stale_partial : Bool
  pub unusable_reason : Option PollError

abbrev pub implies_fill : TradeState → Bool
implies_fill partially_filled = true
implies_fill filled = true
implies_fill _ = false

abbrev pub is_partial : TradeState → Bool
is_partial partially_filled = true
is_partial _ = false

abbrev pub state_index : TradeState → ℕ
state_index TradeState.pending_approval = 0
state_index TradeState.broker_submitted = 1
state_index TradeState.accepted = 2
state_index TradeState.partially_filled = 3
state_index TradeState.filled = 4
state_index TradeState.rejected = 5
state_index TradeState.canceled = 6
state_index TradeState.expired = 7
state_index TradeState.broker_failed = 8
state_index TradeState.risk_rejected = 9
state_index TradeState.approval_rejected = 10
state_index TradeState.unknown_broker_state = 11

-- `a !== b` on states, and on a quantity that may be undefined.
abbrev pub differs : TradeState → TradeState → Bool
differs a b = not (state_index a == state_index b)

quantity_differs : Option Number → Number → Bool
quantity_differs none n = true
quantity_differs (some m) n = not (eq m n)

-- 30 minutes in milliseconds.
unfoldable pub partial_fill_max_age : Number
partial_fill_max_age = mul (num 30) (num 60000)

-- The trade after a status that can be used.
unfoldable pub updated_trade : PipelineTrade → BrokerOrderPollResult → TradeState → PipelineTrade
updated_trade trade poll mapped =
    let base = record trade {
      status = mapped;
      broker_status = poll.status;
      last_poll_error = none;
    } in
    if implies_fill mapped
    then record base {
      filled_qty = some (or_else poll.filled_qty (num 0));
      remaining_qty = some (max (num 0) (sub trade.qty (or_else poll.filled_qty (num 0))));
    }
    else base

fill_events : PipelineTrade → BrokerOrderPollResult → TradeState → List PartialAuditEvent
unfolding quantity_differs
fill_events trade poll mapped =
    let filled_qty = or_else poll.filled_qty (num 0) in
    let remaining = max (num 0) (sub trade.qty filled_qty) in
    if is_partial mapped
      && (differs trade.status mapped
          || (quantity_differs trade.filled_qty filled_qty
              || quantity_differs trade.remaining_qty remaining))
    then record {
      kind = trade_state;
      entity_id = some trade.id;
      from_state = none;
      to_state = none;
      message = partial_fill trade.symbol filled_qty trade.qty remaining;
    }
      ∷ []
    else []

unfoldable pub transition_events :
    PipelineTrade → BrokerOrderPollResult → TradeState → List PartialAuditEvent
transition_events trade poll mapped =
    if differs trade.status mapped
    then record {
      kind = trade_state;
      entity_id = some trade.id;
      from_state = some trade.status;
      to_state = some mapped;
      message = status_polled trade.symbol trade.status mapped poll.status;
    }
      ∷ []
    else []

unfoldable pub is_stale_partial : PipelineTrade → TradeState → Number → Bool
unfolding partial_fill_max_age
is_stale_partial trade mapped now =
    let age = sub now trade.timestamp in
    is_partial mapped && (is_finite age && lt partial_fill_max_age age)

unfoldable pub apply_mapped :
    PipelineTrade → BrokerOrderPollResult → Number → TradeState → TradePollOutcome
unfolding updated_trade fill_events transition_events is_stale_partial
apply_mapped trade poll now mapped =
    let reason = trade_without_quantity poll.status trade.status in
    if implies_fill mapped && not (is_some poll.filled_qty)
    then record {
      trade = record trade { last_poll_error = some reason };
      audit_events = [];
      should_cancel_stale_partial = false;
      unusable_reason = some reason;
    }
    else record {
      trade = updated_trade trade poll mapped;
      audit_events = fill_events trade poll mapped ++ transition_events trade poll mapped;
      should_cancel_stale_partial = is_stale_partial trade mapped now;
      unusable_reason = none;
    }

unfoldable pub apply_trade_poll_result :
    PipelineTrade → BrokerOrderPollResult → Number → TradePollOutcome
unfolding apply_mapped
apply_trade_poll_result trade poll now =
    apply_mapped trade poll now (map_broker_status_to_trade_state poll.status)
