-- ===== src/Liquidation.antt =====
-- src/server.ts, `sellRiskPreflight` and `cancelBracketLegsBeforeSell`: what an automated sell does
-- before it is submitted. The cancel call and the poll of an order are parameters; writes to the
-- store succeed.
use quantpaca.Base.{
  ℕ, zero, suc, Bool, true, false, not, ◌&&◌, ◌||◌, List, [], ◌∷◌, ◌++◌, Option, none, some,
  if◌then◌else◌, is_some, length, keep,
}
use quantpaca.Js.Number.{Number, num, eq, lt, is_finite}
use quantpaca.Js.Arith.{sub, mul}
use quantpaca.Js.Text.{Text, text, starts_with}
use quantpaca.Js.Value.{Value}
use quantpaca.NumericSafety.{ParsedFiniteNumber, ok, failed, parse_finite_number}
use quantpaca.Trading.State.{TradeState, canceled}
use quantpaca.Trading.Types.{
  PipelineTrade, RiskReason, broker, Message, leg_lookup_failed, leg_cancel_failed,
  leg_already_terminal,
}
use quantpaca.Poller.Targets.{leg_state, is_open_leg}
use quantpaca.Poller.Fetch.{BrokerOrderPollResult}
use quantpaca.Poller.Apply.{PartialAuditEvent}
use quantpaca.Poller.Legs.{LegPollOutcome, set_leg_state, apply_leg_poll_result}
use quantpaca.Poller.Cycle.{CancelResult}
use quantpaca.Portfolio.{AlpacaAccount, to_number}
use quantpaca.Risk.Gates.{evaluate_sell_fatal_risk_gates}
use quantpaca.Execution.Context.{Context, number_of, last_equity_of}
use quantpaca.Execution.Decision.{daily_trade_count}
pub mod Legs

preflight_loss : Context → AlpacaAccount → ParsedFiniteNumber → Option Number
preflight_loss ctx account (failed field) = none
preflight_loss ctx account (ok equity) =
    let last = number_of (last_equity_of ctx.broker_config account) in
    if lt (num 0) equity && is_finite last then some (sub equity last) else none

-- The reason why the review would reject the sell, if it would.
unfoldable pub sell_risk_preflight : Context → AlpacaAccount → Number → Number → Option RiskReason
unfolding preflight_loss
sell_risk_preflight ctx account qty price = evaluate_sell_fatal_risk_gates (record {
  daily_loss = preflight_loss ctx account (parse_finite_number account.equity (text "equity"));
  daily_trade_count = daily_trade_count ctx;
  buying_power = to_number account.buying_power;
  notional = mul qty price;
  max_daily_loss = ctx.limits.max_daily_loss;
  max_daily_trade_count = ctx.limits.max_daily_trade_count;
  min_buying_power = ctx.limits.min_buying_power;
})

-- What `latestBuySideExitPlanForSymbol` gives of the entry that a position came from: the ids of
-- its legs, their recorded states, and the trade, if the store has it.
pub record EntryRecord : Type 0 where
  pub leg_order_ids : List Text
  pub leg_states : List (Text × TradeState)
  pub entry : Option PipelineTrade

pub data LegLookup : Type 0 where
  lookup_threw : Text → LegLookup
  no_entry : LegLookup
  found_entry : EntryRecord → LegLookup

-- The entry trade as it is stored, the trades saved, the legs that DELETE was sent for, the legs
-- canceled and the audit trail so far.
pub record CancelState : Type 0 where
  pub entry : Option PipelineTrade
  pub saved : List PipelineTrade
  pub deletes : List Text
  pub canceled_count : ℕ
  pub events : List PartialAuditEvent

pub record CancelRun : Type 0 where
  pub ok : Bool
  pub state : CancelState

unfoldable pub broker_note : Message → PartialAuditEvent
broker_note message = record {
  kind = broker;
  entity_id = none;
  from_state = none;
  to_state = none;
  message = message;
}

with_canceled_leg : Text → PipelineTrade → PipelineTrade
with_canceled_leg leg trade = record trade {
  broker_leg_states = set_leg_state leg canceled trade.broker_leg_states;
}

saves : Option PipelineTrade → List PipelineTrade
saves none = []
saves (some t) = t ∷ []

-- A leg that was canceled is recorded as such.
unfoldable pub leg_canceled : Text → CancelState → CancelState
unfolding with_canceled_leg saves
leg_canceled leg st =
    let entry : Option PipelineTrade = elim st.entry [
      | none ↦ none
      | some trade ↦ some (with_canceled_leg leg trade)
    ] in
    record st {
      entry = entry;
      saved = st.saved ++ saves entry;
      canceled_count = suc st.canceled_count;
    }

leave_protected : Text → Text → Option Number → CancelState → CancelRun
unfolding broker_note
leave_protected symbol leg status st = record {
  ok = false;
  state = record st {
    events = st.events ++ (broker_note (leg_cancel_failed symbol leg status) ∷ []);
  };
}

-- The leg that cannot be canceled was polled.
unfoldable pub leg_repolled : Text → Text → Option Number → LegPollOutcome → CancelState → CancelRun
unfolding leave_protected broker_note saves
leg_repolled symbol leg status outcome st =
    let seen = record st {
      entry = some outcome.trade;
      saved = st.saved ++ (outcome.trade ∷ saves outcome.synthetic_sell_trade);
      events = st.events ++ outcome.audit_events;
    } in
    if outcome.became_terminal
    then record {
      ok = true;
      state = record seen {
        events =
            seen.events
            ++ (broker_note (leg_already_terminal symbol leg outcome.leg_mapped_state) ∷ []);
      };
    }
    else leave_protected symbol leg status seen

pub not_cancelable : Option Number → Bool
not_cancelable none = false
not_cancelable (some status) = eq status (num 422)

module _ (cancel_order : Text → CancelResult) (fetch : Text → BrokerOrderPollResult) (now : Number)
    (symbol : Text) where
  repoll : Text → Option Number → Option PipelineTrade → CancelState → CancelRun
  unfolding leave_protected leg_repolled
  repoll leg status none st = leave_protected symbol leg status st
  repoll leg status (some trade) st =
      if (fetch leg).ok
      then leg_repolled symbol leg status (apply_leg_poll_result trade leg (fetch leg) now) st
      else leave_protected symbol leg status st

  -- One leg that is not known to be terminal.
  unfoldable pub cancel_leg : Text → CancelState → CancelRun
  unfolding leg_canceled repoll leave_protected not_cancelable
  cancel_leg leg st =
      let tried = record st { deletes = st.deletes ++ (leg ∷ []) } in
      if (cancel_order leg).ok
      then record { ok = true; state = leg_canceled leg tried }
      else if not_cancelable (cancel_order leg).status
      then repoll leg (cancel_order leg).status tried.entry tried
      else leave_protected symbol leg (cancel_order leg).status tried

  -- The loop over the legs, with the states as they were looked up; a failure ends it.
  unfoldable pub cancel_legs : List (Text × TradeState) → List Text → CancelState → CancelRun
  unfolding cancel_leg
  cancel_legs states [] st = record { ok = true; state = st }
  cancel_legs states (leg ∷ legs) st =
      let skipped = cancel_legs states legs st in
      let tried = cancel_leg leg st in
      let rest = cancel_legs states legs tried.state in
      if not (is_open_leg (leg_state leg states)) then skipped else if tried.ok then rest else tried

  abbrev start : Option PipelineTrade → CancelState
  start entry = record { entry = entry; saved = []; deletes = []; canceled_count = 0; events = [] }

  cancel_found : LegLookup → CancelRun
  unfolding cancel_legs broker_note
  cancel_found (lookup_threw message) = record {
    ok = false;
    state = record (start none) { events = broker_note (leg_lookup_failed symbol message) ∷ [] };
  }
  cancel_found no_entry = record { ok = true; state = start none }
  cancel_found (found_entry found) =
      cancel_legs found.leg_states found.leg_order_ids (start found.entry)

  unfoldable pub cancel_bracket_legs_before_sell : Bool → LegLookup → CancelRun
  unfolding cancel_found
  cancel_bracket_legs_before_sell configured found =
      if not configured then record { ok = true; state = start none } else cancel_found found
