-- ===== src/Trading/Pipeline.antt =====
-- src/server/tradingSafety.ts, `submitTradeThroughPipeline`. The broker is a parameter: it answers
-- a client order id with an order or throws; every call of it is recorded.
use quantpaca.Base.{
  ℕ, suc, Bool, true, false, not, ◌&&◌, List, [], ◌∷◌, ◌++◌, Option, none, some, if◌then◌else◌,
  is_some, or_else, length,
}
use quantpaca.Js.Number.{Number, nan, number_or}
use quantpaca.Js.Text.{Text, filled}
use quantpaca.Trading.State.{
  TradeState, pending_approval, broker_submitted, broker_failed, risk_rejected,
  map_broker_status_to_trade_state,
}
use quantpaca.Trading.Types.{
  BrokerConfig, TradingMode, live, paper, ExitPlan, RiskStatus, approved,
  approved_with_reduced_size, RiskDecision, TradeRequest, PipelineTrade, AuditType, risk,
  trade_state, AuditEvent, Message, symbol_refused, no_plan_attached, live_trading_blocked,
  submission_started, risk_refused, broker_returned, broker_threw,
}
use quantpaca.Trading.Symbol.{validate_symbol}
use quantpaca.Trading.OrderId.{source_text, iso_day, derive_client_order_id}

-- A broker's order; a leg whose id is no string is `none`.
pub record BrokerOrderResponse : Type 0 where
  pub id : Option Text
  pub status : Option Text
  pub legs : Option (List (Option Text))

pub data BrokerOutcome : Type 0 where
  returned : BrokerOrderResponse → BrokerOutcome
  threw : Option Text → BrokerOutcome

pub record SubmitTradeInput : Type 0 where
  pub request : TradeRequest
  pub broker_config : BrokerConfig
  pub risk_decision : RiskDecision
  pub exit_plan : Option ExitPlan

-- What the run reads from outside: the clock at each reading, and random ids.
pub record Surroundings : Type 0 where
  pub clock : ℕ → Number
  pub trade_id : Text
  pub event_id : ℕ → Text

-- The trade and the audit trail so far, and the client order ids sent to the broker.
pub record PipelineRun : Type 0 where
  pub trade : PipelineTrade
  pub audit_events : List AuditEvent
  pub submissions : List Text

unfoldable pub is_approved : RiskStatus → Bool
is_approved approved = true
is_approved approved_with_reduced_size = true
is_approved _ = false

abbrev pub is_live : TradingMode → Bool
is_live live = true
is_live paper = false

unfoldable pub audit_type : TradeState → AuditType
audit_type risk_rejected = risk
audit_type _ = trade_state

-- The ids of the legs that are strings with a character in them.
usable_legs : List (Option Text) → List Text
usable_legs [] = []
usable_legs (none ∷ legs) = usable_legs legs
usable_legs (some leg ∷ legs) =
    let rest = usable_legs legs in if filled leg then leg ∷ rest else rest

leg_ids : Option (List (Option Text)) → Option (List Text)
unfolding usable_legs
leg_ids none = none
leg_ids (some legs) = elim (usable_legs legs) [ [] ↦ none | leg ∷ rest ↦ some (leg ∷ rest) ]

-- `audit`: the event is appended, and the trade moves to its state.
unfoldable pub audit :
    SubmitTradeInput → Surroundings → TradeState → TradeState → Message → PipelineRun → PipelineRun
unfolding audit_type
audit input around to from message run =
    let n = length run.audit_events in
    record run {
      trade = record (run.trade) { status = to };
      audit_events =
          run.audit_events
          ++ (record {
            id = around.event_id n;
            timestamp = around.clock (suc n);
            kind = audit_type to;
            actor = or_else input.request.actor (source_text input.request.source);
            entity_id = some run.trade.id;
            from_state = some from;
            to_state = some to;
            message = message;
          }
              ∷ []);
    }

-- After the broker's answer.
unfoldable pub settle : SubmitTradeInput → Surroundings → BrokerOutcome → PipelineRun → PipelineRun
unfolding audit leg_ids
settle input around (threw reason) run =
    audit input around broker_failed broker_submitted (broker_threw reason) run
settle input around (returned order) run =
    audit input around (map_broker_status_to_trade_state order.status) broker_submitted
      (broker_returned order.id order.status)
      (record run {
        trade = record (run.trade) {
          broker_order_id = order.id;
          broker_status = order.status;
          broker_leg_order_ids = leg_ids order.legs;
        };
      })

module _ (sha256_hex : Text → Text) (show_number : Number → Text) where
  unfoldable pub client_order_id_of : SubmitTradeInput → Number → Text
  client_order_id_of input timestamp =
      derive_client_order_id sha256_hex show_number
        (or_else (validate_symbol input.request.symbol).normalized input.request.symbol)
        input.request.side
        (number_or (or_else input.risk_decision.adjusted_qty nan) input.request.qty)
        input.request.source (iso_day timestamp)

  unfoldable pub base_trade : SubmitTradeInput → Surroundings → PipelineTrade
  unfolding client_order_id_of
  base_trade input around = record {
    id = around.trade_id;
    symbol = or_else (validate_symbol input.request.symbol).normalized input.request.symbol;
    qty = number_or (or_else input.risk_decision.adjusted_qty nan) input.request.qty;
    price = input.request.estimated_price;
    side = input.request.side;
    status = pending_approval;
    source = input.request.source;
    timestamp = around.clock 0;
    reasoning = input.request.reasoning;
    notified_telegram = false;
    exported_sheets = false;
    logged_notion = false;
    risk_decision = some input.risk_decision;
    exit_plan = input.exit_plan;
    client_order_id = some (client_order_id_of input (around.clock 0));
    broker_order_id = none;
    broker_status = none;
    broker_leg_order_ids = none;
    broker_leg_states = [];
    filled_qty = none;
    remaining_qty = none;
    last_poll_error = none;
    exit_closed_broker_side = none;
    exit_plan_complete = false;
  }

  unfoldable pub submit_trade_through_pipeline :
      (Text → BrokerOutcome) → SubmitTradeInput → Surroundings → PipelineRun
  unfolding base_trade client_order_id_of audit settle is_approved
  submit_trade_through_pipeline broker_submit input around =
      let id = client_order_id_of input (around.clock 0) in
      let run : PipelineRun = record {
        trade = base_trade input around;
        audit_events = [];
        submissions = [];
      } in
      if not (validate_symbol input.request.symbol).valid
      then audit input around risk_rejected pending_approval symbol_refused run
      else if not (is_some input.exit_plan)
      then audit input around risk_rejected pending_approval no_plan_attached run
      else if not (is_approved input.risk_decision.status)
      then audit input around risk_rejected pending_approval
          (risk_refused input.risk_decision.reason) run
      else if is_live input.broker_config.trading_mode
          && not input.broker_config.live_trading_enabled
      then audit input around risk_rejected pending_approval live_trading_blocked run
      else settle input around (broker_submit id)
          (record (audit input around broker_submitted pending_approval submission_started run) {
            submissions = id ∷ [];
          })
