-- ===== src/Execution/Run.antt =====
-- `executeTradeIntent` in src/server.ts from the risk decision on, with every write to the store.
use quantpaca.Base.{
  Bool, true, false, not, ◌&&◌, List, [], ◌∷◌, ◌++◌, map, Option, none, some, if◌then◌else◌,
  or_else,
}
use quantpaca.Js.Number.{Number, nan, num, lt, number_or}
use quantpaca.Js.Arith.{add, mul}
use quantpaca.Js.Text.{Text, text, text_eq, filled as is_filled}
use quantpaca.Exits.{iso_time}
use quantpaca.Trading.State.{
  TradeState, accepted, partially_filled, filled, rejected, canceled, expired, broker_failed,
  unknown_broker_state, is_broker_success,
}
use quantpaca.Trading.Types.{
  Side, buy, sell, TradeRequest, RiskDecision, ExitPlan, PipelineTrade, AuditEvent, AuditType,
  breaker, broker, Message, breaker_moved,
}
use quantpaca.Trading.OrderId.{source_text}
use quantpaca.Trading.Pipeline.{PipelineRun, submit_trade_through_pipeline}
use quantpaca.Breaker.Engine.{BreakerState}
use quantpaca.Breaker.Latch.{
  ApplyLatchResult, BreakerLatchState, LatchEvent, no_event, trip, escalate, status_name,
}
use quantpaca.Risk.Portfolio.{OpenOrder}
use quantpaca.Portfolio.{AlpacaAccount}
use quantpaca.Tradability.{PositiveCache}
use quantpaca.Orders.{
  OrderPost, OrderReply, LookupReply, Placement, BracketContext, place_alpaca_order,
}
use quantpaca.Execution.Context.{Context, normalize_request}
use quantpaca.Execution.Decision.{latched_breaker, plan_for, gate_of, decide}
pub mod Sent

-- `BROKER_REACHED_TRADE_STATUSES`
unfoldable pub is_broker_reached : TradeState → Bool
is_broker_reached accepted = true
is_broker_reached partially_filled = true
is_broker_reached filled = true
is_broker_reached rejected = true
is_broker_reached canceled = true
is_broker_reached expired = true
is_broker_reached broker_failed = true
is_broker_reached unknown_broker_state = true
is_broker_reached _ = false

-- The writes to the store, in order.
pub data StoreEffect : Type 0 where
  save_breaker_state : BreakerState → BreakerLatchState → StoreEffect
  append_audit_events : List AuditEvent → StoreEffect
  save_trade_intent : PipelineTrade → StoreEffect
  save_risk_decision : Text → RiskDecision → StoreEffect
  save_exit_plan : Text → ExitPlan → StoreEffect
  save_cooldown : Text → Number → StoreEffect

-- The trade, or nothing where the function threw, with the writes and orders up to there and the
-- cache of the tradability guard.
pub record Execution : Type 0 where
  pub trade : Option PipelineTrade
  pub effects : List StoreEffect
  pub posts : List OrderPost
  pub cache : PositiveCache

event_label : LatchEvent → Bool
event_label escalate = true
event_label _ = false

-- The details of the event are those of the state that is saved with it.
unfoldable pub breaker_event : Context → ApplyLatchResult → AuditEvent
unfolding event_label
breaker_event ctx latch = record {
  id = ctx.breaker_event_id;
  timestamp = ctx.now;
  kind = breaker;
  actor = text "breaker_engine";
  entity_id = none;
  from_state = none;
  to_state = none;
  message =
      breaker_moved (event_label latch.event) (status_name latch.latch_state.latched_status)
        latch.corrupt;
}

unfoldable pub event_effects : LatchEvent → AuditEvent → List StoreEffect
event_effects no_event event = []
event_effects _ event = append_audit_events (event ∷ []) ∷ []

unfoldable pub breaker_effects : Context → ApplyLatchResult → List StoreEffect
unfolding event_effects breaker_event
breaker_effects ctx latch =
    save_breaker_state latch.effective latch.latch_state
    ∷ event_effects latch.event (breaker_event ctx latch)

-- The id to record the trade under: that of an earlier trade with the same client order id, if this
-- one reached the broker and the lookup worked.
existing_id : Option (Option Text) → Text → Text
existing_id none id = id
existing_id (some none) id = id
existing_id (some (some earlier)) id = earlier

unfoldable pub final_id : Context → PipelineTrade → Text
unfolding existing_id
final_id ctx trade = elim trade.client_order_id [
  | none ↦ trade.id
  | some client_id ↦
      if is_filled client_id && is_broker_reached trade.status
      then existing_id (ctx.existing_trade client_id) trade.id
      else trade.id
]

is_about : Text → AuditEvent → Bool
is_about id event = elim event.entity_id [ none ↦ false | some other ↦ text_eq other id ]

-- The events of the trade follow it to its final id.
unfoldable pub repoint : Text → Text → AuditEvent → AuditEvent
unfolding is_about
repoint stale id event =
    if is_about stale event then record event { entity_id = some id } else event

note_event : Context → TradeRequest → Text → Message → AuditEvent
note_event ctx request id message = record {
  id = ctx.note_event_id;
  timestamp = ctx.now;
  kind = broker;
  actor = or_else request.actor (source_text request.source);
  entity_id = some id;
  from_state = none;
  to_state = none;
  message = message;
}

unfoldable pub decision_effects : Text → Option RiskDecision → List StoreEffect
decision_effects id none = []
decision_effects id (some decision) = save_risk_decision id decision ∷ []

-- A plan is kept only for an order that was placed.
unfoldable pub plan_effects : PipelineTrade → List StoreEffect
plan_effects trade = elim trade.exit_plan [
  | none ↦ []
  | some plan ↦ if is_broker_success trade.status then save_exit_plan trade.id plan ∷ [] else []
]

unfoldable pub expiry : Option Number → Text → List StoreEffect
expiry none symbol = []
expiry (some until) symbol = save_cooldown symbol until ∷ []

-- The cooldown of a symbol whose order reached the broker; a date out of range throws and is logged.
unfoldable pub cooldown_effects : Context → PipelineTrade → List StoreEffect
unfolding expiry
cooldown_effects ctx trade =
    if lt (num 0) ctx.symbol_cooldown_hours && is_broker_reached trade.status
    then expiry
        (iso_time
          (add ctx.now (mul (mul (mul ctx.symbol_cooldown_hours (num 60)) (num 60)) (num 1000))))
        trade.symbol
    else []

-- The writes after the pipeline.
unfoldable pub record_effects :
    Context → TradeRequest → PipelineRun → List Message → PipelineTrade → List StoreEffect
unfolding repoint note_event decision_effects plan_effects cooldown_effects
record_effects ctx request run notes trade =
    append_audit_events (
      map (repoint run.trade.id trade.id) run.audit_events
      ++ map (note_event ctx request trade.id) notes)
    ∷ save_trade_intent trade
    ∷ (decision_effects trade.id trade.risk_decision
        ++ (plan_effects trade ++ cooldown_effects ctx trade))

module _ (sha256_hex : Text → Text) (fixed2 : Number → Text) (show_number : Number → Text)
    (post : OrderPost → OrderReply) (find : Text → LookupReply) where
  unfoldable pub placement : Context → ExitPlan → RiskDecision → TradeRequest → Text → Placement
  placement ctx plan decision request id =
      place_alpaca_order post find show_number ctx.broker_config ctx.now request.symbol
        (number_or (or_else decision.adjusted_qty nan) request.qty) request.side id
        (elim request.side [
          | buy ↦ some (record { entry_estimate = request.estimated_price; exit_plan = some plan })
          | sell ↦ none
        ])

  unfoldable pub run_pipeline : Context → ExitPlan → RiskDecision → TradeRequest → PipelineRun
  unfolding placement
  run_pipeline ctx plan decision request =
      submit_trade_through_pipeline sha256_hex show_number
        (λ id. (placement ctx plan decision request id).outcome)
        (record {
          request = request;
          broker_config = ctx.broker_config;
          risk_decision = decision;
          exit_plan = some plan;
        })
        ctx.around

  -- What the broker was sent and the notes on it: `brokerSubmit` is called once per submission.
  unfoldable pub sent : (Text → Placement) → List Text → List OrderPost × List Message
  sent place [] = ([], [])
  sent place (id ∷ ids) =
      let (posts, notes) = sent place ids in ((place id).posts ++ posts, (place id).notes ++ notes)

  unfoldable pub settle_trade :
      Context → TradeRequest → ExitPlan → RiskDecision → ApplyLatchResult → PipelineRun → Execution
  unfolding sent placement record_effects final_id breaker_effects
  settle_trade ctx request plan decision latch run =
      let (posts, notes) = sent (placement ctx plan decision request) run.submissions in
      let trade = record (run.trade) { id = final_id ctx run.trade } in
      record {
        trade = some trade;
        effects = breaker_effects ctx latch ++ record_effects ctx request run notes trade;
        posts = posts;
        cache = (gate_of ctx request).1;
      }

  -- With an exit plan, once the account and the orders are read.
  unfoldable pub execute_planned :
      Context → AlpacaAccount → List OpenOrder → TradeRequest → ExitPlan → Execution
  unfolding settle_trade run_pipeline latched_breaker
  execute_planned ctx account orders request plan =
      let latch = latched_breaker fixed2 show_number ctx account in
      let decision = decide ctx account orders latch.effective plan request in
      settle_trade ctx request plan decision latch (run_pipeline ctx plan decision request)

  abbrev nothing : Context → List StoreEffect → Execution
  nothing ctx effects = record { trade = none; effects = effects; posts = []; cache = ctx.cache }

  -- Over what the account, the open orders and the plan come to, each of which may throw.
  unfoldable pub execute_read :
      Context
      → TradeRequest
      → Option AlpacaAccount
      → Option (List OpenOrder)
      → Option ExitPlan
      → Execution
  unfolding execute_planned breaker_effects latched_breaker
  execute_read ctx request none orders plan = nothing ctx []
  execute_read ctx request (some account) none plan = nothing ctx []
  execute_read ctx request (some account) (some orders) none =
      nothing ctx (breaker_effects ctx (latched_breaker fixed2 show_number ctx account))
  execute_read ctx request (some account) (some orders) (some plan) =
      execute_planned ctx account orders request plan

  unfoldable pub execute_normalized : Context → TradeRequest → Execution
  unfolding execute_read
  execute_normalized ctx request =
      execute_read ctx request ctx.account ctx.open_orders (plan_for ctx request)

  unfoldable pub execute_trade_intent : Context → TradeRequest → Execution
  unfolding execute_normalized normalize_request
  execute_trade_intent ctx request = execute_normalized ctx (normalize_request request)
