-- ===== src/Trading/Types.antt =====
-- The records of src/server/tradingSafety.ts and src/types.ts that trades are made of. A message
-- text and its details are one constructor that carries the values put into them; a timestamp is
-- the number of milliseconds that `Date.parse` gives for it, NaN where it gives none.
use quantpaca.Base.{ℕ, Bool, Option, List}
use quantpaca.Js.Number.{Number}
use quantpaca.Js.Text.{Text}
use quantpaca.Js.Value.{Value}
use quantpaca.Trading.State.{TradeState}

pub data Side : Type 0 where
  buy sell : Side

pub data TradingMode : Type 0 where
  paper live : TradingMode

pub record BrokerConfig : Type 0 where
  pub configured : Bool
  pub trading_mode : TradingMode
  pub live_trading_enabled : Bool
  pub base_url : Text
  pub api_key : Option Text
  pub secret_key : Option Text

pub data RegimeChangeAction : Type 0 where
  hold reduce close : RegimeChangeAction

pub data EmergencyAction : Type 0 where
  market_sell cancel_orders manual_review : EmergencyAction

pub record ExitPlan : Type 0 where
  pub initial_stop_loss_price : Number
  pub take_profit_price : Option Number
  pub trailing_stop_percent : Option Number
  pub entry_price : Option Number
  pub time_exit_at : Number
  -- The symbol that the text of `thesisInvalidation` names.
  pub thesis_invalidation : Text
  pub regime_change_action : RegimeChangeAction
  pub emergency_action : EmergencyAction

pub data RiskStatus : Type 0 where
  approved approved_with_reduced_size rejected requires_human_approval : RiskStatus

-- What src/server/tradabilityGuard.ts answers for a symbol.
pub data TradabilityReason : Type 0 where
  from_cache tradable_and_active : Text → TradabilityReason
  asset_response_code : Text → Number → TradabilityReason
  asset_inactive : Text → Bool → Value → TradabilityReason
  asset_check_threw : Text → Text → TradabilityReason

-- An entry of the do-not-buy list.
pub record DoNotBuyEntry : Type 0 where
  pub symbol : Text
  pub source_id : Text
  pub reason : Text
  pub expires_at : Number

-- The inputs that `reviewRisk` parses, in its order.
pub data RiskField : Type 0 where
  intent_qty intent_notional intent_estimated_price portfolio_buying_power : RiskField
  metrics_daily_loss metrics_daily_trade_count metrics_open_position_count : RiskField
  metrics_account_equity metrics_day_trade_count limits_max_daily_loss : RiskField
  limits_max_daily_trade_count limits_max_open_positions limits_min_buying_power : RiskField

-- What stops a buy before `reviewRisk`, in src/server.ts and src/server/startupReconciliation.ts.
pub data BuyGate : Type 0 where
  startup_pending market_closed cooldown_unreadable do_not_buy_unreadable : BuyGate
  orphans_found : ℕ → BuyGate
  not_tradable : TradabilityReason → BuyGate
  do_not_buy : DoNotBuyEntry → BuyGate

pub data RiskReason : Type 0 where
  not_finite : RiskField → RiskReason
  breaker_tripped invalid_symbol live_blocked no_exit_plan no_quantity : RiskReason
  max_daily_loss max_daily_trade_count : RiskReason
  pdt_guard : Number → RiskReason
  max_open_positions insufficient_buying_power duplicate_open_order : RiskReason
  symbol_cooldown cross_source_conflict passed : RiskReason
  -- A buy that was stopped before the risk review.
  blocked_by : BuyGate → RiskReason
  -- A decision made elsewhere, with its text.
  other_reason : Text → RiskReason

pub record RiskDecision : Type 0 where
  pub status : RiskStatus
  pub reason : RiskReason
  pub adjusted_qty : Option Number

pub data Source : Type 0 where
  manual telegram automation stop_loss emergency broker_leg_fill : Source

pub record TradeRequest : Type 0 where
  pub source : Source
  pub symbol : Text
  pub side : Side
  pub qty : Number
  pub estimated_price : Number
  pub reasoning : Text
  pub actor : Option Text
  pub cross_source_conflict : Bool

pub record ExitClosed : Type 0 where
  pub leg_id : Text
  pub leg_type : Text
  pub price : Option Number
  pub at : Number

-- Why an order could not be read: the response's code, a body that is no object, or what was thrown.
pub data FetchError : Type 0 where
  response_code : Text → Number → FetchError
  not_an_object : Text → FetchError
  thrown : Text → FetchError

-- What `lastPollError` says.
pub data PollError : Type 0 where
  fetch_failed : Option FetchError → PollError
  trade_without_quantity : Option Text → TradeState → PollError
  leg_without_quantity : Option Text → Text → Text → PollError

pub record PipelineTrade : Type 0 where
  pub id : Text
  pub symbol : Text
  pub qty : Number
  pub price : Number
  pub side : Side
  pub status : TradeState
  pub source : Source
  pub timestamp : Number
  pub reasoning : Text
  pub notified_telegram : Bool
  pub exported_sheets : Bool
  pub logged_notion : Bool
  pub risk_decision : Option RiskDecision
  pub exit_plan : Option ExitPlan
  pub client_order_id : Option Text
  pub broker_order_id : Option Text
  pub broker_status : Option Text
  pub broker_leg_order_ids : Option (List Text)
  pub broker_leg_states : List (Text × TradeState)
  pub filled_qty : Option Number
  pub remaining_qty : Option Number
  pub last_poll_error : Option PollError
  pub exit_closed_broker_side : Option ExitClosed
  pub exit_plan_complete : Bool

pub data AuditType : Type 0 where
  trade_state risk broker config telegram breaker sync backup : AuditType

-- Why src/server/bracketOrders.ts gives no legs.
pub data BracketRefusal : Type 0 where
  not_a_buy entry_unusable stop_unusable take_profit_unusable : BracketRefusal
  degenerate_prices : Number → Number → Number → BracketRefusal

-- An open broker order, as src/server/startupReconciliation.ts reads it.
pub record OrphanOrder : Type 0 where
  pub id : Text
  pub client_order_id : Option Text
  pub symbol : Option Text
  pub qty : Option Text
  pub side : Option Text
  pub status : Option Text

pub data Message : Type 0 where
  -- The pipeline.
  symbol_refused no_plan_attached live_trading_blocked submission_started : Message
  risk_refused : RiskReason → Message
  broker_returned : Option Text → Option Text → Message
  broker_threw : Option Text → Message
  -- The order poller.
  partial_fill : Text → Number → Number → Number → Message
  status_polled : Text → TradeState → TradeState → Option Text → Message
  leg_exit_filled : Text → Text → Option Number → Message
  leg_state_changed : Text → Option TradeState → TradeState → Message
  synthetic_sell : Text → Number → Message
  poll_capped : ℕ → ℕ → Message
  remainder_canceled : Text → Number → Number → Message
  cancel_failed : Text → Text → Option Number → Message
  -- The placement of an order: the client order ids, and the response's code and text.
  bracket_not_used : Text → BracketRefusal → Message
  bracket_rejected : Text → Number → Text → Text → Text → Message
  plain_retry_failed : Text → Number → Text → Text → Message
  plain_retry_succeeded : Text → Text → Option Text → Message
  -- The cancellation of bracket legs before a sell.
  leg_lookup_failed : Text → Text → Message
  leg_cancel_failed : Text → Text → Option Number → Message
  leg_already_terminal : Text → Text → TradeState → Message
  -- The breaker latch.
  breaker_moved : Bool → Text → Bool → Message
  -- The reconciliation at start-up.
  startup_gave_up : ℕ → Message
  startup_complete : ℕ → ℕ → ℕ → Message
  orphan_detected : OrphanOrder → Message

pub record AuditEvent : Type 0 where
  pub id : Text
  pub timestamp : Number
  pub kind : AuditType
  pub actor : Text
  pub entity_id : Option Text
  pub from_state : Option TradeState
  pub to_state : Option TradeState
  pub message : Message
