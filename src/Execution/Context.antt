-- ===== src/Execution/Context.antt =====
-- What `executeTradeIntent` in src/server.ts reads: the configuration, the account, the store and
-- the clock. A read that throws is `none`.
use quantpaca.Base.{Bool, true, false, List, Option, if◌then◌else◌, or_else}
use quantpaca.Js.Number.{Number, nan, num}
use quantpaca.Js.Text.{Text}
use quantpaca.Js.Numeral.{number_of_text}
use quantpaca.Js.Value.{Value}
use quantpaca.Trading.Types.{BrokerConfig, TradeRequest, DoNotBuyEntry}
use quantpaca.Trading.Symbol.{validate_symbol}
use quantpaca.Trading.Pipeline.{Surroundings}
use quantpaca.Breaker.Engine.{BreakerLimits}
use quantpaca.Risk.Portfolio.{OpenOrder}
use quantpaca.Portfolio.{AlpacaAccount}
use quantpaca.Startup.{GateState}
use quantpaca.Tradability.{AssetResponse, PositiveCache}

-- The limits of `riskLimits` that the review takes.
pub record ReviewedLimits : Type 0 where
  pub max_daily_loss : Number
  pub max_daily_trade_count : Number
  pub max_open_positions : Number
  pub min_buying_power : Number

-- The row of the breaker that was saved last: its peak and its latch.
pub record PreviousBreaker : Type 0 where
  pub peak_equity : Option Number
  pub latch : Value

pub record Context : Type 0 where
  pub broker_config : BrokerConfig
  pub stop_loss_percent : Option Number
  pub target_profit_percent : Option Number
  pub symbol_cooldown_hours : Number
  pub breaker_limits : BreakerLimits
  pub baseline_equity : Option Number
  pub limits : ReviewedLimits
  pub market_known_closed : Bool
  -- `getAlpacaPortfolio` and `getAlpacaOpenOrders`.
  pub account : Option AlpacaAccount
  pub open_orders : Option (List OpenOrder)
  pub previous_breaker : Option PreviousBreaker
  -- The store: active cooldowns, the do-not-buy list, the id of the trade with a client order id.
  pub active_cooldowns : Option (List Text)
  pub active_do_not_buy : Option (List DoNotBuyEntry)
  pub existing_trade : Text → Option (Option Text)
  -- The timestamps of the trades that the application store lists.
  pub trade_timestamps : List Text
  pub gate : GateState
  pub cache : PositiveCache
  pub asset : Text → AssetResponse
  -- The clock at the chokepoint, with its ISO text.
  pub now : Number
  pub now_text : Text
  -- The clock and the ids of the pipeline, and the ids of the other audit events.
  pub around : Surroundings
  pub breaker_event_id : Text
  pub note_event_id : Text

-- `input.request.symbol = normalized || symbol`
unfoldable pub normalize_request : TradeRequest → TradeRequest
normalize_request request = record request {
  symbol = or_else (validate_symbol request.symbol).normalized request.symbol;
}

-- `Number(v)` for a field of an account: a string, a number, null or undefined.
unfoldable pub number_of : Value → Number
number_of (Value.number n) = n
number_of (Value.string s) = number_of_text s
number_of Value.null = num 0
number_of (Value.bool true) = num 1
number_of (Value.bool false) = num 0
number_of _ = nan

-- `a ?? b`
unfoldable pub nullish_or : Value → Value → Value
nullish_or Value.undefined b = b
nullish_or Value.null b = b
nullish_or a b = a

-- The equity of the day before: a simulated account without one takes its own.
unfoldable pub last_equity_of : BrokerConfig → AlpacaAccount → Value
unfolding nullish_or
last_equity_of config account =
    if config.configured then account.last_equity else nullish_or account.last_equity account.equity
