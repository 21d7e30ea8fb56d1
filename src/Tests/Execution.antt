-- ===== src/Tests/Execution.antt =====
-- The execution of a trade at concrete inputs.
use quantpaca.Base.{◌≡◌, ◌≢◌, ◌↔◌, true, false, [], ◌∷◌, some, none}
use quantpaca.Js.Number.{num}
use quantpaca.Js.Text.{Text, text}
use quantpaca.Js.Value.{Value}
use quantpaca.Trading.Types.{Side, buy, TradeRequest, approved, automation}
use quantpaca.Breaker.Engine.{BreakerState, no_metrics}
use quantpaca.Risk.Portfolio.{ok as untripped}
use quantpaca.Risk.Approval.{IsCleared}
use quantpaca.Portfolio.{AlpacaAccount}
use quantpaca.Tradability.{AssetResponse, asset_threw}
use quantpaca.Execution.Context.{Context, normalize_request}
use quantpaca.Execution.Decision.{decide, risk_input}
use quantpaca.Execution.Decision.Gates.{IsBuyable, decide_iff}
use quantpaca.Execution.Run.{execute_trade_intent}
use quantpaca.Execution.Run.Sent.{IsExecutable, execute_iff}
use quantpaca.Tests.Trading.{plan, show, hash, around}
use quantpaca.Tests.Risk.{paper_broker}
use quantpaca.Tests.Orders.{no_brackets, lost}

abbrev pub account : AlpacaAccount
account = record {
  cash = Value.string (text "5000");
  buying_power = Value.string (text "5000");
  portfolio_value = Value.string (text "30000");
  equity = Value.string (text "30000");
  last_equity = Value.string (text "30000");
  long_market_value = Value.string (text "0");
  daytrade_count = Value.number (num 0);
  positions = [];
}

abbrev offline : Text → AssetResponse
offline symbol = asset_threw (text "timeout")

abbrev pub ctx : Context
ctx = record {
  broker_config = paper_broker;
  stop_loss_percent = some (num 5);
  target_profit_percent = some (num 15);
  symbol_cooldown_hours = num 24;
  breaker_limits = record {
    max_daily_loss_percent = num 3;
    max_drawdown_from_peak_percent = num 10;
    max_drawdown_from_baseline_percent = num 15;
  };
  baseline_equity = none;
  limits = record {
    max_daily_loss = num 500;
    max_daily_trade_count = num 10;
    max_open_positions = num 10;
    min_buying_power = num 100;
  };
  market_known_closed = false;
  account = some account;
  open_orders = some [];
  previous_breaker = none;
  active_cooldowns = some [];
  active_do_not_buy = some [];
  existing_trade = λ _. some none;
  trade_timestamps = [];
  gate = record { trading_ready = true; orphan_orders = [] };
  cache = (text "NVDA", num 1650000000000) ∷ [];
  asset = offline;
  now = num 1650000000000;
  now_text = text "2022-04-15T05:20:00.000Z";
  around = around;
  breaker_event_id = text "ae-2";
  note_event_id = text "ae-3";
}

abbrev pub request : Side → TradeRequest
request side = record {
  source = automation;
  symbol = text "nvda";
  side = side;
  qty = num 3;
  estimated_price = num 100;
  reasoning = text "thesis";
  actor = none;
  cross_source_conflict = false;
}

abbrev calm : BreakerState
calm = record {
  status = untripped;
  reasons = [];
  as_of = text "now";
  peak_equity = some (num 30000);
  metrics = no_metrics;
}

execute_iff_example :
    ((execute_trade_intent hash show show no_brackets lost ctx (request buy)).posts ≢ [])
    ↔ IsExecutable hash show show no_brackets lost ctx (normalize_request (request buy))
execute_iff_example = execute_iff hash show show no_brackets lost ctx (request buy)

decide_iff_example : ((decide ctx account [] calm plan (request buy)).status ≡ approved) ↔ (
    (buy ≡ buy → IsBuyable ctx (request buy))
    × IsCleared (risk_input ctx account [] calm plan (request buy)))
decide_iff_example = decide_iff ctx account [] calm plan (request buy)
