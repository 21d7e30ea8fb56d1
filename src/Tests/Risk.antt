-- ===== src/Tests/Risk.antt =====
-- The risk review at concrete inputs.
use quantpaca.Base.{ℕ, ◌≡◌, ◌↔◌, refl, inl, true, false, [], ◌∷◌, none, some}
use quantpaca.Js.Number.{num, lt, le, abs, is_finite}
use quantpaca.Js.Arith.{sub}
use quantpaca.Js.Text.{text, text_eq, to_upper, trim, includes}
use quantpaca.Js.Numeral.{number_of_text}
use quantpaca.Js.Value.{Value}
use quantpaca.Trading.Types.{
  Side, buy, sell, BrokerConfig, paper, RiskField, approved, rejected, intent_qty,
  metrics_daily_loss, metrics_account_equity, metrics_day_trade_count,
}
use quantpaca.Trading.Symbol.{validate_symbol, is_ticker}
use quantpaca.Risk.Portfolio.{ok as untripped}
use quantpaca.Risk.Gates.{RiskInput, has_position, evaluate_sell_fatal_risk_gates}
use quantpaca.Risk.Fields.{is_optional_for}
use quantpaca.Risk.Engine.{review_risk, pdt_equity_min, pdt_max_day_trades}
use quantpaca.NumericSafety.{numeric_value, parse_finite_number}
use quantpaca.Risk.Numbers.{amount}
use quantpaca.Risk.Approval.{IsCleared, approved_iff_IsCleared}
use quantpaca.Risk.Sells.{preflight_input, IsSellable, Agrees, preflight-Agrees}
use quantpaca.Tests.Trading.{plan}

abbrev value : ℕ → Value
value n = Value.number (num n)

abbrev pub paper_broker : BrokerConfig
paper_broker = record {
  configured = true;
  trading_mode = paper;
  live_trading_enabled = false;
  base_url = [];
  api_key = none;
  secret_key = none;
}

abbrev trade_input : Side → Value → RiskInput
trade_input side loss = record {
  intent = record {
    symbol = text "NVDA";
    side = side;
    qty = value 3;
    notional = value 300;
    estimated_price = value 100;
  };
  broker_config = paper_broker;
  portfolio = record {
    buying_power = value 5000;
    positions = record { symbol = text "NVDA"; qty = text "3"; market_value = text "300" } ∷ [];
    open_orders = [];
  };
  exit_plan = some plan;
  breaker_status = untripped;
  metrics = record {
    daily_loss = loss;
    daily_trade_count = value 1;
    open_position_count = value 1;
    account_equity = Value.string (text "30000");
    day_trade_count = value 0;
  };
  limits = record {
    max_daily_loss = value 500;
    max_daily_trade_count = value 10;
    max_open_positions = value 10;
    min_buying_power = value 100;
    cooldown_symbols = none;
    cross_source_conflict_symbols = some (text "TSLA" ∷ []);
  };
}

buy_approved : (review_risk (trade_input buy (value 0))).status ≡ approved
unfolding review_risk validate_symbol is_ticker text text_eq trim to_upper number_of_text sub num
    includes parse_finite_number pdt_equity_min pdt_max_day_trades is_finite le abs
buy_approved = refl

-- A buy whose daily loss is unknown is rejected; a sell is not.
unknown_loss_rejects : (review_risk (trade_input buy Value.null)).status ≡ rejected
unfolding review_risk validate_symbol is_ticker text text_eq trim to_upper number_of_text sub num
    includes parse_finite_number pdt_equity_min pdt_max_day_trades is_finite le abs
unknown_loss_rejects = refl

approved_iff_IsCleared_example :
    ((review_risk (trade_input buy (value 0))).status ≡ approved)
    ↔ IsCleared (trade_input buy (value 0))
approved_iff_IsCleared_example = approved_iff_IsCleared (trade_input buy (value 0))

abbrev sale : RiskInput
sale = trade_input sell Value.null

sale_numbers : (f : RiskField) → is_optional_for sell f ≡ false → is_finite (amount sale f) ≡ true
unfolding is_optional_for num is_finite numeric_value
sale_numbers intent_qty h = refl
sale_numbers metrics_daily_loss h = cc
sale_numbers metrics_account_equity h = cc
sale_numbers metrics_day_trade_count h = cc
sale_numbers _ h = refl

sale-IsSellable : IsSellable sale
unfolding num numeric_value validate_symbol is_ticker text text_eq trim to_upper number_of_text
    has_position lt
sale-IsSellable = record {
  sold = refl;
  numbers = sale_numbers;
  symbol_valid = refl;
  mode_open = inl refl;
  planned = refl;
  quantity = refl;
  worth = refl;
  held = refl;
}

preflight-Agrees_example :
    Agrees (evaluate_sell_fatal_risk_gates (preflight_input sale)) (review_risk sale)
preflight-Agrees_example = preflight-Agrees sale sale-IsSellable
