-- ===== src/Risk/Fields.antt =====
-- src/server/riskEngine.ts: the loop of `reviewRisk` that parses every number, failing closed.
use quantpaca.Base.{ℕ, Bool, true, false, List, [], ◌∷◌, Option, some, if◌then◌else◌, ◌==◌, or_else}
use quantpaca.Js.Number.{Number, nan}
use quantpaca.Js.Text.{Text, text}
use quantpaca.Js.Value.{Value}
use quantpaca.NumericSafety.{ParsedFiniteNumber, ok, failed, parse_finite_number}
use quantpaca.Trading.Types.{
  Side, buy, sell, RiskField, intent_qty, intent_notional, intent_estimated_price,
  portfolio_buying_power, metrics_daily_loss, metrics_daily_trade_count,
  metrics_open_position_count, metrics_account_equity, metrics_day_trade_count,
  limits_max_daily_loss, limits_max_daily_trade_count, limits_max_open_positions,
  limits_min_buying_power,
}
use quantpaca.Risk.Gates.{RiskInput}

-- `numericFields`
unfoldable pub numeric_fields : RiskInput → List (Value × RiskField)
numeric_fields input =
    (input.intent.qty, intent_qty)
    ∷ (input.intent.notional, intent_notional)
    ∷ (input.intent.estimated_price, intent_estimated_price)
    ∷ (input.portfolio.buying_power, portfolio_buying_power)
    ∷ (input.metrics.daily_loss, metrics_daily_loss)
    ∷ (input.metrics.daily_trade_count, metrics_daily_trade_count)
    ∷ (input.metrics.open_position_count, metrics_open_position_count)
    ∷ (input.metrics.account_equity, metrics_account_equity)
    ∷ (input.metrics.day_trade_count, metrics_day_trade_count)
    ∷ (input.limits.max_daily_loss, limits_max_daily_loss)
    ∷ (input.limits.max_daily_trade_count, limits_max_daily_trade_count)
    ∷ (input.limits.max_open_positions, limits_max_open_positions)
    ∷ (input.limits.min_buying_power, limits_min_buying_power)
    ∷ []

-- The `parsed` map, and what stopped the loop that fills it.
abbrev pub Parsed : Type 0
Parsed = RiskField → Option Number

pub data ParseOutcome : Type 0 where
  all_parsed : Parsed → ParseOutcome
  stopped_at : RiskField → ParseOutcome

abbrev pub field_index : RiskField → ℕ
field_index intent_qty = 0
field_index intent_notional = 1
field_index intent_estimated_price = 2
field_index portfolio_buying_power = 3
field_index metrics_daily_loss = 4
field_index metrics_daily_trade_count = 5
field_index metrics_open_position_count = 6
field_index metrics_account_equity = 7
field_index metrics_day_trade_count = 8
field_index limits_max_daily_loss = 9
field_index limits_max_daily_trade_count = 10
field_index limits_max_open_positions = 11
field_index limits_min_buying_power = 12

abbrev pub set_parsed : RiskField → Number → Parsed → Parsed
set_parsed f n parsed g = if field_index g == field_index f then some n else parsed g

unfoldable pub field_name : RiskField → Text
field_name intent_qty = text "intent.qty"
field_name intent_notional = text "intent.notional"
field_name intent_estimated_price = text "intent.estimatedPrice"
field_name portfolio_buying_power = text "portfolio.buyingPower"
field_name metrics_daily_loss = text "metrics.dailyLoss"
field_name metrics_daily_trade_count = text "metrics.dailyTradeCount"
field_name metrics_open_position_count = text "metrics.openPositionCount"
field_name metrics_account_equity = text "metrics.accountEquity"
field_name metrics_day_trade_count = text "metrics.dayTradeCount"
field_name limits_max_daily_loss = text "limits.maxDailyLoss"
field_name limits_max_daily_trade_count = text "limits.maxDailyTradeCount"
field_name limits_max_open_positions = text "limits.maxOpenPositions"
field_name limits_min_buying_power = text "limits.minBuyingPower"

-- The inputs that a sell does without.
unfoldable pub is_optional_for : Side → RiskField → Bool
is_optional_for buy f = false
is_optional_for sell metrics_daily_loss = true
is_optional_for sell metrics_account_equity = true
is_optional_for sell metrics_day_trade_count = true
is_optional_for sell _ = false

-- One round of the loop, with the rounds after it.
abbrev pub parse_round :
    Side → RiskField → ParsedFiniteNumber → (Parsed → ParseOutcome) → Parsed → ParseOutcome
parse_round side f (ok n) rest parsed = rest (set_parsed f n parsed)
parse_round side f (failed _) rest parsed =
    if is_optional_for side f then rest parsed else stopped_at f

unfoldable pub parse_fields : Side → List (Value × RiskField) → Parsed → ParseOutcome
parse_fields side [] parsed = all_parsed parsed
parse_fields side ((v, f) ∷ fields) parsed =
    parse_round side f (parse_finite_number v (field_name f)) (parse_fields side fields) parsed

-- `parsed.get(name)!`: comparisons treat a missing number as NaN.
abbrev pub number_at : Parsed → RiskField → Number
number_at parsed f = or_else (parsed f) nan
