-- ===== src/Risk/Engine.antt =====
-- src/server/riskEngine.ts, `reviewRisk`: the one gate that every trade passes.
use quantpaca.Base.{Bool, true, false, not, ◌&&◌, ◌||◌, none, some, if◌then◌else◌, is_some}
use quantpaca.Js.Number.{Number, num, lt, le}
use quantpaca.Trading.Types.{
  RiskDecision, RiskStatus, approved, rejected, requires_human_approval, RiskReason, not_finite,
  breaker_tripped, invalid_symbol, live_blocked, no_exit_plan, no_quantity, pdt_guard,
  max_open_positions, duplicate_open_order, symbol_cooldown, cross_source_conflict, passed,
  intent_qty, intent_notional, portfolio_buying_power, metrics_daily_loss,
  metrics_daily_trade_count, metrics_open_position_count, metrics_account_equity,
  metrics_day_trade_count, limits_max_daily_loss, limits_max_daily_trade_count,
  limits_max_open_positions, limits_min_buying_power,
}
use quantpaca.Trading.Symbol.{validate_symbol}
use quantpaca.Trading.Pipeline.{is_live}
use quantpaca.Risk.Portfolio.{BreakerStatus, ok as untripped}
use quantpaca.Risk.Gates.{
  RiskInput, check_daily_loss_gate, check_daily_trade_count_gate, check_buying_power_gate,
  first_of_two, has_position, has_open_duplicate, lists, is_buy,
}
use quantpaca.Risk.Fields.{
  Parsed, ParseOutcome, all_parsed, stopped_at, parse_fields, numeric_fields, number_at,
  is_optional_for,
}

-- $25,000 and three day trades.
unfoldable pub pdt_equity_min : Number
unfolding num
pdt_equity_min = num 25000

unfoldable pub pdt_max_day_trades : Number
unfolding num
pdt_max_day_trades = num 3

abbrev pub decide_with : RiskStatus → RiskReason → RiskDecision
decide_with status reason = record { status = status; reason = reason; adjusted_qty = none }

-- The review from the buying-power reserve on.
unfoldable pub review_orders : RiskInput → Parsed → RiskDecision
unfolding check_buying_power_gate has_open_duplicate lists
review_orders input parsed =
    elim (check_buying_power_gate (number_at parsed portfolio_buying_power)
      (number_at parsed intent_notional) (number_at parsed limits_min_buying_power)) [
        | some reason ↦ decide_with rejected reason
        | none ↦
            if has_open_duplicate input.portfolio input.intent
            then decide_with rejected duplicate_open_order
            else if lists input.limits.cooldown_symbols input.intent.symbol
            then decide_with requires_human_approval symbol_cooldown
            else if lists input.limits.cross_source_conflict_symbols input.intent.symbol
            then decide_with requires_human_approval cross_source_conflict
            else decide_with approved passed
      ]

-- The review from the daily limits on.
unfoldable pub review_limits : RiskInput → Parsed → RiskDecision
unfolding check_daily_loss_gate check_daily_trade_count_gate pdt_equity_min pdt_max_day_trades
    has_position review_orders
review_limits input parsed =
    elim (first_of_two
      (check_daily_loss_gate (parsed metrics_daily_loss) (number_at parsed limits_max_daily_loss))
      (check_daily_trade_count_gate (number_at parsed metrics_daily_trade_count)
        (number_at parsed limits_max_daily_trade_count))) [
          | some reason ↦ decide_with rejected reason
          | none ↦
              if is_buy input.intent.side
                && (lt (number_at parsed metrics_account_equity) pdt_equity_min
                    && le pdt_max_day_trades (number_at parsed metrics_day_trade_count))
              then decide_with rejected (pdt_guard (number_at parsed metrics_day_trade_count))
              else if le (number_at parsed limits_max_open_positions)
                    (number_at parsed metrics_open_position_count)
                  && not (has_position input.portfolio input.intent.symbol)
              then decide_with rejected max_open_positions
              else review_orders input parsed
        ]

abbrev pub is_tripped : BreakerStatus → Bool
is_tripped untripped = false
is_tripped _ = true

-- The review once every number has been parsed.
unfoldable pub review_parsed : RiskInput → Parsed → RiskDecision
unfolding review_limits
review_parsed input parsed =
    if is_buy input.intent.side && is_tripped input.breaker_status
    then decide_with rejected breaker_tripped
    else if not (validate_symbol input.intent.symbol).valid
    then decide_with rejected invalid_symbol
    else if is_live input.broker_config.trading_mode && not input.broker_config.live_trading_enabled
    then decide_with rejected live_blocked
    else if not (is_some input.exit_plan)
    then decide_with rejected no_exit_plan
    else if le (number_at parsed intent_qty) (num 0)
        || le (number_at parsed intent_notional) (num 0)
    then decide_with rejected no_quantity
    else review_limits input parsed

unfoldable pub review_outcome : RiskInput → ParseOutcome → RiskDecision
unfolding review_parsed
review_outcome input (stopped_at f) = decide_with rejected (not_finite f)
review_outcome input (all_parsed parsed) = review_parsed input parsed

unfoldable pub review_risk : RiskInput → RiskDecision
unfolding numeric_fields parse_fields is_optional_for review_outcome
review_risk input =
    review_outcome input (parse_fields input.intent.side (numeric_fields input) (λ _. none))
