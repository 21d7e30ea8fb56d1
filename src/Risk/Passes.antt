-- ===== src/Risk/Passes.antt =====
-- The tests of src/server/riskEngine.ts that a trade passes once its numbers are parsed.
use quantpaca.Base.{◌≡◌, true, false, not, ◌&&◌, none, arith, is_some}
use quantpaca.Js.Number.{num, lt, le}
use quantpaca.Js.Arith.{sub}
use quantpaca.Trading.Types.{
  approved, intent_qty, intent_notional, portfolio_buying_power, metrics_daily_loss,
  metrics_daily_trade_count, metrics_open_position_count, metrics_account_equity,
  metrics_day_trade_count, limits_max_daily_loss, limits_max_daily_trade_count,
  limits_max_open_positions, limits_min_buying_power,
}
use quantpaca.Trading.Pipeline.{is_live}
use quantpaca.Trading.Symbol.{validate_symbol}
use quantpaca.Risk.Gates.{
  RiskInput, has_position, has_open_duplicate, lists, is_buy, check_daily_loss_gate,
  check_daily_trade_count_gate, check_buying_power_gate,
}
use quantpaca.Risk.Fields.{Parsed, number_at}
use quantpaca.Risk.Engine.{pdt_equity_min, pdt_max_day_trades, review_parsed, is_tripped}

-- The tests of the code that a full map passes.
pub record Passes (input : RiskInput) (p : Parsed) : Type 0 where
  pub breaker_test : (is_buy input.intent.side && is_tripped input.breaker_status) ≡ false
  pub symbol_test : (validate_symbol input.intent.symbol).valid ≡ true
  pub mode_test :
      (is_live input.broker_config.trading_mode && not input.broker_config.live_trading_enabled)
      ≡ false
  pub plan_test : is_some input.exit_plan ≡ true
  pub qty_test : le (number_at p intent_qty) (num 0) ≡ false
  pub notional_test : le (number_at p intent_notional) (num 0) ≡ false
  pub loss_test :
      check_daily_loss_gate (p metrics_daily_loss) (number_at p limits_max_daily_loss) ≡ none
  pub trades_test :
      le (number_at p limits_max_daily_trade_count) (number_at p metrics_daily_trade_count) ≡ false
  pub pdt_test :
      (is_buy input.intent.side
        && (lt (number_at p metrics_account_equity) pdt_equity_min
            && le pdt_max_day_trades (number_at p metrics_day_trade_count)))
      ≡ false
  pub room_test :
      (le (number_at p limits_max_open_positions) (number_at p metrics_open_position_count)
        && not (has_position input.portfolio input.intent.symbol))
      ≡ false
  pub reserve_test :
      lt
        (sub (number_at p portfolio_buying_power) (number_at p intent_notional))
        (number_at p limits_min_buying_power)
      ≡ false
  pub duplicate_test : has_open_duplicate input.portfolio input.intent ≡ false
  pub cooldown_test : lists input.limits.cooldown_symbols input.intent.symbol ≡ false
  pub conflict_test : lists input.limits.cross_source_conflict_symbols input.intent.symbol ≡ false

pub approved-Passes :
    (input : RiskInput) (p : Parsed) → (review_parsed input p).status ≡ approved → Passes input p
unfolding review_parsed check_daily_loss_gate check_daily_trade_count_gate check_buying_power_gate
approved-Passes input p h = ground arith

pub Passes-approved :
    (input : RiskInput) (p : Parsed) → Passes input p → (review_parsed input p).status ≡ approved
unfolding review_parsed check_daily_loss_gate check_daily_trade_count_gate check_buying_power_gate
Passes-approved input p h = ground arith
