-- ===== src/Tests/Store.antt =====
-- The tables and a cooldown at concrete inputs.
use quantpaca.Base.{inr, List, ◌∷◌, ◌≡◌, ◌≢◌, refl, true, false, [], some, or_else}
use quantpaca.Js.Number.{Number, num, lt, le, abs, max, is_finite}
use quantpaca.Js.Text.{text, text_eq, trim, to_upper, to_lower, includes}
use quantpaca.Trading.State.{map_broker_status_to_trade_state}
use quantpaca.Trading.Types.{PipelineTrade, buy, ExitPlan}
use quantpaca.Trading.Symbol.{validate_symbol, is_ticker}
use quantpaca.Execution.Context.{Context, normalize_request, last_equity_of, number_of}
use quantpaca.Execution.Run.{
  StoreEffect, save_cooldown, Execution, is_broker_reached, execute_trade_intent,
}
use quantpaca.Execution.Decision.{
  plan_for, decide, gate_of, risk_input, latched_breaker, daily_loss, daily_trade_count,
  cooldown_symbols, find_entry,
}
use quantpaca.Exits.{create_exit_plan, iso_time}
use quantpaca.Trading.Pipeline.{submit_trade_through_pipeline}
use quantpaca.Risk.Engine.{review_risk, pdt_equity_min, pdt_max_day_trades}
use quantpaca.Breaker.Engine.{evaluate_breaker}
use quantpaca.Breaker.Latch.{apply_breaker_latch, apply_prior}
use quantpaca.NumericSafety.{parse_finite_number}
use quantpaca.Startup.{buy_gate_rejection_reason}
use quantpaca.Orders.{place_alpaca_order}
use quantpaca.Portfolio.{assess_portfolio, to_number}
use quantpaca.Js.Numeral.{number_of_text}
use quantpaca.Js.Arith.{add, mul, sub, div, floor}
use quantpaca.Store.{
  Store, list_active_cooldown_symbols, apply_effects, put_exit_plan, update_high_water_mark,
}
use quantpaca.Store.Lasting.{Spared, apply_runs}
use quantpaca.Store.Cooldowns.{expires, cooldown_blocks}
use quantpaca.Tests.Trading.{show, hash, plan}
use quantpaca.Tests.Poller.{entry_trade}
use quantpaca.Tests.Orders.{no_brackets, lost}
use quantpaca.Tests.Risk.{paper_broker}
use quantpaca.Tests.Execution.{ctx, request}

abbrev dry : Context
dry = record ctx { broker_config = record paper_broker { configured = false } }

abbrev dry_run : Execution
dry_run = execute_trade_intent hash show show no_brackets lost dry (request buy)

abbrev bought_trade : PipelineTrade
bought_trade = or_else dry_run.trade entry_trade

dry_bought : dry_run.trade ≡ some bought_trade
unfolding execute_trade_intent plan_for create_exit_plan is_finite add num mul le abs
dry_bought = refl

dry_reached : is_broker_reached bought_trade.status ≡ true
unfolding execute_trade_intent plan_for create_exit_plan is_finite add num mul le abs
    is_broker_reached submit_trade_through_pipeline validate_symbol is_ticker to_upper trim text
    text_eq decide gate_of review_risk risk_input latched_breaker evaluate_breaker
    apply_breaker_latch number_of_text sub includes parse_finite_number pdt_equity_min
    pdt_max_day_trades buy_gate_rejection_reason place_alpaca_order lt to_lower
    map_broker_status_to_trade_state assess_portfolio daily_loss daily_trade_count cooldown_symbols
    last_equity_of number_of to_number find_entry apply_prior div max
dry_reached = refl

abbrev day_later : Number
day_later = num 1650086400000

cooldown_day : expires dry ≡ some day_later
unfolding iso_time add num mul le abs is_finite lt floor
cooldown_day = refl

same_symbol : (normalize_request (request buy)).symbol ≡ bought_trade.symbol
unfolding execute_trade_intent plan_for create_exit_plan is_finite add num mul le abs
    is_broker_reached submit_trade_through_pipeline validate_symbol is_ticker to_upper trim text
    text_eq decide gate_of review_risk risk_input latched_breaker evaluate_breaker
    apply_breaker_latch number_of_text sub includes parse_finite_number pdt_equity_min
    pdt_max_day_trades buy_gate_rejection_reason place_alpaca_order lt to_lower
    map_broker_status_to_trade_state assess_portfolio daily_loss daily_trade_count cooldown_symbols
    last_equity_of number_of to_number find_entry apply_prior div max normalize_request
same_symbol = refl

abbrev empty_store : Store
empty_store = record { trade_intents = []; exit_plans = []; symbol_cooldowns = []; do_not_buy = [] }

-- Half an hour later another symbol is sold.
abbrev between : List (Number × List StoreEffect)
between = (num 1650001800000, save_cooldown (text "AMD") day_later ∷ []) ∷ []

-- An hour later.
abbrev next : Context
next = record ctx {
  now = num 1650003600000;
  active_cooldowns = some (
      list_active_cooldown_symbols (num 1650003600000)
        (apply_runs between (apply_effects dry.now dry_run.effects empty_store)));
}

between-Spared : Spared bought_trade.symbol (num 1650003600000) between
unfolding le lt num
between-Spared = (refl, (inr refl, tt), tt)

hours_on : lt (num 0) (num 24) ≡ true
unfolding lt num
hours_on = refl

early : lt (num 1650003600000) day_later ≡ true
unfolding lt num
early = refl

cooldown_blocks_example :
    ¬ ((execute_trade_intent hash show show no_brackets lost next (request buy)).posts ≢ [])
cooldown_blocks_example =
    cooldown_blocks hash show show no_brackets lost dry (request buy) bought_trade day_later
      empty_store between next (request buy) dry_bought dry_reached hours_on cooldown_day
      between-Spared refl same_symbol early hours_on refl

-- The store after a ratchet of the trade's mark.
abbrev ratcheted : Store
ratcheted =
    update_high_water_mark bought_trade.id (num 120)
      (put_exit_plan (num 1) bought_trade.id plan empty_store)

abbrev made_plan : ExitPlan
made_plan = or_else bought_trade.exit_plan plan
