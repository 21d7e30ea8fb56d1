-- ===== src/Execution/Decision.antt =====
-- `executeTradeIntent` in src/server.ts up to the risk decision: the breaker, the gates that only a
-- buy meets, and the review.
use quantpaca.Base.{
  Bool, true, false, not, ◌&&◌, List, [], ◌∷◌, Option, none, some, if◌then◌else◌, or_else, keep,
  length,
}
use quantpaca.Js.Number.{Number, nan, num, lt}
use quantpaca.Js.Arith.{sub, mul}
use quantpaca.Js.Text.{Text, text_eq, starts_with}
use quantpaca.Js.Value.{Value}
use quantpaca.Trading.Types.{
  Side, buy, sell, ExitPlan, TradeRequest, RiskDecision, rejected, blocked_by, BuyGate,
  market_closed, cooldown_unreadable, do_not_buy_unreadable, do_not_buy, not_tradable,
  DoNotBuyEntry,
}
use quantpaca.Trading.OrderId.{iso_day}
use quantpaca.Breaker.Engine.{BreakerState, evaluate_breaker}
use quantpaca.Breaker.Latch.{ApplyLatchResult, apply_breaker_latch}
use quantpaca.Breaker.Trips.{peak_value}
use quantpaca.Exits.{create_exit_plan}
use quantpaca.Risk.Portfolio.{OpenOrder}
use quantpaca.Risk.Gates.{RiskInput, is_buy}
use quantpaca.Risk.Engine.{decide_with, review_risk}
use quantpaca.Portfolio.{
  AlpacaAccount, PortfolioAssessment, alpaca, local_simulated_snapshot, assess_portfolio,
}
use quantpaca.Startup.{buy_gate_rejection_reason}
use quantpaca.Tradability.{TradabilityCheckResult, PositiveCache, check_asset_tradable}
use quantpaca.Execution.Context.{Context, PreviousBreaker, number_of, last_equity_of}
pub mod Gates

peak_before : Option PreviousBreaker → Value
peak_before none = Value.null
peak_before (some previous) = peak_value previous.peak_equity

unfoldable pub latch_before : Option PreviousBreaker → Value
latch_before none = Value.undefined
latch_before (some previous) = previous.latch

module _ (fixed2 : Number → Text) (show_number : Number → Text) where
  unfoldable pub evaluate_fresh_breaker : Context → AlpacaAccount → BreakerState
  unfolding peak_before
  evaluate_fresh_breaker ctx account =
      evaluate_breaker fixed2 show_number
        (record {
          equity = account.equity;
          last_equity = last_equity_of ctx.broker_config account;
          previous_peak_equity = peak_before ctx.previous_breaker;
          baseline_equity = ctx.baseline_equity;
          limits = ctx.breaker_limits;
        })
        ctx.now_text

  -- The breaker that the trade is reviewed with, its latch and what moved.
  unfoldable pub latched_breaker : Context → AlpacaAccount → ApplyLatchResult
  unfolding evaluate_fresh_breaker latch_before
  latched_breaker ctx account =
      apply_breaker_latch (evaluate_fresh_breaker ctx account) (latch_before ctx.previous_breaker)

-- The exit plan of the request; `none` where it throws.
unfoldable pub plan_for : Context → TradeRequest → Option ExitPlan
plan_for ctx request =
    create_exit_plan
      (record {
        symbol = request.symbol;
        side = request.side;
        entry_price = request.estimated_price;
        stop_loss_percent = ctx.stop_loss_percent;
        take_profit_percent = ctx.target_profit_percent;
        max_hold_days = none;
        trailing_stop_percent = none;
      })
      ctx.now

-- `symbolCooldownHours > 0`, for a buy.
abbrev pub cools : Context → Side → Bool
cools ctx side = is_buy side && lt (num 0) ctx.symbol_cooldown_hours

cooldown_gate : Context → Side → Option BuyGate
cooldown_gate ctx side = elim ctx.active_cooldowns [
  | none ↦ if cools ctx side then some cooldown_unreadable else none
  | some symbols ↦ none
]

-- The symbols in cooldown that the review is given.
unfoldable pub cooldown_symbols : Context → Side → List Text
cooldown_symbols ctx side = if cools ctx side then or_else ctx.active_cooldowns [] else []

-- `list.find((e) => e.symbol === symbol)`
unfoldable pub find_entry : Text → List DoNotBuyEntry → Option DoNotBuyEntry
find_entry symbol [] = none
find_entry symbol (e ∷ es) = if text_eq e.symbol symbol then some e else find_entry symbol es

listed_gate : Option DoNotBuyEntry → Option BuyGate
listed_gate none = none
listed_gate (some entry) = some (do_not_buy entry)

do_not_buy_gate : Context → TradeRequest → Option BuyGate
unfolding find_entry listed_gate
do_not_buy_gate ctx request =
    if is_buy request.side
    then elim ctx.active_do_not_buy [
      | none ↦ some do_not_buy_unreadable
      | some entries ↦ listed_gate (find_entry request.symbol entries)
    ]
    else none

tradability_gate : TradabilityCheckResult → Option BuyGate
tradability_gate result = if result.tradable then none else some (not_tradable result.reason)

-- The first of two gates that stops.
abbrev pub or_gate : Option BuyGate → Option BuyGate → Option BuyGate
or_gate (some gate) later = some gate
or_gate none later = later

-- The gates of the store, the cooldowns first.
store_gates : Context → TradeRequest → Option BuyGate
unfolding cooldown_gate do_not_buy_gate
store_gates ctx request = or_gate (cooldown_gate ctx request.side) (do_not_buy_gate ctx request)

guarded :
    Context → TradeRequest → TradabilityCheckResult × PositiveCache → Option BuyGate × PositiveCache
unfolding tradability_gate store_gates
guarded ctx request (result, cache) =
    (or_gate (tradability_gate result) (store_gates ctx request), cache)

-- The gate that stops the request before the review, and the cache of the guard after it. The
-- broker is asked about the asset only where no gate before has stopped the buy.
unfoldable pub gate_of : Context → TradeRequest → Option BuyGate × PositiveCache
unfolding guarded store_gates
gate_of ctx request = elim (buy_gate_rejection_reason request.side ctx.gate) [
  | some gate ↦ (some gate, ctx.cache)
  | none ↦
      if ctx.market_known_closed && is_buy request.side
      then (some market_closed, ctx.cache)
      else if is_buy request.side && ctx.broker_config.configured
      then guarded ctx request (check_asset_tradable request.symbol ctx.now ctx.asset ctx.cache)
      else (store_gates ctx request, ctx.cache)
]

-- The trades of the day of `now`, by the front of their timestamps.
unfoldable pub daily_trade_count : Context → Number
daily_trade_count ctx =
    num (length (keep (λ t. starts_with t (iso_day ctx.now)) ctx.trade_timestamps))

-- `metrics.dailyLoss`
unfoldable pub daily_loss : Context → AlpacaAccount → BreakerState → Number
daily_loss ctx account breaker = elim breaker.metrics.equity [
  | none ↦ nan
  | some equity ↦ sub equity (number_of (last_equity_of ctx.broker_config account))
]

unfoldable pub assessment_of : Context → AlpacaAccount → List OpenOrder → PortfolioAssessment
assessment_of ctx account orders =
    assess_portfolio account orders
      (if ctx.broker_config.configured then alpaca else local_simulated_snapshot)

unfoldable pub risk_input :
    Context → AlpacaAccount → List OpenOrder → BreakerState → ExitPlan → TradeRequest → RiskInput
unfolding assessment_of
risk_input ctx account orders breaker plan request =
    let portfolio = assessment_of ctx account orders in
    record {
      intent = record {
        symbol = request.symbol;
        side = request.side;
        qty = Value.number request.qty;
        notional = Value.number (mul request.qty request.estimated_price);
        estimated_price = Value.number request.estimated_price;
      };
      broker_config = ctx.broker_config;
      portfolio = record {
        buying_power = Value.number portfolio.buying_power;
        positions = portfolio.positions;
        open_orders = portfolio.open_orders;
      };
      exit_plan = some plan;
      breaker_status = breaker.status;
      metrics = record {
        daily_loss = Value.number (daily_loss ctx account breaker);
        daily_trade_count = Value.number (daily_trade_count ctx);
        open_position_count = Value.number (num (length portfolio.positions));
        account_equity = account.equity;
        day_trade_count = account.daytrade_count;
      };
      limits = record {
        max_daily_loss = Value.number ctx.limits.max_daily_loss;
        max_daily_trade_count = Value.number ctx.limits.max_daily_trade_count;
        max_open_positions = Value.number ctx.limits.max_open_positions;
        min_buying_power = Value.number ctx.limits.min_buying_power;
        cooldown_symbols = some (cooldown_symbols ctx request.side);
        cross_source_conflict_symbols = some (
            if is_buy request.side && request.cross_source_conflict
            then request.symbol ∷ []
            else []);
      };
    }

unfoldable pub decide :
    Context → AlpacaAccount → List OpenOrder → BreakerState → ExitPlan → TradeRequest → RiskDecision
decide ctx account orders breaker plan request = elim (gate_of ctx request).0 [
  | some gate ↦ decide_with rejected (blocked_by gate)
  | none ↦ review_risk (risk_input ctx account orders breaker plan request)
]
