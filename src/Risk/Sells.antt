-- ===== src/Risk/Sells.antt =====
-- What the review does for a sell: the preflight gates ask the same question, and the guards
-- against new risk do not apply.
use quantpaca.Base.{
  ◌≡◌, ◌≢◌, sym, ◌∙◌, ◌⊎◌, ◌↔◌, inl, true, false, Option, none, some, arith, is_some,
}
use mathlib.Core.Bool.{false≢true}
use quantpaca.Js.Number.{num, lt, is_finite}
use quantpaca.Js.Value.{Value}
use quantpaca.Trading.Types.{
  sell, paper, RiskDecision, RiskReason, rejected, approved, max_daily_loss, max_daily_trade_count,
  insufficient_buying_power, RiskField, intent_qty, intent_notional, portfolio_buying_power,
  metrics_daily_loss, metrics_daily_trade_count, limits_max_daily_loss,
  limits_max_daily_trade_count, limits_min_buying_power, metrics_account_equity,
  metrics_day_trade_count,
}
use quantpaca.Trading.Symbol.{validate_symbol}
use quantpaca.Risk.Portfolio.{BreakerStatus}
use quantpaca.Risk.Gates.{
  RiskInput, has_position, SellFatalGateInput, evaluate_sell_fatal_risk_gates,
}
use quantpaca.Risk.Fields.{Parsed, is_optional_for}
use quantpaca.Risk.Engine.{review_parsed, review_risk, decide_with}
use quantpaca.Risk.Numbers.{
  amount, finite_only, Reads, Reviewed, refused, decided, review_risk-Reviewed,
}
use quantpaca.Risk.Readings.{at, le-zero_at, always_needed}
use quantpaca.Risk.Approval.{IsCleared, approved_iff_IsCleared}

-- The input of the preflight, from the same numbers.
abbrev pub preflight_input : RiskInput → SellFatalGateInput
preflight_input input = record {
  daily_loss = finite_only (amount input metrics_daily_loss);
  daily_trade_count = amount input metrics_daily_trade_count;
  buying_power = amount input portfolio_buying_power;
  notional = amount input intent_notional;
  max_daily_loss = amount input limits_max_daily_loss;
  max_daily_trade_count = amount input limits_max_daily_trade_count;
  min_buying_power = amount input limits_min_buying_power;
}

-- A sell of a held position that only the three gates, and what comes after them, can stop.
pub record IsSellable (input : RiskInput) : Type 0 where
  pub sold : input.intent.side ≡ sell
  pub numbers : (f : RiskField) → is_optional_for sell f ≡ false → is_finite (amount input f) ≡ true
  pub symbol_valid : (validate_symbol input.intent.symbol).valid ≡ true
  pub mode_open :
      (input.broker_config.trading_mode ≡ paper) ⊎ (input.broker_config.live_trading_enabled ≡ true)
  pub planned : is_some input.exit_plan ≡ true
  pub quantity : lt (num 0) (amount input intent_qty) ≡ true
  pub worth : lt (num 0) (amount input intent_notional) ≡ true
  pub held : has_position input.portfolio input.intent.symbol ≡ true

-- The decision shows the preflight's answer.
abbrev pub Agrees : Option RiskReason → RiskDecision → Type 0
Agrees (some r) d = d ≡ decide_with rejected r
Agrees none d =
    (d.reason ≢ max_daily_loss)
    × (d.reason ≢ max_daily_trade_count)
    × (d.reason ≢ insufficient_buying_power)

Agrees-review_parsed :
    (input : RiskInput) (p : Parsed)
    → Reads input p
    → IsSellable input
    → Agrees (evaluate_sell_fatal_risk_gates (preflight_input input)) (review_parsed input p)
unfolding review_parsed evaluate_sell_fatal_risk_gates
Agrees-review_parsed input p r h =
    let needed = always_needed input.intent.side in
    ground (
      arith,
      r.holds metrics_daily_loss,
      at input p r metrics_daily_trade_count needed.3,
      at input p r portfolio_buying_power needed.2,
      at input p r intent_notional needed.1,
      at input p r limits_max_daily_loss needed.5,
      at input p r limits_max_daily_trade_count needed.6,
      at input p r limits_min_buying_power needed.8,
      le-zero_at input p r intent_qty needed.0,
      le-zero_at input p r intent_notional needed.1,
    )

-- For a sell of a held position with its numbers in order, the review rejects with the preflight's
-- reason if the preflight rejects, and for none of its three reasons if it does not.
pub preflight-Agrees :
    (input : RiskInput)
    → IsSellable input
    → Agrees (evaluate_sell_fatal_risk_gates (preflight_input input)) (review_risk input)
preflight-Agrees input h = go (review_risk input) (review_risk-Reviewed input)
  where
    go :
        (d : RiskDecision)
        → Reviewed input d
        → Agrees (evaluate_sell_fatal_risk_gates (preflight_input input)) d
    go _ (refused f needed bad) = absurd (false≢true (sym bad ∙ h.numbers f (rw h.sold at needed)))
    go _ (decided p r) = Agrees-review_parsed input p r h

-- A change of what only guards against new risk: the breaker, the equity and the day trades.
abbrev pub with_guards : BreakerStatus → Value → Value → RiskInput → RiskInput
with_guards breaker equity day_trades input = record input {
  breaker_status = breaker;
  metrics = record (input.metrics) { account_equity = equity; day_trade_count = day_trades };
}

numbers-with_guards :
    (breaker : BreakerStatus) (equity day_trades : Value) (input : RiskInput) (f : RiskField)
    → input.intent.side ≡ sell
    → IsCleared input
    → is_optional_for input.intent.side f ≡ false
    → is_finite (amount (with_guards breaker equity day_trades input) f) ≡ true
unfolding is_optional_for
numbers-with_guards b e t input metrics_account_equity s c k = absurd (false≢true (sym (rw s at k)))
numbers-with_guards b e t input metrics_day_trade_count s c k =
    absurd (false≢true (sym (rw s at k)))
numbers-with_guards b e t input f s c k = c.numbers f k

sell-with_guards :
    (breaker : BreakerStatus) (equity day_trades : Value) (input : RiskInput)
    → input.intent.side ≡ sell
    → IsCleared input
    → IsCleared (with_guards breaker equity day_trades input)
sell-with_guards breaker equity day_trades input s c = record {
  numbers = λ f k. numbers-with_guards breaker equity day_trades input f s c k;
  untripped_for_buys = inl s;
  symbol_valid = c.symbol_valid;
  mode_open = c.mode_open;
  planned = c.planned;
  quantity = c.quantity;
  worth = c.worth;
  loss_within = c.loss_within;
  trades_within = c.trades_within;
  day_trades_within = inl s;
  room = c.room;
  reserve_kept = c.reserve_kept;
  no_duplicate = c.no_duplicate;
  not_cooling = c.not_cooling;
  no_conflict = c.no_conflict;
}

-- A tripped breaker, an equity or a day-trade count, also one that is no number, never decides
-- whether a sell is approved.
pub sell_ignores_guards :
    (breaker : BreakerStatus) (equity day_trades : Value) (input : RiskInput)
    → input.intent.side ≡ sell
    → ((review_risk (with_guards breaker equity day_trades input)).status ≡ approved)
      ↔ ((review_risk input).status ≡ approved)
sell_ignores_guards breaker equity day_trades input s =
    let changed = with_guards breaker equity day_trades input in
    (
      λ h. (approved_iff_IsCleared input).1 (
          sell-with_guards input.breaker_status input.metrics.account_equity
            input.metrics.day_trade_count changed s ((approved_iff_IsCleared changed).0 h)),
      λ h.
          (approved_iff_IsCleared changed).1 (
            sell-with_guards breaker equity day_trades input s
              ((approved_iff_IsCleared input).0 h)),
    )
