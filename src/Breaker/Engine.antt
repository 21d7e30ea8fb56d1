-- ===== src/Breaker/Engine.antt =====
-- src/server/breakerEngine.ts, `evaluateBreaker`. The clock's ISO text and the text of a reason's
-- numbers (`toFixed(2)` and a template) are parameters.
use quantpaca.Base.{Bool, true, false, ◌||◌, List, [], ◌∷◌, ◌++◌, Option, none, some, if◌then◌else◌}
use quantpaca.Js.Number.{Number, num, le, max}
use quantpaca.Js.Arith.{sub, div, mul}
use quantpaca.Js.Text.{Text, text}
use quantpaca.Js.Value.{Value}
use quantpaca.NumericSafety.{ParsedFiniteNumber, ok, failed, parse_finite_number}
use quantpaca.Risk.Portfolio.{BreakerStatus, ok as untripped, block_new_buys, close_only}

pub record BreakerLimits : Type 0 where
  pub max_daily_loss_percent : Number
  pub max_drawdown_from_peak_percent : Number
  pub max_drawdown_from_baseline_percent : Number

pub record BreakerInput : Type 0 where
  pub equity : Value
  pub last_equity : Value
  pub previous_peak_equity : Value
  pub baseline_equity : Option Number
  pub limits : BreakerLimits

pub record BreakerMetrics : Type 0 where
  pub equity : Option Number
  pub daily_loss_percent : Option Number
  pub drawdown_from_peak_percent : Option Number
  pub drawdown_from_baseline_percent : Option Number

pub record BreakerState : Type 0 where
  pub status : BreakerStatus
  pub reasons : List Text
  pub as_of : Text
  pub peak_equity : Option Number
  pub metrics : BreakerMetrics

-- (from - to) / from * 100
unfoldable pub loss_percent : Number → Number → Number
loss_percent from to = mul (div (sub from to) from) (num 100)

abbrev pub no_metrics : BreakerMetrics
no_metrics = record {
  equity = none;
  daily_loss_percent = none;
  drawdown_from_peak_percent = none;
  drawdown_from_baseline_percent = none;
}

-- `Math.max(previousPeak.ok ? previousPeak.value : equity.value, equity.value)`
unfoldable pub peak_of : Value → Number → Number
peak_of previous equity = elim (parse_finite_number previous (text "previousPeakEquity")) [
  | ok p ↦ max p equity
  | failed _ ↦ max equity equity
]

-- One threshold: the percentage is at or above its limit.
unfoldable pub breached : Number → Number → Bool
breached percent limit = le limit percent

module _ (fixed2 : Number → Text) (show_number : Number → Text) where
  threshold_reason : Text → Number → Number → Text
  threshold_reason name percent limit =
      name ++ (fixed2 percent ++ (text "% >= limit " ++ (show_number limit ++ text "%")))

  abbrev reason_if : Bool → Text → List Text
  reason_if true reason = reason ∷ []
  reason_if false reason = []

  -- The evaluation once both equities are positive numbers. The baseline comes last, so its status
  -- stands over the others.
  unfoldable pub evaluate_equity : BreakerInput → Text → Number → Number → BreakerState
  unfolding loss_percent peak_of breached threshold_reason
  evaluate_equity input now equity last_equity =
      let peak = peak_of input.previous_peak_equity equity in
      let daily = loss_percent last_equity equity in
      let from_peak = loss_percent peak equity in
      let by_day = breached daily input.limits.max_daily_loss_percent in
      let by_peak = breached from_peak input.limits.max_drawdown_from_peak_percent in
      let reasons =
        reason_if by_day
          (threshold_reason (text "daily loss ") daily input.limits.max_daily_loss_percent)
        ++ reason_if by_peak (
            threshold_reason (text "drawdown from peak ") from_peak
              input.limits.max_drawdown_from_peak_percent) in
      let status = if by_day || by_peak then block_new_buys else untripped in
      elim input.baseline_equity [
        | none ↦ record {
          status = status;
          reasons = reasons;
          as_of = now;
          peak_equity = some peak;
          metrics = record {
            equity = some equity;
            daily_loss_percent = some daily;
            drawdown_from_peak_percent = some from_peak;
            drawdown_from_baseline_percent = none;
          };
        }
        | some baseline ↦
            let from_baseline = loss_percent baseline equity in
            let by_baseline =
              breached from_baseline input.limits.max_drawdown_from_baseline_percent in
            record {
              status = if by_baseline then close_only else status;
              reasons =
                  reasons
                  ++ reason_if by_baseline (
                      threshold_reason (text "drawdown from baseline ") from_baseline
                        input.limits.max_drawdown_from_baseline_percent);
              as_of = now;
              peak_equity = some peak;
              metrics = record {
                equity = some equity;
                daily_loss_percent = some daily;
                drawdown_from_peak_percent = some from_peak;
                drawdown_from_baseline_percent = some from_baseline;
              };
            }
      ]

  -- What is returned for an equity that is missing, unreadable or not positive.
  unfoldable pub unusable_equity : Text → BreakerState
  unusable_equity now = record {
    status = block_new_buys;
    reasons = text "unparseable_or_nonpositive_equity_inputs" ∷ [];
    as_of = now;
    peak_equity = none;
    metrics = no_metrics;
  }

  unfoldable pub evaluate_parsed :
      BreakerInput → Text → ParsedFiniteNumber → ParsedFiniteNumber → BreakerState
  unfolding evaluate_equity unusable_equity
  evaluate_parsed input now (ok equity) (ok last_equity) =
      if le equity (num 0) || le last_equity (num 0)
      then unusable_equity now
      else evaluate_equity input now equity last_equity
  evaluate_parsed input now (ok equity) (failed _) = unusable_equity now
  evaluate_parsed input now (failed _) last_equity = unusable_equity now

  unfoldable pub evaluate_breaker : BreakerInput → Text → BreakerState
  unfolding evaluate_parsed
  evaluate_breaker input now =
      evaluate_parsed input now (parse_finite_number input.equity (text "equity"))
        (parse_finite_number input.last_equity (text "lastEquity"))
