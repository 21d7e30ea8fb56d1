-- ===== src/Monitor.antt =====
-- src/server/exitMonitor.ts, `evaluateOpenPositionExits`: which open positions are closed in a
-- cycle. The texts of the decisions are left out; the calls of `onHighWaterMarkRatchet` are recorded.
use quantpaca.Base.{
  Bool, true, false, not, ◌&&◌, ◌||◌, List, [], ◌∷◌, ◌++◌, Option, none, some, if◌then◌else◌,
}
use quantpaca.Js.Number.{Number, num, lt, le, neg, is_finite}
use quantpaca.Js.Arith.{floor}
use quantpaca.Js.Text.{Text, text, includes, filled}
use quantpaca.Js.Value.{Value}
use quantpaca.NumericSafety.{ParsedFiniteNumber, ok, failed, parse_finite_number}
use quantpaca.Trading.Types.{Side, ExitPlan, RegimeChangeAction, hold, reduce, close}
use quantpaca.Sizing.{TradePermission}
use quantpaca.Exits.{ExitReason, no_exit, evaluate_exit_plan}
use quantpaca.Execution.Context.{number_of}
pub mod Protection
pub mod Marks

pub record ExitPlanRecord : Type 0 where
  pub side : Side
  pub exit_plan : ExitPlan
  pub trade_id : Option Text
  pub high_water_mark : Value

-- What `lookupPlan` comes to.
pub data PlanLookup : Type 0 where
  lookup_threw no_plan : PlanLookup
  found : ExitPlanRecord → PlanLookup

pub record OpenPosition : Type 0 where
  pub symbol : Text
  pub qty : Value
  pub current_price : Value
  pub unrealized_pl_percent : Number

pub record PlanExit : Type 0 where
  pub symbol : Text
  pub qty : Number
  pub reason : ExitReason

pub record LegacyExit : Type 0 where
  pub symbol : Text
  pub qty : Number
  pub unrealized_loss_percent : Number

pub data InvalidField : Type 0 where
  current_price initial_stop_loss_price time_exit_at take_profit_price : InvalidField

pub data SkippedPlan : Type 0 where
  lookup_failed : Text → SkippedPlan
  invalid_plan : Text → InvalidField → SkippedPlan

-- The decisions, and the calls of the ratchet: the trade's id, the symbol and the mark.
pub record ExitEvaluation : Type 0 where
  pub plan_exits : List PlanExit
  pub legacy_exits : List LegacyExit
  pub skipped_plans : List SkippedPlan
  pub ratchets : List (Text × Text × Number)

pub record MonitorInput : Type 0 where
  pub now : Number
  pub legacy_stop_loss_percent : Number
  pub lookup_plan : Text → PlanLookup
  pub regime_permission : Option TradePermission
  pub thesis_invalidated_symbols : List Text

abbrev pub no_decision : ExitEvaluation
no_decision = record { plan_exits = []; legacy_exits = []; skipped_plans = []; ratchets = [] }

-- `applyLegacyFallback`
unfoldable pub legacy_exits_of : OpenPosition → Number → Number → List LegacyExit
legacy_exits_of pos limit qty =
    if not (is_finite pos.unrealized_pl_percent) || lt (neg limit) pos.unrealized_pl_percent
    then []
    else record {
      symbol = pos.symbol;
      qty = qty;
      unrealized_loss_percent = pos.unrealized_pl_percent;
    }
      ∷ []

pub data PlanValidation : Type 0 where
  valid_at : Number → PlanValidation
  invalid : InvalidField → PlanValidation

target_readable : Option Number → Bool
target_readable none = true
target_readable (some target) = is_finite target

validate_with : ParsedFiniteNumber → ExitPlan → PlanValidation
unfolding target_readable
validate_with (failed _) plan = invalid current_price
validate_with (ok price) plan =
    if not (is_finite plan.initial_stop_loss_price)
    then invalid initial_stop_loss_price
    else if not (is_finite plan.time_exit_at)
    then invalid time_exit_at
    else if not (target_readable plan.take_profit_price)
    then invalid take_profit_price
    else valid_at price

-- `validatePlanInputs`; the prices of a plan are numbers.
unfoldable pub validate_plan_inputs : OpenPosition → ExitPlan → PlanValidation
unfolding validate_with
validate_plan_inputs pos plan =
    validate_with (parse_finite_number pos.current_price (text "currentPrice")) plan

-- The mark to evaluate with, and the call of the ratchet where the price is above it.
unfoldable pub raise_mark :
    Option Text → Text → Number → ParsedFiniteNumber → Option Number × List (Text × Text × Number)
raise_mark id symbol price (failed _) = (none, [])
raise_mark id symbol price (ok mark) =
    let call : List (Text × Text × Number) = elim id [
      | none ↦ []
      | some trade ↦ if filled trade then (trade, symbol, price) ∷ [] else []
    ] in
    if lt mark price then (some price, call) else (some mark, [])

-- Only a plan that closes on a regime change sees the permission.
permission_for : RegimeChangeAction → Option TradePermission → Option TradePermission
permission_for close permission = permission
permission_for hold permission = none
permission_for reduce permission = none

exits_of : Text → Number → ExitReason → List PlanExit
exits_of symbol qty no_exit = []
exits_of symbol qty reason = record { symbol = symbol; qty = qty; reason = reason } ∷ []

-- A valid plan, at the price and with the mark raised.
unfoldable pub evaluate_plan :
    MonitorInput
    → OpenPosition
    → Number
    → ExitPlanRecord
    → Number
    → Option Number × List (Text × Text × Number)
    → ExitEvaluation
unfolding permission_for exits_of
evaluate_plan input pos qty entry price (mark, calls) = record no_decision {
  plan_exits = exits_of pos.symbol qty (
      evaluate_exit_plan (record {
        exit_plan = entry.exit_plan;
        side = entry.side;
        current_price = price;
        now = input.now;
        thesis_invalidated = includes input.thesis_invalidated_symbols pos.symbol;
        regime_permission =
            permission_for entry.exit_plan.regime_change_action input.regime_permission;
        high_water_mark = mark;
      }));
  ratchets = calls;
}

evaluate_validated :
    MonitorInput → OpenPosition → Number → ExitPlanRecord → PlanValidation → ExitEvaluation
unfolding legacy_exits_of raise_mark evaluate_plan
evaluate_validated input pos qty entry (invalid field) = record no_decision {
  legacy_exits = legacy_exits_of pos input.legacy_stop_loss_percent qty;
  skipped_plans = invalid_plan pos.symbol field ∷ [];
}
evaluate_validated input pos qty entry (valid_at price) = evaluate_plan input pos qty entry price (
    raise_mark entry.trade_id pos.symbol price
      (parse_finite_number entry.high_water_mark (text "highWaterMark")))

evaluate_lookup : MonitorInput → OpenPosition → Number → PlanLookup → ExitEvaluation
unfolding evaluate_validated legacy_exits_of validate_plan_inputs
evaluate_lookup input pos qty lookup_threw = record no_decision {
  legacy_exits = legacy_exits_of pos input.legacy_stop_loss_percent qty;
  skipped_plans = lookup_failed pos.symbol ∷ [];
}
evaluate_lookup input pos qty no_plan = record no_decision {
  legacy_exits = legacy_exits_of pos input.legacy_stop_loss_percent qty;
}
evaluate_lookup input pos qty (found entry) =
    evaluate_validated input pos qty entry (validate_plan_inputs pos entry.exit_plan)

-- The whole shares of a position.
unfoldable pub shares_of : OpenPosition → Number
shares_of pos = floor (number_of pos.qty)

-- One round of the loop.
unfoldable pub evaluate_position : MonitorInput → OpenPosition → ExitEvaluation
unfolding evaluate_lookup shares_of
evaluate_position input pos =
    let qty = shares_of pos in
    if not (is_finite qty) || le qty (num 0)
    then no_decision
    else evaluate_lookup input pos qty (input.lookup_plan pos.symbol)

abbrev pub combine : ExitEvaluation → ExitEvaluation → ExitEvaluation
combine a b = record {
  plan_exits = a.plan_exits ++ b.plan_exits;
  legacy_exits = a.legacy_exits ++ b.legacy_exits;
  skipped_plans = a.skipped_plans ++ b.skipped_plans;
  ratchets = a.ratchets ++ b.ratchets;
}

unfoldable pub evaluate_open_position_exits : MonitorInput → List OpenPosition → ExitEvaluation
unfolding evaluate_position
evaluate_open_position_exits input [] = no_decision
evaluate_open_position_exits input (pos ∷ rest) =
    combine (evaluate_position input pos) (evaluate_open_position_exits input rest)
