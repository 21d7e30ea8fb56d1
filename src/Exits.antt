-- ===== src/Exits.antt =====
-- src/server/exitEngine.ts: the exit plan of an entry, and when it is triggered.
use quantpaca.Base.{Bool, true, false, not, ◌&&◌, ◌||◌, Option, none, some, if◌then◌else◌, or_else}
use quantpaca.Js.Number.{Number, num, lt, le, abs, neg, is_finite, truthy}
use quantpaca.Js.Arith.{add, sub, mul, div, floor, round}
use quantpaca.Js.Text.{Text}
use quantpaca.Trading.Types.{Side, buy, sell, ExitPlan, close, market_sell}
use quantpaca.Sizing.{TradePermission, allow, reduce_size, block_new_buys, close_only}
pub mod Triggers

pub record ExitPlanInput : Type 0 where
  pub symbol : Text
  pub side : Side
  pub entry_price : Number
  pub stop_loss_percent : Option Number
  pub take_profit_percent : Option Number
  pub max_hold_days : Option Number
  pub trailing_stop_percent : Option Number

unfoldable pub round_money : Number → Number
round_money n = div (round (mul n (num 100))) (num 100)

abbrev pub default_trailing_stop_percent : Number
default_trailing_stop_percent = num 10

-- `new Date(t).toISOString()`, which throws where the time is out of the range of a date.
unfoldable pub iso_time : Number → Option Number
iso_time t =
    if is_finite t && le (abs t) (num 8640000000000000)
    then some (if lt t (num 0) then neg (floor (neg t)) else floor t)
    else none

-- The plan's multipliers, below one for a loss and above one for a profit on a long position.
unfoldable pub loss_multiplier : Side → Number → Number
loss_multiplier buy percent = sub (num 1) (div percent (num 100))
loss_multiplier sell percent = add (num 1) (div percent (num 100))

unfoldable pub profit_multiplier : Side → Number → Number
profit_multiplier buy percent = add (num 1) (div percent (num 100))
profit_multiplier sell percent = sub (num 1) (div percent (num 100))

plan_until : ExitPlanInput → Number → ExitPlan
unfolding round_money loss_multiplier profit_multiplier
plan_until input until = record {
  initial_stop_loss_price = round_money (
      mul input.entry_price (loss_multiplier input.side (or_else input.stop_loss_percent (num 5))));
  take_profit_price = some (
      round_money (
        mul input.entry_price
          (profit_multiplier input.side (or_else input.take_profit_percent (num 15)))));
  trailing_stop_percent = some (or_else input.trailing_stop_percent default_trailing_stop_percent);
  entry_price = some (round_money input.entry_price);
  time_exit_at = until;
  thesis_invalidation = input.symbol;
  regime_change_action = close;
  emergency_action = market_sell;
}

-- `createExitPlan` at the time `now`; `none` where it throws.
unfoldable pub create_exit_plan : ExitPlanInput → Number → Option ExitPlan
unfolding plan_until iso_time
create_exit_plan input now =
    elim (iso_time (
      add now (
        mul (mul (mul (mul (or_else input.max_hold_days (num 14)) (num 24)) (num 60)) (num 60))
          (num 1000)))) [ none ↦ none | some until ↦ some (plan_until input until) ]

pub data ExitReason : Type 0 where
  thesis_invalidation regime_change time_exit stop_loss take_profit trailing_stop : ExitReason
  no_exit : ExitReason

pub record ExitInput : Type 0 where
  pub exit_plan : ExitPlan
  pub side : Side
  pub current_price : Number
  pub now : Number
  pub thesis_invalidated : Bool
  pub regime_permission : Option TradePermission
  pub high_water_mark : Option Number

unfoldable pub is_close_only : Option TradePermission → Bool
is_close_only none = false
is_close_only (some close_only) = true
is_close_only (some allow) = false
is_close_only (some reduce_size) = false
is_close_only (some block_new_buys) = false

unfoldable pub stop_hit : Side → Number → Number → Bool
stop_hit buy price stop = le price stop
stop_hit sell price stop = le stop price

-- `takeProfitPrice && ...`: an undefined, zero or NaN target never fires.
unfoldable pub profit_hit : Side → Number → Option Number → Bool
profit_hit side price none = false
profit_hit buy price (some target) = truthy target && le target price
profit_hit sell price (some target) = truthy target && le price target

trailing_price : Number → Number → Number
trailing_price mark percent = mul mark (sub (num 1) (div percent (num 100)))

-- The trailing stop: long positions only, and only once the mark was above the entry price.
unfoldable pub trailing_hit : Side → Number → Option Number → Option Number → Option Number → Bool
unfolding trailing_price
trailing_hit buy price (some percent) (some mark) (some entry) =
    is_finite mark && (is_finite entry && (lt entry mark && le price (trailing_price mark percent)))
trailing_hit buy price (some percent) (some mark) none = false
trailing_hit buy price (some percent) none entry = false
trailing_hit buy price none mark entry = false
trailing_hit sell price percent mark entry = false

unfoldable pub evaluate_exit_plan : ExitInput → ExitReason
evaluate_exit_plan input =
    let plan = input.exit_plan in
    if input.thesis_invalidated
    then thesis_invalidation
    else if is_close_only input.regime_permission
    then regime_change
    else if le plan.time_exit_at input.now
    then time_exit
    else if stop_hit input.side input.current_price plan.initial_stop_loss_price
    then stop_loss
    else if profit_hit input.side input.current_price plan.take_profit_price
    then take_profit
    else if trailing_hit input.side input.current_price plan.trailing_stop_percent
        input.high_water_mark plan.entry_price
    then trailing_stop
    else no_exit
