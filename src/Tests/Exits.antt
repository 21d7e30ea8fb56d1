-- ===== src/Tests/Exits.antt =====
-- Exit plans at concrete inputs.
use quantpaca.Base.{◌≡◌, refl, true, false, none, some}
use quantpaca.Js.Number.{num, nan, le, is_finite, truthy}
use quantpaca.Js.Arith.{mul, sub, div}
use quantpaca.Trading.Types.{buy}
use quantpaca.Exits.{
  ExitInput, trailing_stop, is_close_only, evaluate_exit_plan, stop_hit, profit_hit, trailing_hit,
}
use quantpaca.Tests.Trading.{plan}

abbrev input : ExitInput
input = record {
  exit_plan = plan;
  side = buy;
  current_price = num 94;
  now = num 1650000000000;
  thesis_invalidated = false;
  regime_permission = none;
  high_water_mark = none;
}

abbrev trailing_input : ExitInput
trailing_input = record input { current_price = num 98; high_water_mark = some (num 110) }

stopped : le (num 94) plan.initial_stop_loss_price ≡ true
unfolding le num
stopped = refl

lower : le (num 60) (num 94) ≡ true
unfolding le num
lower = refl

nan_unusable : is_finite nan ≡ false
unfolding is_finite
nan_unusable = refl

not_closing : is_close_only none ≡ false
unfolding is_close_only
not_closing = refl

not_due : le plan.time_exit_at (num 1650000000000) ≡ false
unfolding le num
not_due = refl

trailed : evaluate_exit_plan trailing_input ≡ trailing_stop
unfolding evaluate_exit_plan is_close_only stop_hit profit_hit trailing_hit le num is_finite truthy
    mul sub div
trailed = refl
