-- ===== src/Exits/Triggers.antt =====
-- When an exit plan closes its position.
use quantpaca.Base.{◌≡◌, ◌≢◌, refl, true, false, Option, none, some, arith}
use quantpaca.Js.Number.{Number, lt, le, is_finite}
use quantpaca.Js.Order.{le_trans}
use quantpaca.Trading.Types.{Side, buy, sell}
use quantpaca.Exits.{
  ExitInput, trailing_stop, no_exit, is_close_only, stop_hit, profit_hit, trailing_hit,
  evaluate_exit_plan,
}

-- A long position at or below its stop price is always closed, whatever else holds, and so it is at
-- every lower price.
pub stop_protects :
    (input : ExitInput) (lower : Number)
    → input.side ≡ buy
    → le input.current_price input.exit_plan.initial_stop_loss_price ≡ true
    → le lower input.current_price ≡ true
    → evaluate_exit_plan (record input { current_price = lower }) ≢ no_exit
unfolding evaluate_exit_plan stop_hit
stop_protects input lower s h k =
    let below = le_trans lower input.current_price input.exit_plan.initial_stop_loss_price k h in
    rw (s, below) (ground arith)

-- With a mark that is missing or not finite the trailing stop is skipped and nothing else changes:
-- the answer is the one without a mark.
unusable_mark_is_skipped :
    (input : ExitInput) (mark : Number)
    → is_finite mark ≡ false
    → evaluate_exit_plan (record input { high_water_mark = some mark })
      ≡ evaluate_exit_plan (record input { high_water_mark = none })
unfolding evaluate_exit_plan trailing_hit
unusable_mark_is_skipped input mark h = ground arith

-- A price that is NaN closes nothing by price: only the thesis, the regime or the time can.
nan_price_never_fires :
    (input : ExitInput)
    → input.thesis_invalidated ≡ false
    → is_close_only input.regime_permission ≡ false
    → le input.exit_plan.time_exit_at input.now ≡ false
    → evaluate_exit_plan (record input { current_price = Number.nan }) ≡ no_exit
unfolding evaluate_exit_plan stop_hit profit_hit trailing_hit le
nan_price_never_fires input h k l = ground arith

abbrev IsTrailing : Side → Option Number → Option Number → Type 0
IsTrailing side high entry =
    (side ≡ buy)
    × (mark : Number) × (price : Number) × (high ≡ some mark)
    × (entry ≡ some price)
    × (lt price mark ≡ true)

trailing_hit_needs :
    (side : Side) (price : Number) (percent high entry : Option Number)
    → trailing_hit side price percent high entry ≡ true
    → IsTrailing side high entry
unfolding trailing_hit
trailing_hit_needs sell price percent high entry h = cc
trailing_hit_needs buy price none high entry h = cc
trailing_hit_needs buy price (some percent) none entry h = cc
trailing_hit_needs buy price (some percent) (some mark) none h = cc
trailing_hit_needs buy price (some percent) (some mark) (some entry) h =
    (refl, mark, entry, refl, refl, ground arith)

-- A trailing exit happens only on a long position whose high-water mark was above its entry price.
pub trailing_stop_needs :
    (input : ExitInput)
    → evaluate_exit_plan input ≡ trailing_stop
    → (input.side ≡ buy)
      × (mark : Number) × (entry : Number) × (input.high_water_mark ≡ some mark)
      × (input.exit_plan.entry_price ≡ some entry)
      × (lt entry mark ≡ true)
unfolding evaluate_exit_plan
trailing_stop_needs input h =
    trailing_hit_needs input.side input.current_price input.exit_plan.trailing_stop_percent
      input.high_water_mark input.exit_plan.entry_price (ground arith)
