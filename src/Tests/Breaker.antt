-- ===== src/Tests/Breaker.antt =====
-- The breaker and its latch at concrete inputs.
use quantpaca.Base.{◌≤◌, ◌≡◌, ◌↔◌, refl, true, [], ◌∷◌, none, some, ap, sym}
use quantpaca.Js.Number.{Number, num, le, max, is_finite}
use quantpaca.Js.Arith.{sub, div, mul}
use quantpaca.Js.Text.{Text, text}
use quantpaca.Js.Value.{Value}
use quantpaca.NumericSafety.{parse_finite_number, numeric_value}
use quantpaca.Risk.Portfolio.{ok as untripped, block_new_buys, close_only}
use quantpaca.Breaker.Engine.{BreakerInput, BreakerState, evaluate_breaker}
use quantpaca.Breaker.Latch.{apply_breaker_latch, status_rank, apply_prior}
use quantpaca.Breaker.Trips.{
  IsCalm, evaluate_breaker_ok_iff, peak_value, unusable_equity_forgets_peak,
}
use quantpaca.Breaker.Holds.{latch_after, tripped_holds}

abbrev shown : Number → Text
shown _ = []

abbrev account : Value → Value → BreakerInput
account equity peak = record {
  equity = equity;
  last_equity = Value.number (num 1000);
  previous_peak_equity = peak;
  baseline_equity = some (num 1000);
  limits = record {
    max_daily_loss_percent = num 3;
    max_drawdown_from_peak_percent = num 10;
    max_drawdown_from_baseline_percent = num 15;
  };
}

abbrev down : BreakerInput
down = account (Value.number (num 800)) (Value.number (num 1200))

-- Down 20% from the baseline: close only.
down_closes : (evaluate_breaker shown shown down []).status ≡ close_only
unfolding evaluate_breaker parse_finite_number num sub div mul le max
down_closes = refl

evaluate_breaker_ok_iff_example :
    ((evaluate_breaker shown shown down []).status ≡ untripped) ↔ IsCalm down
evaluate_breaker_ok_iff_example = evaluate_breaker_ok_iff shown shown down []

num_finite : is_finite (num 800) ≡ true
unfolding num is_finite
num_finite = refl

abbrev unreadable : BreakerInput
unreadable = account Value.null (Value.number (num 1200))

unreadable_peak : (evaluate_breaker shown shown unreadable []).peak_equity ≡ none
unfolding evaluate_breaker parse_finite_number
unreadable_peak = refl

abbrev after_unreadable : BreakerInput
after_unreadable = account (Value.number (num 800)) Value.null

unusable_equity_forgets_peak_example :
    (evaluate_breaker shown shown after_unreadable []).peak_equity ≡ some (max (num 800) (num 800))
unfolding parse_finite_number num le numeric_value is_finite
unusable_equity_forgets_peak_example =
    unusable_equity_forgets_peak shown shown unreadable after_unreadable [] [] {e = num 800}
      {l = num 1000} refl (ap peak_value (sym unreadable_peak)) refl refl refl refl

abbrev tripped_state : BreakerState
tripped_state = record {
  status = block_new_buys;
  reasons = text "daily loss" ∷ [];
  as_of = text "2026-01-01";
  peak_equity = none;
  metrics = record {
    equity = none;
    daily_loss_percent = none;
    drawdown_from_peak_percent = none;
    drawdown_from_baseline_percent = none;
  };
}

abbrev calm_state : BreakerState
calm_state = record tripped_state { status = untripped; reasons = [] }

first_trips : (apply_breaker_latch tripped_state Value.null).effective.status ≡ block_new_buys
unfolding apply_breaker_latch apply_prior
first_trips = refl

tripped_holds_example :
    status_rank (apply_breaker_latch tripped_state Value.null).effective.status
    ≤ status_rank
        (apply_breaker_latch calm_state
          (latch_after Value.null (tripped_state ∷ calm_state ∷ []))).effective.status
tripped_holds_example =
    tripped_holds tripped_state Value.null (calm_state ∷ []) calm_state (λ e. cc (first_trips, e))
