-- ===== src/Breaker/Trips.antt =====
-- When the breaker trips, and what it makes of the equity peak.
use quantpaca.Base.{
  ◌≡◌, ◌⊎◌, refl, sym, ap, ◌∙◌, ◌↔◌, inl, inr, true, false, Option, none, some, arith, Bool-cases,
  ◌||◌, if◌then◌else◌,
}
use mathlib.Core.Bool.{false≢true}
use quantpaca.Js.Number.{Number, num, lt, le, is_finite, max}
use quantpaca.Js.Order.{le-eq-not-lt, le-max_left, le-max_right}
use quantpaca.Js.Text.{Text, text}
use quantpaca.Js.Value.{Value}
use quantpaca.NumericSafety.{ParsedFiniteNumber, ok, failed, numeric_value, parse_finite_number}
use quantpaca.Risk.Portfolio.{ok as untripped}
use quantpaca.Breaker.Engine.{
  BreakerInput, BreakerState, loss_percent, peak_of, breached, evaluate_equity, unusable_equity,
  evaluate_parsed, evaluate_breaker,
}

-- No baseline, or a drawdown from it below the limit.
abbrev pub IsBaselineCalm : Option Number → Number → Number → Type 0
IsBaselineCalm none equity limit = Unit
IsBaselineCalm (some baseline) equity limit = le limit (loss_percent baseline equity) ≡ false

-- An account on which the breaker does not trip.
pub record IsCalm (input : BreakerInput) : Type 0 where
  pub equity_finite : is_finite (numeric_value input.equity) ≡ true
  pub last_finite : is_finite (numeric_value input.last_equity) ≡ true
  pub equity_positive : lt (num 0) (numeric_value input.equity) ≡ true
  pub last_positive : lt (num 0) (numeric_value input.last_equity) ≡ true
  pub day_calm :
      le input.limits.max_daily_loss_percent
        (loss_percent (numeric_value input.last_equity) (numeric_value input.equity))
      ≡ false
  pub peak_calm :
      le input.limits.max_drawdown_from_peak_percent (
        loss_percent
          (peak_of input.previous_peak_equity (numeric_value input.equity))
          (numeric_value input.equity))
      ≡ false
  pub baseline_calm :
      IsBaselineCalm input.baseline_equity
        (numeric_value input.equity)
        input.limits.max_drawdown_from_baseline_percent

-- How a value parses.
abbrev ParsesAs : Value → ParsedFiniteNumber → Type 0
ParsesAs v (ok n) = (n ≡ numeric_value v) × (is_finite (numeric_value v) ≡ true)
ParsesAs v (failed f) = is_finite (numeric_value v) ≡ false

parse-ParsesAs : (v : Value) (f : Text) → ParsesAs v (parse_finite_number v f)
unfolding parse_finite_number
parse-ParsesAs v f = elim (Bool-cases (is_finite (numeric_value v))) [
  | inl known ↦ rw known (refl, known)
  | inr unknown ↦ rw unknown unknown
]

zero-finite : is_finite (num 0) ≡ true
unfolding num is_finite
zero-finite = refl

module _ (fixed2 : Number → Text) (show_number : Number → Text) where
  -- The status, once both equities are known to be positive.
  calm_of_equity :
      (input : BreakerInput) (now : Text)
      → let e = numeric_value input.equity in
        let l = numeric_value input.last_equity in
        ((evaluate_equity fixed2 show_number input now e l).status ≡ untripped) ↔ (
          (le input.limits.max_daily_loss_percent (loss_percent l e) ≡ false)
          × (le input.limits.max_drawdown_from_peak_percent
                (loss_percent (peak_of input.previous_peak_equity e) e)
              ≡ false)
          × IsBaselineCalm input.baseline_equity e input.limits.max_drawdown_from_baseline_percent)
  unfolding evaluate_equity breached
  calm_of_equity input now = ground arith

  -- The test on the signs of the equities, read as an order.
  positive_branch :
      (now : Text) (e l : Number) (s : BreakerState)
      → is_finite e ≡ true
      → is_finite l ≡ true
      → ((if le e (num 0) || le l (num 0) then unusable_equity fixed2 show_number now else s).status
          ≡ untripped)
        ↔ ((lt (num 0) e ≡ true) × (lt (num 0) l ≡ true) × (s.status ≡ untripped))
  unfolding unusable_equity
  positive_branch now e l s h k =
      ground (arith, le-eq-not-lt e (num 0) h zero-finite, le-eq-not-lt l (num 0) k zero-finite)

  IsCalm-of_parsed :
      (input : BreakerInput) (now : Text) (e l : ParsedFiniteNumber)
      → ParsesAs input.equity e
      → ParsesAs input.last_equity l
      → ((evaluate_parsed fixed2 show_number input now e l).status ≡ untripped) ↔ IsCalm input
  unfolding evaluate_parsed unusable_equity
  IsCalm-of_parsed input now (failed f) l h k =
      (λ s. cc, λ c. absurd (false≢true (sym h ∙ c.equity_finite)))
  IsCalm-of_parsed input now (ok e) (failed f) h k =
      (λ s. cc, λ c. absurd (false≢true (sym k ∙ c.last_finite)))
  IsCalm-of_parsed input now (ok e) (ok l) (es, ef) (ls, lf) =
      let equity = numeric_value input.equity in
      let last = numeric_value input.last_equity in
      let branch =
        positive_branch now equity last (evaluate_equity fixed2 show_number input now equity last)
          ef lf in
      rw (es, ls)
        (
          λ s.
              let (ep, lp, st) = branch.0 s in
              let (day, peak, base) = (calm_of_equity input now).0 st in
              record {
                equity_finite = ef;
                last_finite = lf;
                equity_positive = ep;
                last_positive = lp;
                day_calm = day;
                peak_calm = peak;
                baseline_calm = base;
              },
          λ c. branch.1 (
            c.equity_positive,
            c.last_positive,
            (calm_of_equity input now).1 (c.day_calm, c.peak_calm, c.baseline_calm),
          ),
        )

  -- The breaker comes out ok exactly if both equities are positive finite numbers and the daily loss,
  -- the drawdown from the peak and, where a baseline is set, the drawdown from it are all below
  -- their limits.
  pub evaluate_breaker_ok_iff :
      (input : BreakerInput) (now : Text)
      → ((evaluate_breaker fixed2 show_number input now).status ≡ untripped) ↔ IsCalm input
  unfolding evaluate_breaker
  evaluate_breaker_ok_iff input now =
      IsCalm-of_parsed input now _ _ (parse-ParsesAs input.equity _)
        (parse-ParsesAs input.last_equity _)

-- The peak is at least the equity, and at least the previous peak where that is a finite number.
peak_of-dominates :
    (previous : Value) (equity : Number)
    → is_finite equity ≡ true
    → (le equity (peak_of previous equity) ≡ true)
      × ((is_finite (numeric_value previous) ≡ false)
          ⊎ (le (numeric_value previous) (peak_of previous equity) ≡ true))
unfolding peak_of parse_finite_number
peak_of-dominates previous equity h = ground (
  arith,
  le-max_left equity equity,
  le-max_right (numeric_value previous) equity,
  le-max_left (numeric_value previous) equity,
)

-- `previousBreaker?.peakEquity ?? null`, for a saved state.
abbrev pub peak_value : Option Number → Value
peak_value none = Value.null
peak_value (some p) = Value.number p

module _ (fixed2 : Number → Text) (show_number : Number → Text) where
  unusable_peak :
      (input : BreakerInput) (now : Text) (e l : ParsedFiniteNumber)
      → ParsesAs input.equity e
      → is_finite (numeric_value input.equity) ≡ false
      → (evaluate_parsed fixed2 show_number input now e l).peak_equity ≡ none
  unfolding evaluate_parsed unusable_equity
  unusable_peak input now (failed f) l h bad = refl
  unusable_peak input now (ok e) l h bad = absurd (false≢true (sym bad ∙ h.1))

  usable_peak :
      (input : BreakerInput) (now : Text) (e l : Number)
      → (evaluate_equity fixed2 show_number input now e l).peak_equity
        ≡ some (peak_of input.previous_peak_equity e)
  unfolding evaluate_equity
  usable_peak input now e l = ground arith

  -- After one evaluation whose equity is no finite number, the saved peak is null and the next
  -- evaluation of a usable account measures its drawdown from its own equity: the peak before is lost.
  pub unusable_equity_forgets_peak :
      (first second : BreakerInput) (now later : Text) {e l : Number}
      → is_finite (numeric_value first.equity) ≡ false
      → second.previous_peak_equity
        ≡ peak_value (evaluate_breaker fixed2 show_number first now).peak_equity
      → parse_finite_number second.equity (text "equity") ≡ ok e
      → parse_finite_number second.last_equity (text "lastEquity") ≡ ok l
      → le e (num 0) ≡ false
      → le l (num 0) ≡ false
      → (evaluate_breaker fixed2 show_number second later).peak_equity ≡ some (max e e)
  unfolding evaluate_breaker evaluate_parsed peak_of parse_finite_number numeric_value is_finite
  unusable_equity_forgets_peak first second now later bad kept pe pl ep lp =
      let lost =
        unusable_peak first now _ (parse_finite_number first.last_equity (text "lastEquity"))
          (parse-ParsesAs first.equity (text "equity")) bad in
      rw (pe, pl, ep, lp, usable_peak, kept ∙ ap peak_value lost)
