-- ===== src/Risk/Readings.antt =====
-- The tests of the review, in terms of the numbers that its input stands for.
use quantpaca.Base.{◌≡◌, refl, ◌⊎◌, ◌↔◌, inl, inr, true, false, not, ◌&&◌, none, arith}
use quantpaca.Js.Number.{num, lt, le, abs, neg, is_finite}
use quantpaca.Js.Arith.{sub}
use quantpaca.Js.Order.{le-eq-not-lt, is_finite-neg-abs}
use quantpaca.Trading.Types.{
  Side, buy, sell, RiskField, intent_qty, intent_notional, portfolio_buying_power,
  metrics_daily_loss, metrics_daily_trade_count, metrics_open_position_count,
  metrics_account_equity, metrics_day_trade_count, limits_max_daily_loss,
  limits_max_daily_trade_count, limits_max_open_positions, limits_min_buying_power,
}
use quantpaca.Risk.Gates.{RiskInput, is_buy, check_daily_loss_gate}
use quantpaca.Risk.Fields.{Parsed, is_optional_for, number_at}
use quantpaca.Risk.Engine.{pdt_equity_min, pdt_max_day_trades}
use quantpaca.Risk.Numbers.{amount, Reads}

-- The conditions in terms of the numbers, for one map.
module _ (input : RiskInput) (p : Parsed) (r : Reads input p) where
  pub at :
      (f : RiskField)
      → is_optional_for input.intent.side f ≡ false
      → (number_at p f ≡ amount input f) × (is_finite (amount input f) ≡ true)
  at f k = ground (arith, r.holds f, r.needed f k)

  pub le_at :
      (f g : RiskField)
      → is_optional_for input.intent.side f ≡ false
      → is_optional_for input.intent.side g ≡ false
      → le (number_at p f) (number_at p g) ≡ not (lt (amount input g) (amount input f))
  le_at f g k l =
      rw ((at f k).0, (at g l).0)
        (le-eq-not-lt (amount input f) (amount input g) (at f k).1 (at g l).1)

  pub le-zero_at :
      (f : RiskField)
      → is_optional_for input.intent.side f ≡ false
      → le (number_at p f) (num 0) ≡ not (lt (num 0) (amount input f))
  unfolding num is_finite
  le-zero_at f k = rw ((at f k).0) (le-eq-not-lt (amount input f) (num 0) (at f k).1 refl)

pub always_needed :
    (side : Side)
    → (is_optional_for side intent_qty ≡ false)
      × (is_optional_for side intent_notional ≡ false)
      × (is_optional_for side portfolio_buying_power ≡ false)
      × (is_optional_for side metrics_daily_trade_count ≡ false)
      × (is_optional_for side metrics_open_position_count ≡ false)
      × (is_optional_for side limits_max_daily_loss ≡ false)
      × (is_optional_for side limits_max_daily_trade_count ≡ false)
      × (is_optional_for side limits_max_open_positions ≡ false)
      × (is_optional_for side limits_min_buying_power ≡ false)
unfolding is_optional_for
always_needed buy = (refl, refl, refl, refl, refl, refl, refl, refl, refl)
always_needed sell = (refl, refl, refl, refl, refl, refl, refl, refl, refl)

pub Side-cases : (s : Side) → (s ≡ buy) ⊎ (s ≡ sell)
Side-cases buy = inl refl
Side-cases sell = inr refl

pdt_max_day_trades-finite : is_finite pdt_max_day_trades ≡ true
unfolding pdt_max_day_trades is_finite
pdt_max_day_trades-finite = refl

module _ (input : RiskInput) (p : Parsed) (r : Reads input p) where
  pub loss_gate_at :
      (check_daily_loss_gate (p metrics_daily_loss) (number_at p limits_max_daily_loss) ≡ none) ↔ (
        (is_finite (amount input metrics_daily_loss) ≡ false)
        ⊎ (lt (neg (abs (amount input limits_max_daily_loss))) (amount input metrics_daily_loss)
            ≡ true))
  unfolding check_daily_loss_gate
  loss_gate_at =
      let limit = at input p r limits_max_daily_loss (always_needed input.intent.side).5 in
      ground (
        arith,
        limit,
        r.holds metrics_daily_loss,
        le-eq-not-lt (amount input metrics_daily_loss)
            (neg (abs (amount input limits_max_daily_loss))),
        is_finite-neg-abs (amount input limits_max_daily_loss),
      )

  pub pdt_at :
      ((is_buy input.intent.side
          && (lt (number_at p metrics_account_equity) pdt_equity_min
              && le pdt_max_day_trades (number_at p metrics_day_trade_count)))
        ≡ false)
      ↔ ((input.intent.side ≡ sell)
          ⊎ (lt (amount input metrics_account_equity) pdt_equity_min ≡ false)
          ⊎ (lt (amount input metrics_day_trade_count) pdt_max_day_trades ≡ true))
  unfolding is_optional_for
  pdt_at = elim (Side-cases input.intent.side) [
    | inl bought ↦ ground (
      arith,
      bought,
      at input p r metrics_account_equity (rw bought),
      at input p r metrics_day_trade_count (rw bought),
      le-eq-not-lt pdt_max_day_trades (amount input metrics_day_trade_count),
      pdt_max_day_trades-finite,
    )
    | inr sold ↦ ground (arith, sold)
  ]

  pub reserve_at :
      lt
        (sub (number_at p portfolio_buying_power) (number_at p intent_notional))
        (number_at p limits_min_buying_power)
      ≡ lt
          (sub (amount input portfolio_buying_power) (amount input intent_notional))
          (amount input limits_min_buying_power)
  reserve_at =
      let needed = always_needed input.intent.side in
      cc (
        (at input p r portfolio_buying_power needed.2).0,
        (at input p r intent_notional needed.1).0,
        (at input p r limits_min_buying_power needed.8).0,
      )
