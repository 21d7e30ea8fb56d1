-- ===== src/Portfolio.antt =====
-- src/server/portfolioEngine.ts: the assessment of an account.
use quantpaca.Base.{List, [], ◌∷◌, none, some, if◌then◌else◌}
use quantpaca.Js.Number.{Number, num, is_finite, truthy}
use quantpaca.Js.Arith.{add, mul, div, round}
use quantpaca.Js.Text.{Text, filled}
use quantpaca.Js.Numeral.{number_of_text}
use quantpaca.Js.Value.{Value}
use quantpaca.Js.Object.{store}
use quantpaca.Risk.Portfolio.{AlpacaPosition, OpenOrder}

pub record AlpacaAccount : Type 0 where
  pub cash : Value
  pub buying_power : Value
  pub portfolio_value : Value
  pub equity : Value
  pub last_equity : Value
  pub long_market_value : Value
  pub daytrade_count : Value
  pub positions : List AlpacaPosition

pub data PortfolioSource : Type 0 where
  alpaca local_simulated_snapshot : PortfolioSource

pub record PortfolioAssessment : Type 0 where
  pub cash : Number
  pub buying_power : Number
  pub equity : Number
  pub long_market_value : Number
  pub total_long_exposure_percent : Number
  pub pending_order_notional : Number
  pub positions : List AlpacaPosition
  pub open_orders : List OpenOrder
  pub per_symbol_concentration : List (Text × Number)
  pub source : PortfolioSource

finite_or_zero : Number → Number
finite_or_zero n = if is_finite n then n else num 0

-- A string, a number, null or undefined, as the broker's fields are.
unfoldable pub to_number : Value → Number
unfolding finite_or_zero
to_number (Value.number n) = finite_or_zero n
to_number (Value.string s) = finite_or_zero (number_of_text s)
to_number _ = num 0

unfoldable pub round_percent : Number → Number → Number
round_percent numerator denominator =
    if truthy denominator
    then div (round (mul (div numerator denominator) (num 10000))) (num 100)
    else num 0

-- `Number(order.notional)`, NaN where there is none.
unfoldable pub order_notional : OpenOrder → Number
unfolding finite_or_zero
order_notional order = elim order.notional [
  | none ↦ num 0
  | some s ↦ finite_or_zero (number_of_text s)
]

sum_notionals : Number → List OpenOrder → Number
unfolding order_notional
sum_notionals sum [] = sum
sum_notionals sum (o ∷ os) = sum_notionals (add sum (order_notional o)) os

unfoldable pub concentrations :
    Number → List AlpacaPosition → List (Text × Number) → List (Text × Number)
unfolding to_number round_percent
concentrations equity [] found = found
concentrations equity (p ∷ ps) found =
    concentrations equity ps
      (store p.symbol (round_percent (to_number (Value.string p.market_value)) equity) found)

-- `a || b` on two fields of an account.
field_or : Value → Value → Value
field_or (Value.string s) b = if filled s then Value.string s else b
field_or (Value.number n) b = if truthy n then Value.number n else b
field_or _ b = b

unfoldable pub assess_portfolio :
    AlpacaAccount → List OpenOrder → PortfolioSource → PortfolioAssessment
unfolding to_number round_percent sum_notionals concentrations field_or
assess_portfolio account open_orders source =
    let equity = to_number (field_or account.equity account.portfolio_value) in
    let long = to_number account.long_market_value in
    record {
      cash = to_number account.cash;
      buying_power = to_number account.buying_power;
      equity = equity;
      long_market_value = long;
      total_long_exposure_percent = round_percent long equity;
      pending_order_notional = sum_notionals (num 0) open_orders;
      positions = account.positions;
      open_orders = open_orders;
      per_symbol_concentration = concentrations equity account.positions [];
      source = source;
    }
