-- ===== src/Risk/Gates.antt =====
-- src/server/riskEngine.ts: the input of the review, the gates that a sell meets too, and the tests
-- on positions, open orders and symbol lists. Numbers that the review parses are values of unknown
-- type, as `parseFiniteNumber` takes them.
use quantpaca.Base.{
  Bool, true, false, not, ◌&&◌, List, [], ◌∷◌, Option, none, some, if◌then◌else◌, any,
}
use quantpaca.Js.Number.{Number, num, lt, le, abs, neg}
use quantpaca.Js.Arith.{sub}
use quantpaca.Js.Text.{Text, text, text_eq, includes, to_lower}
use quantpaca.Js.Numeral.{number_of_text}
use quantpaca.Js.Value.{Value}
use quantpaca.Trading.Types.{
  BrokerConfig, ExitPlan, Side, buy, sell, RiskReason, max_daily_loss, max_daily_trade_count,
  insufficient_buying_power,
}
use quantpaca.Risk.Portfolio.{AlpacaPosition, OpenOrder, SizedTradeIntent, BreakerStatus}

pub record PortfolioView : Type 0 where
  pub buying_power : Value
  pub positions : List AlpacaPosition
  pub open_orders : List OpenOrder

pub record RiskMetrics : Type 0 where
  pub daily_loss : Value
  pub daily_trade_count : Value
  pub open_position_count : Value
  pub account_equity : Value
  pub day_trade_count : Value

pub record ReviewLimits : Type 0 where
  pub max_daily_loss : Value
  pub max_daily_trade_count : Value
  pub max_open_positions : Value
  pub min_buying_power : Value
  pub cooldown_symbols : Option (List Text)
  pub cross_source_conflict_symbols : Option (List Text)

pub record RiskInput : Type 0 where
  pub intent : SizedTradeIntent
  pub broker_config : BrokerConfig
  pub portfolio : PortfolioView
  pub exit_plan : Option ExitPlan
  pub breaker_status : BreakerStatus
  pub metrics : RiskMetrics
  pub limits : ReviewLimits

-- The three gates that can reject a sell: the reason of a rejection, or nothing.
unfoldable pub check_daily_loss_gate : Option Number → Number → Option RiskReason
check_daily_loss_gate none limit = none
check_daily_loss_gate (some daily_loss) limit =
    if le daily_loss (neg (abs limit)) then some max_daily_loss else none

unfoldable pub check_daily_trade_count_gate : Number → Number → Option RiskReason
check_daily_trade_count_gate count limit =
    if le limit count then some max_daily_trade_count else none

unfoldable pub check_buying_power_gate : Number → Number → Number → Option RiskReason
check_buying_power_gate buying_power notional min_buying_power =
    if lt (sub buying_power notional) min_buying_power then some insufficient_buying_power else none

pub record SellFatalGateInput : Type 0 where
  pub daily_loss : Option Number
  pub daily_trade_count : Number
  pub buying_power : Number
  pub notional : Number
  pub max_daily_loss : Number
  pub max_daily_trade_count : Number
  pub min_buying_power : Number

-- The first rejection of the three, in the order of the review.
abbrev pub first_of_two : Option RiskReason → Option RiskReason → Option RiskReason
first_of_two (some r) later = some r
first_of_two none later = later

unfoldable pub evaluate_sell_fatal_risk_gates : SellFatalGateInput → Option RiskReason
unfolding check_daily_loss_gate check_daily_trade_count_gate check_buying_power_gate
evaluate_sell_fatal_risk_gates input =
    first_of_two (check_daily_loss_gate input.daily_loss input.max_daily_loss) (
      first_of_two
        (check_daily_trade_count_gate input.daily_trade_count input.max_daily_trade_count)
        (check_buying_power_gate input.buying_power input.notional input.min_buying_power))

-- `hasPosition`
unfoldable pub has_position : PortfolioView → Text → Bool
has_position portfolio symbol =
    any (λ p. text_eq p.symbol symbol && lt (num 0) (number_of_text p.qty)) portfolio.positions

-- `isTerminal`
is_terminal : Text → Bool
is_terminal status =
    includes
      (text "filled" ∷ text "canceled" ∷ text "cancelled" ∷ text "expired" ∷ text "rejected" ∷ [])
      (to_lower status)

abbrev is_side : Side → Side → Bool
is_side buy buy = true
is_side sell sell = true
is_side _ _ = false

abbrev pub is_buy : Side → Bool
is_buy buy = true
is_buy sell = false

unfoldable pub has_open_duplicate : PortfolioView → SizedTradeIntent → Bool
unfolding is_terminal
has_open_duplicate portfolio intent =
    any
      (λ o.
        text_eq o.symbol intent.symbol
        && (is_side o.side intent.side && not (is_terminal o.status)))
      portfolio.open_orders

-- `list?.includes(symbol)`
unfoldable pub lists : Option (List Text) → Text → Bool
lists none symbol = false
lists (some l) symbol = includes l symbol
