-- ===== src/Brackets.antt =====
-- src/server/bracketOrders.ts: the prices of a bracket's two legs.
use quantpaca.Base.{ℕ, Bool, true, false, not, ◌||◌, if◌then◌else◌}
use quantpaca.Js.Number.{Number, nan, num, lt, le, is_finite}
use quantpaca.Js.Arith.{ratio, add, mul, div, floor, fixed_number}
use quantpaca.Js.Text.{Text, text}
use quantpaca.Js.Value.{Value}
use quantpaca.NumericSafety.{ParsedFiniteNumber, ok, failed, parse_finite_number}
use quantpaca.Trading.Types.{
  Side, buy, sell, BracketRefusal, not_a_buy, entry_unusable, stop_unusable, take_profit_unusable,
  degenerate_prices,
}
pub mod Legs

abbrev pub bracket_time_in_force : Text
bracket_time_in_force = text "gtc"

abbrev pub plain_time_in_force : Text
plain_time_in_force = text "day"

abbrev cent_tick : Number
cent_tick = ratio 1 100

abbrev sub_dollar_tick : Number
sub_dollar_tick = ratio 1 10000

unfoldable pub round_down_to_tick : Number → Number
round_down_to_tick price =
    if not (is_finite price)
    then nan
    else let below_dollar = lt price (num 1) in
      let tick = if below_dollar then sub_dollar_tick else cent_tick in
      let decimals : ℕ = if below_dollar then 4 else 2 in
      fixed_number decimals (mul (floor (add (div price tick) (ratio 1 1000000))) tick)

pub record BracketLegs : Type 0 where
  pub take_profit_limit_price : Number
  pub stop_loss_stop_price : Number

pub data BracketLegsResult : Type 0 where
  legs_ok : BracketLegs → BracketLegsResult
  legs_refused : BracketRefusal → BracketLegsResult

-- The check of the rounded prices.
unfoldable pub check_legs : Number → Number → Number → BracketLegsResult
check_legs entry stop take_profit =
    if not (lt entry take_profit) || (not (lt stop entry) || not (lt stop take_profit))
    then legs_refused (degenerate_prices stop take_profit entry)
    else legs_ok (record { take_profit_limit_price = take_profit; stop_loss_stop_price = stop })

unfoldable pub legs_of_parsed :
    ParsedFiniteNumber → ParsedFiniteNumber → ParsedFiniteNumber → BracketLegsResult
unfolding check_legs
legs_of_parsed (failed _) stop take_profit = legs_refused entry_unusable
legs_of_parsed (ok entry) (failed _) take_profit =
    if le entry (num 0) then legs_refused entry_unusable else legs_refused stop_unusable
legs_of_parsed (ok entry) (ok stop) (failed _) =
    if le entry (num 0) then legs_refused entry_unusable else legs_refused take_profit_unusable
legs_of_parsed (ok entry) (ok stop) (ok take_profit) =
    if le entry (num 0)
    then legs_refused entry_unusable
    else check_legs entry (round_down_to_tick stop) (round_down_to_tick take_profit)

unfoldable pub build_bracket_legs : Side → Value → Value → Value → BracketLegsResult
unfolding legs_of_parsed
build_bracket_legs sell entry stop take_profit = legs_refused not_a_buy
build_bracket_legs buy entry stop take_profit =
    legs_of_parsed (parse_finite_number entry (text "entryEstimate"))
      (parse_finite_number stop (text "stopLossPrice"))
      (parse_finite_number take_profit (text "takeProfitPrice"))
