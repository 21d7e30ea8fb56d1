-- ===== src/Regime.antt =====
-- src/server/regimeEngine.ts: the market regime and what it permits.
use quantpaca.Base.{
  Bool, true, false, not, ◌&&◌, ◌||◌, List, [], ◌∷◌, Option, none, some, if◌then◌else◌, length,
  or_else,
}
use quantpaca.Js.Number.{Number, num, le, lt, neg, is_finite, number_or}
use quantpaca.Js.Arith.{ratio, add, div}
use quantpaca.Js.Text.{Text, text, includes, to_upper, filled as is_filled}
use quantpaca.Sizing.{TradePermission, allow, reduce_size, block_new_buys, close_only}
pub mod Permissions

pub record RegimeInput : Type 0 where
  pub spy_trend_percent : Option Number
  pub qqq_trend_percent : Option Number
  pub broad_market_drawdown_percent : Option Number
  pub volatility_proxy_percent : Option Number
  pub btc_trend_percent : Option Number
  pub symbol : Option Text

pub data MarketMode : Type 0 where
  risk_on risk_off volatile trend_up trend_down unclear : MarketMode

pub data VolatilityLevel : Type 0 where
  low normal high extreme : VolatilityLevel

-- A `RegimeAssessment` without its id, its time and its fixed reason text: of the reason only the
-- BTC trend that is put into it.
pub record RegimeAssessment : Type 0 where
  pub market_mode : MarketMode
  pub volatility_level : VolatilityLevel
  pub trade_permission : TradePermission
  pub size_multiplier : Number
  pub btc_trend_in_reason : Option Number
  pub is_crypto_linked : Bool

-- `Number.isFinite(value)` on a number that may be undefined.
unfoldable pub is_known : Option Number → Bool
is_known none = false
is_known (some n) = is_finite n

unfoldable pub has_market_data : RegimeInput → Bool
unfolding is_known
has_market_data input =
    is_known input.spy_trend_percent
    || (is_known input.qqq_trend_percent
        || (is_known input.broad_market_drawdown_percent
            || is_known input.volatility_proxy_percent))

finite_values : List (Option Number) → List Number
finite_values [] = []
finite_values (none ∷ l) = finite_values l
finite_values (some n ∷ l) = let rest = finite_values l in if is_finite n then n ∷ rest else rest

sum_onto : Number → List Number → Number
sum_onto s [] = s
sum_onto s (n ∷ l) = sum_onto (add s n) l

mean : List Number → Number
unfolding sum_onto
mean [] = num 0
mean (n ∷ l) = div (sum_onto (num 0) (n ∷ l)) (num (length (n ∷ l)))

unfoldable pub average : List (Option Number) → Number
unfolding mean finite_values
average values = mean (finite_values values)

-- `value || 0`
abbrev pub or_zero : Option Number → Number
or_zero none = num 0
or_zero (some n) = number_or n (num 0)

unfoldable pub volatility_of : Number → VolatilityLevel
volatility_of vol =
    if le (num 45) vol
    then extreme
    else if le (num 30) vol
    then high
    else if le vol (num 12)
    then low
    else normal

crypto_linked : Option Text → Bool
crypto_linked none = false
crypto_linked (some s) =
    is_filled s
    && includes (text "MARA" ∷ text "RIOT" ∷ text "COIN" ∷ text "MSTR" ∷ []) (to_upper s)

assessment :
    RegimeInput → MarketMode → VolatilityLevel → TradePermission → Number → RegimeAssessment
unfolding crypto_linked is_known
assessment input mode level permission multiplier =
    let linked = crypto_linked input.symbol in
    record {
      market_mode = mode;
      volatility_level = level;
      trade_permission = permission;
      size_multiplier = multiplier;
      btc_trend_in_reason =
          if linked && is_known input.btc_trend_percent then input.btc_trend_percent else none;
      is_crypto_linked = linked;
    }

abbrev pub is_extreme : VolatilityLevel → Bool
is_extreme extreme = true
is_extreme _ = false

abbrev pub is_high : VolatilityLevel → Bool
is_high high = true
is_high _ = false

-- The decision on the drawdown, the volatility and the trend.
unfoldable pub decide : RegimeInput → Number → VolatilityLevel → Number → RegimeAssessment
unfolding assessment
decide input drawdown level trend =
    if is_extreme level || le drawdown (neg (num 12))
    then assessment input risk_off level close_only (num 0)
    else if le drawdown (neg (num 7)) || lt trend (neg (num 3))
    then assessment input trend_down level block_new_buys (num 0)
    else if is_high level
    then assessment input volatile level reduce_size (ratio 1 2)
    else if lt (num 3) trend
    then assessment input trend_up level allow (num 1)
    else assessment input risk_on level allow (ratio 4 5)

unknown_regime : RegimeAssessment
unknown_regime = record {
  market_mode = unclear;
  volatility_level = normal;
  trade_permission = reduce_size;
  size_multiplier = ratio 1 2;
  btc_trend_in_reason = none;
  is_crypto_linked = false;
}

unfoldable pub detect_regime : RegimeInput → RegimeAssessment
unfolding unknown_regime
detect_regime input =
    if not (has_market_data input)
    then unknown_regime
    else decide input (or_zero input.broad_market_drawdown_percent)
        (volatility_of (or_zero input.volatility_proxy_percent))
        (average (input.spy_trend_percent ∷ input.qqq_trend_percent ∷ []))
