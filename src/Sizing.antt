-- ===== src/Sizing.antt =====
-- src/server/sizingEngine.ts: how many shares a trade may have.
use quantpaca.Base.{
  Bool, true, false, not, ◌&&◌, ◌||◌, List, [], ◌∷◌, ◌++◌, any, if◌then◌else◌, Option, none, some,
}
use quantpaca.Js.Number.{Number, num, lt, le, eq, max, min, abs, is_finite, number_or}
use quantpaca.Js.Arith.{ratio, sub, mul, div, floor, round}
use quantpaca.Js.Text.{Text, text_eq}
use quantpaca.Trading.Types.{Side, buy, sell}
pub mod Bounds

pub record CapLimits : Type 0 where
  pub max_single_position_percent : Number
  pub max_portfolio_exposure_percent : Number
  pub max_notional_per_trade : Number
  pub min_buying_power_after_trade : Number

pub data Cap : Type 0 where
  max_single_position max_portfolio_exposure buying_power_cap max_notional : Cap
  signal_confidence stop_distance regime_multiplier : Cap
  signal_rejected regime_block missing_price : Cap

pub record CapRoom : Type 0 where
  pub allowed_notional : Number
  pub caps_applied : List Cap

-- The fields of a `PortfolioAssessment` that sizing reads.
pub record SizingPortfolio : Type 0 where
  pub equity : Number
  pub long_market_value : Number
  pub pending_order_notional : Number
  pub buying_power : Number
  pub per_symbol_concentration : List (Text × Number)

-- `record[key]`
unfoldable pub lookup : Text → List (Text × Number) → Option Number
lookup key [] = none
lookup key ((k, n) ∷ l) = if text_eq k key then some n else lookup key l

abbrev pub known_or : Option Number → Number → Number
known_or none n = n
known_or (some m) n = number_or m n

unfoldable pub remaining_position : SizingPortfolio → Text → CapLimits → Number
unfolding lookup
remaining_position portfolio symbol limits =
    let current = known_or (lookup symbol portfolio.per_symbol_concentration) (num 0) in
    max (num 0) (
      sub (mul portfolio.equity (div limits.max_single_position_percent (num 100)))
        (mul (div current (num 100)) portfolio.equity))

unfoldable pub remaining_exposure : SizingPortfolio → CapLimits → Number
remaining_exposure portfolio limits = max (num 0) (
    sub
      (sub (mul portfolio.equity (div limits.max_portfolio_exposure_percent (num 100)))
        portfolio.long_market_value)
      portfolio.pending_order_notional)

unfoldable pub usable_buying_power : SizingPortfolio → CapLimits → Number
usable_buying_power portfolio limits =
    max (num 0) (sub portfolio.buying_power limits.min_buying_power_after_trade)

-- `Math.min` of the four caps.
unfoldable pub allowed_of : SizingPortfolio → Text → CapLimits → Number
unfolding remaining_position remaining_exposure usable_buying_power
allowed_of portfolio symbol limits = min (remaining_position portfolio symbol limits) (
    min (remaining_exposure portfolio limits)
      (min (usable_buying_power portfolio limits) limits.max_notional_per_trade))

abbrev pub cap_if : Bool → Cap → List Cap
cap_if true c = c ∷ []
cap_if false c = []

unfoldable pub compute_cap_room : SizingPortfolio → Text → CapLimits → CapRoom
unfolding allowed_of
compute_cap_room portfolio symbol limits =
    let allowed = allowed_of portfolio symbol limits in
    record {
      allowed_notional = allowed;
      caps_applied =
          cap_if (eq allowed (remaining_position portfolio symbol limits)) max_single_position
          ++ (cap_if (eq allowed (remaining_exposure portfolio limits)) max_portfolio_exposure
              ++ (cap_if (eq allowed (usable_buying_power portfolio limits)) buying_power_cap
                  ++ cap_if (eq allowed limits.max_notional_per_trade) max_notional));
    }

unfoldable pub cap_room_to_qty : Number → Number → Number
cap_room_to_qty allowed price =
    if not (is_finite price) || le price (num 0)
    then num 0
    else max (num 0) (floor (div allowed price))

pub data TradePermission : Type 0 where
  allow reduce_size block_new_buys close_only : TradePermission

pub record SizingInput : Type 0 where
  pub signal_accepted : Bool
  pub symbol : Text
  pub confidence_score : Number
  pub trade_permission : TradePermission
  pub size_multiplier : Number
  pub portfolio : SizingPortfolio
  pub side : Side
  pub estimated_price : Number
  pub stop_loss_price : Number
  pub limits : CapLimits

-- A `SizedTradeIntent` without its random id and its fixed reason text.
pub record Sized : Type 0 where
  pub symbol : Text
  pub side : Side
  pub qty : Number
  pub notional : Number
  pub estimated_price : Number
  pub caps_applied : List Cap

empty_intent : SizingInput → Cap → Sized
empty_intent input cap = record {
  symbol = input.symbol;
  side = input.side;
  qty = num 0;
  notional = num 0;
  estimated_price = input.estimated_price;
  caps_applied = cap ∷ [];
}

unfoldable pub is_blocked : TradePermission → Side → Bool
is_blocked close_only side = true
is_blocked block_new_buys buy = true
is_blocked block_new_buys sell = false
is_blocked allow side = false
is_blocked reduce_size side = false

unfoldable pub confidence_multiplier : Number → Number
confidence_multiplier score = max (ratio 1 4) (min (num 1) (div score (num 100)))

unfoldable pub is_wide_stop : SizingInput → Bool
is_wide_stop input =
    lt (ratio 8 100)
      (div (abs (sub input.estimated_price input.stop_loss_price)) input.estimated_price)

-- The allowed notional after the confidence, the stop distance and the regime.
unfoldable pub scaled_notional : SizingInput → Number → Number
unfolding confidence_multiplier is_wide_stop
scaled_notional input allowed =
    let confident = mul allowed (confidence_multiplier input.confidence_score) in
    let stopped = if is_wide_stop input then mul confident (ratio 3 4) else confident in
    if lt input.size_multiplier (num 1) then mul stopped input.size_multiplier else stopped

unfoldable pub size_trade_intent : SizingInput → Sized
unfolding empty_intent
size_trade_intent input =
    if not input.signal_accepted
    then empty_intent input signal_rejected
    else if is_blocked input.trade_permission input.side
    then empty_intent input regime_block
    else if not (is_finite input.estimated_price) || le input.estimated_price (num 0)
    then empty_intent input missing_price
    else let room = compute_cap_room input.portfolio input.symbol input.limits in
      let qty =
        cap_room_to_qty (scaled_notional input room.allowed_notional) input.estimated_price in
      record {
        symbol = input.symbol;
        side = input.side;
        qty = qty;
        notional = div (round (mul (mul qty input.estimated_price) (num 100))) (num 100);
        estimated_price = input.estimated_price;
        caps_applied =
            room.caps_applied
            ++ (signal_confidence
                ∷ (cap_if (is_wide_stop input) stop_distance
                    ++ cap_if (lt input.size_multiplier (num 1)) regime_multiplier));
      }
