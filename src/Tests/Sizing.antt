-- ===== src/Tests/Sizing.antt =====
-- Sizing at concrete inputs.
use quantpaca.Base.{◌≡◌, refl, true, []}
use quantpaca.Js.Number.{num, le, lt, max, min, abs, is_finite}
use quantpaca.Js.Arith.{ratio, sub, mul, div, floor}
use quantpaca.Js.Text.{text}
use quantpaca.Trading.Types.{buy}
use quantpaca.Sizing.{
  CapLimits, SizingPortfolio, SizingInput, allow, compute_cap_room, cap_room_to_qty, is_blocked,
  scaled_notional, confidence_multiplier, is_wide_stop, allowed_of, size_trade_intent,
}

abbrev limits : CapLimits
limits = record {
  max_single_position_percent = num 10;
  max_portfolio_exposure_percent = num 60;
  max_notional_per_trade = num 5000;
  min_buying_power_after_trade = num 100;
}

abbrev portfolio : SizingPortfolio
portfolio = record {
  equity = num 30000;
  long_market_value = num 3000;
  pending_order_notional = num 0;
  buying_power = num 20000;
  per_symbol_concentration = [];
}

abbrev input : SizingInput
input = record {
  signal_accepted = true;
  symbol = text "NVDA";
  confidence_score = num 80;
  trade_permission = allow;
  size_multiplier = num 1;
  portfolio = portfolio;
  side = buy;
  estimated_price = num 100;
  stop_loss_price = num 95;
  limits = limits;
}

sized_24 : (size_trade_intent input).qty ≡ num 24
unfolding size_trade_intent compute_cap_room cap_room_to_qty is_blocked scaled_notional
    confidence_multiplier is_wide_stop allowed_of num max min sub mul div floor ratio abs le lt
    is_finite
sized_24 = refl

sized_some : lt (num 0) (size_trade_intent input).qty ≡ true
unfolding lt num
sized_some = rw sized_24 refl
