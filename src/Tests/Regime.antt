-- ===== src/Tests/Regime.antt =====
-- The regime and the limits at concrete inputs.
use quantpaca.Base.{◌≡◌, ◌≤◌, ◌↔◌, refl, true, [], ◌∷◌, Option, none, some}
use quantpaca.Js.Number.{num, neg, le, is_finite, number_or}
use quantpaca.Js.Arith.{add, div}
use quantpaca.Js.Text.{Text}
use quantpaca.Limits.{
  required_positive, raw_of, parsed_of, exposure_setting, baseline_name, load_risk_limits,
}
use quantpaca.Limits.Accepted.{AllPositive, IsPercent, IsBaseline, load_risk_limits_iff}
use quantpaca.Regime.{RegimeInput, has_market_data, or_zero, average, detect_regime}
use quantpaca.Regime.Permissions.{strictness, detect_regime_monotone}

abbrev calm : RegimeInput
calm = record {
  spy_trend_percent = some (num 2);
  qqq_trend_percent = none;
  broad_market_drawdown_percent = some (neg (num 1));
  volatility_proxy_percent = some (num 20);
  btc_trend_percent = none;
  symbol = none;
}

abbrev wild : RegimeInput
wild = record calm {
  broad_market_drawdown_percent = some (neg (num 9));
  volatility_proxy_percent = some (num 33);
}

calm_known : has_market_data calm ≡ true
unfolding has_market_data is_finite num
calm_known = refl

wild_known : has_market_data wild ≡ true
unfolding has_market_data is_finite num
wild_known = refl

deeper :
    le (or_zero wild.broad_market_drawdown_percent) (or_zero calm.broad_market_drawdown_percent)
    ≡ true
unfolding le num neg number_or
deeper = refl

higher : le (or_zero calm.volatility_proxy_percent) (or_zero wild.volatility_proxy_percent) ≡ true
unfolding le num number_or
higher = refl

same_trend :
    le
      (average (wild.spy_trend_percent ∷ wild.qqq_trend_percent ∷ []))
      (average (calm.spy_trend_percent ∷ calm.qqq_trend_percent ∷ []))
    ≡ true
unfolding le average num add div is_finite
same_trend = refl

detect_regime_monotone_example :
    strictness (detect_regime calm).trade_permission
    ≤ strictness (detect_regime wild).trade_permission
detect_regime_monotone_example =
    detect_regime_monotone calm wild calm_known wild_known deeper higher same_trend

abbrev unset : Text → Option Text
unset _ = none

load_risk_limits_iff_example : ((load_risk_limits unset).errors ≡ []) ↔ (
    AllPositive unset required_positive
    × IsPercent (parsed_of (raw_of unset exposure_setting) exposure_setting.name)
    × IsBaseline (unset baseline_name))
load_risk_limits_iff_example = load_risk_limits_iff unset
