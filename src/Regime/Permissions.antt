-- ===== src/Regime/Permissions.antt =====
-- What a market that gets worse may still permit.
use quantpaca.Base.{ℕ, ◌≤◌, ◌≡◌, true, [], ◌∷◌, arith}
use quantpaca.Js.Number.{Number, num, le, lt, neg}
use quantpaca.Js.Order.{le_trans}
use quantpaca.Sizing.{TradePermission, allow, reduce_size, block_new_buys, close_only}
use quantpaca.Regime.{
  RegimeInput, VolatilityLevel, has_market_data, or_zero, volatility_of, average, decide,
  detect_regime,
}

-- How much a permission forbids.
abbrev pub strictness : TradePermission → ℕ
strictness allow = 0
strictness reduce_size = 1
strictness block_new_buys = 2
strictness close_only = 3

abbrev pub severity : VolatilityLevel → ℕ
severity VolatilityLevel.low = 0
severity VolatilityLevel.normal = 0
severity VolatilityLevel.high = 1
severity VolatilityLevel.extreme = 2

severity-volatility_of :
    (calm wild : Number)
    → le calm wild ≡ true
    → severity (volatility_of calm) ≤ severity (volatility_of wild)
unfolding volatility_of
severity-volatility_of calm wild h =
    ground (arith, le_trans (num 45) calm wild, le_trans (num 30) calm wild)

le-lt_trans : (a b c : Number) → le a b ≡ true → lt b c ≡ true → lt a c ≡ true
unfolding le
le-lt_trans a b c h k = ground arith

-- On the same data with a drawdown that is as deep or deeper, a volatility level that is as severe
-- or more severe, and a trend that is as low or lower, the regime permits no more than before.
decide_monotone :
    (before after : RegimeInput) (mild deep : Number) (calm wild : VolatilityLevel)
    (rising falling : Number)
    → le deep mild ≡ true
    → severity calm ≤ severity wild
    → le falling rising ≡ true
    → strictness (decide before mild calm rising).trade_permission
      ≤ strictness (decide after deep wild falling).trade_permission
unfolding decide
decide_monotone before after mild deep calm wild rising falling d v t = ground (
  arith,
  le_trans deep mild (neg (num 12)) d,
  le_trans deep mild (neg (num 7)) d,
  le-lt_trans falling rising (neg (num 3)) t,
)

-- When both inputs have market data, and the second has a drawdown as deep or deeper, a volatility as
-- high or higher and an average trend as low or lower, its regime permits no more than the first's.
pub detect_regime_monotone :
    (before after : RegimeInput)
    → has_market_data before ≡ true
    → has_market_data after ≡ true
    → le
        (or_zero after.broad_market_drawdown_percent)
        (or_zero before.broad_market_drawdown_percent)
      ≡ true
    → le (or_zero before.volatility_proxy_percent) (or_zero after.volatility_proxy_percent) ≡ true
    → le
        (average (after.spy_trend_percent ∷ after.qqq_trend_percent ∷ []))
        (average (before.spy_trend_percent ∷ before.qqq_trend_percent ∷ []))
      ≡ true
    → strictness (detect_regime before).trade_permission
      ≤ strictness (detect_regime after).trade_permission
unfolding detect_regime
detect_regime_monotone before after k l drawdown volatility trend =
    rw (k, l)
      (decide_monotone before after _ _ _ _ _ _ drawdown (severity-volatility_of _ _ volatility)
        trend)
