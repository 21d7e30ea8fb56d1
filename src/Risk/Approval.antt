-- ===== src/Risk/Approval.antt =====
-- Exactly when the review approves a trade.
use quantpaca.Risk.Passes.{Passes, approved-Passes, Passes-approved}
use quantpaca.Risk.Readings.{le_at, le-zero_at, always_needed, loss_gate_at, pdt_at, reserve_at}
use quantpaca.Base.{◌≡◌, sym, ◌∙◌, ◌⊎◌, ◌↔◌, true, false, arith, is_some}
use mathlib.Core.Bool.{false≢true}
use quantpaca.Js.Number.{num, lt, abs, neg, is_finite}
use quantpaca.Js.Arith.{sub}
use quantpaca.Trading.Types.{
  RiskDecision, sell, paper, approved, RiskField, intent_qty, intent_notional,
  portfolio_buying_power, metrics_daily_loss, metrics_daily_trade_count,
  metrics_open_position_count, metrics_account_equity, metrics_day_trade_count,
  limits_max_daily_loss, limits_max_daily_trade_count, limits_max_open_positions,
  limits_min_buying_power,
}
use quantpaca.Trading.Symbol.{validate_symbol}
use quantpaca.Risk.Portfolio.{ok as untripped}
use quantpaca.Risk.Gates.{RiskInput, has_position, has_open_duplicate, lists}
use quantpaca.Risk.Fields.{Parsed, is_optional_for}
use quantpaca.Risk.Engine.{pdt_equity_min, pdt_max_day_trades, review_risk}
use quantpaca.Risk.Numbers.{amount, Reads, Reviewed, refused, decided, review_risk-Reviewed}

-- What a trade needs to be approved, over the numbers that its input stands for.
pub record IsCleared (input : RiskInput) : Type 0 where
  pub numbers :
      (f : RiskField)
      → is_optional_for input.intent.side f ≡ false
      → is_finite (amount input f) ≡ true
  pub untripped_for_buys : (input.intent.side ≡ sell) ⊎ (input.breaker_status ≡ untripped)
  pub symbol_valid : (validate_symbol input.intent.symbol).valid ≡ true
  pub mode_open :
      (input.broker_config.trading_mode ≡ paper) ⊎ (input.broker_config.live_trading_enabled ≡ true)
  pub planned : is_some input.exit_plan ≡ true
  pub quantity : lt (num 0) (amount input intent_qty) ≡ true
  pub worth : lt (num 0) (amount input intent_notional) ≡ true
  pub loss_within :
      (is_finite (amount input metrics_daily_loss) ≡ false)
      ⊎ (lt (neg (abs (amount input limits_max_daily_loss))) (amount input metrics_daily_loss)
          ≡ true)
  pub trades_within :
      lt (amount input metrics_daily_trade_count) (amount input limits_max_daily_trade_count) ≡ true
  pub day_trades_within :
      (input.intent.side ≡ sell)
      ⊎ (lt (amount input metrics_account_equity) pdt_equity_min ≡ false)
      ⊎ (lt (amount input metrics_day_trade_count) pdt_max_day_trades ≡ true)
  pub room :
      (lt (amount input metrics_open_position_count) (amount input limits_max_open_positions)
        ≡ true)
      ⊎ (has_position input.portfolio input.intent.symbol ≡ true)
  pub reserve_kept :
      lt
        (sub (amount input portfolio_buying_power) (amount input intent_notional))
        (amount input limits_min_buying_power)
      ≡ false
  pub no_duplicate : has_open_duplicate input.portfolio input.intent ≡ false
  pub not_cooling : lists input.limits.cooldown_symbols input.intent.symbol ≡ false
  pub no_conflict : lists input.limits.cross_source_conflict_symbols input.intent.symbol ≡ false

module _ (input : RiskInput) (p : Parsed) (r : Reads input p) where
  Passes-IsCleared : Passes input p → IsCleared input
  Passes-IsCleared h =
      let needed = always_needed input.intent.side in
      record {
        numbers = r.needed;
        untripped_for_buys = ground (arith, h.breaker_test);
        symbol_valid = h.symbol_test;
        mode_open = ground (arith, h.mode_test);
        planned = h.plan_test;
        quantity = ground (arith, h.qty_test, le-zero_at input p r intent_qty needed.0);
        worth = ground (arith, h.notional_test, le-zero_at input p r intent_notional needed.1);
        loss_within = (loss_gate_at input p r).0 h.loss_test;
        trades_within = ground (
          arith,
          h.trades_test,
          le_at input p r limits_max_daily_trade_count metrics_daily_trade_count needed.6 needed.3,
        );
        day_trades_within = (pdt_at input p r).0 h.pdt_test;
        room = ground (
          arith,
          h.room_test,
          le_at input p r limits_max_open_positions metrics_open_position_count needed.7 needed.4,
        );
        reserve_kept = sym (reserve_at input p r) ∙ h.reserve_test;
        no_duplicate = h.duplicate_test;
        not_cooling = h.cooldown_test;
        no_conflict = h.conflict_test;
      }

  IsCleared-Passes : IsCleared input → Passes input p
  IsCleared-Passes c =
      let needed = always_needed input.intent.side in
      record {
        breaker_test = ground (arith, c.untripped_for_buys);
        symbol_test = c.symbol_valid;
        mode_test = ground (arith, c.mode_open);
        plan_test = c.planned;
        qty_test = ground (arith, c.quantity, le-zero_at input p r intent_qty needed.0);
        notional_test = ground (arith, c.worth, le-zero_at input p r intent_notional needed.1);
        loss_test = (loss_gate_at input p r).1 c.loss_within;
        trades_test = ground (
          arith,
          c.trades_within,
          le_at input p r limits_max_daily_trade_count metrics_daily_trade_count needed.6 needed.3,
        );
        pdt_test = (pdt_at input p r).1 c.day_trades_within;
        room_test = ground (
          arith,
          c.room,
          le_at input p r limits_max_open_positions metrics_open_position_count needed.7 needed.4,
        );
        reserve_test = reserve_at input p r ∙ c.reserve_kept;
        duplicate_test = c.no_duplicate;
        cooldown_test = c.not_cooling;
        conflict_test = c.no_conflict;
      }

approved_of_Reviewed :
    (input : RiskInput) (d : RiskDecision)
    → Reviewed input d
    → (d.status ≡ approved) ↔ IsCleared input
approved_of_Reviewed input _ (refused f needed bad) =
    (λ h. cc, λ c. absurd (false≢true (sym bad ∙ c.numbers f needed)))
approved_of_Reviewed input _ (decided p r) = (
  λ h. Passes-IsCleared input p r (approved-Passes input p h),
  λ c. Passes-approved input p (IsCleared-Passes input p r c),
)

-- The review approves a trade exactly if it is cleared: every number that its side needs is finite,
-- for a buy the breaker is not tripped and the day-trade guard does not apply, the symbol and the
-- trading mode are admissible, an exit plan is attached, quantity and worth are positive, the daily
-- loss (where it is known) and trade count are below their limits, there is room or a position, the
-- reserve is kept, no open order duplicates it, and the symbol is neither cooling nor in conflict.
pub approved_iff_IsCleared :
    (input : RiskInput) → ((review_risk input).status ≡ approved) ↔ IsCleared input
approved_iff_IsCleared input = approved_of_Reviewed input _ (review_risk-Reviewed input)
