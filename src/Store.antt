-- ===== src/Store.antt =====
-- src/server/persistence.ts: the tables that `executeTradeIntent`, the exit monitor and the sells
-- read and write, as lists of rows; INSERT OR REPLACE takes the old row out and puts the new one in
-- front. Times are compared as numbers, which is the order of their ISO texts for the years to 9999.
use quantpaca.Base.{
  Bool, true, false, not, ◌&&◌, List, [], ◌∷◌, ◌++◌, map, Option, none, some, if◌then◌else◌, keep,
  any,
}
use quantpaca.Js.Number.{Number, lt, le, is_finite}
use quantpaca.Js.Text.{Text, text_eq}
use quantpaca.Trading.State.{TradeState, is_broker_success}
use quantpaca.Trading.Types.{PipelineTrade, ExitPlan, DoNotBuyEntry, Side, buy, sell}
use quantpaca.Execution.Run.{
  StoreEffect, save_breaker_state, append_audit_events, save_trade_intent, save_risk_decision,
  save_exit_plan, save_cooldown,
}
pub mod Lasting
pub mod Cooldowns
pub mod Plans

pub record ExitPlanRow : Type 0 where
  pub trade_id : Text
  pub timestamp : Number
  pub exit_plan : ExitPlan
  pub high_water_mark : Option Number

pub record Store : Type 0 where
  pub trade_intents : List PipelineTrade
  pub exit_plans : List ExitPlanRow
  pub symbol_cooldowns : List (Text × Number)
  pub do_not_buy : List DoNotBuyEntry

unfoldable pub put_trade_intent : PipelineTrade → Store → Store
put_trade_intent trade store = record store {
  trade_intents = trade ∷ keep (λ t. not (text_eq t.id trade.id)) store.trade_intents;
}

find_trade : Text → List PipelineTrade → Option PipelineTrade
find_trade id [] = none
find_trade id (t ∷ ts) = if text_eq t.id id then some t else find_trade id ts

unfoldable pub get_trade_intent_by_id : Text → Store → Option PipelineTrade
unfolding find_trade
get_trade_intent_by_id id store = find_trade id store.trade_intents

-- The mark starts at the entry price, where that is a finite number.
unfoldable pub seed_mark : Option Number → Option Number
seed_mark none = none
seed_mark (some entry) = if is_finite entry then some entry else none

unfoldable pub put_exit_plan : Number → Text → ExitPlan → Store → Store
put_exit_plan now id plan store = record store {
  exit_plans =
      record {
        trade_id = id;
        timestamp = now;
        exit_plan = plan;
        high_water_mark = seed_mark plan.entry_price;
      }
      ∷ keep (λ row. not (text_eq row.trade_id id)) store.exit_plans;
}

with_mark : Text → Number → ExitPlanRow → ExitPlanRow
with_mark id mark row =
    if text_eq row.trade_id id then record row { high_water_mark = some mark } else row

unfoldable pub update_high_water_mark : Text → Number → Store → Store
unfolding with_mark
update_high_water_mark id mark store = record store {
  exit_plans = map (with_mark id mark) store.exit_plans;
}

-- The row of an exit plan by the id of its trade.
unfoldable pub plan_row : Text → List ExitPlanRow → Option ExitPlanRow
plan_row id [] = none
plan_row id (row ∷ rows) = if text_eq row.trade_id id then some row else plan_row id rows

-- Rows that have expired are dropped on the way.
unfoldable pub put_cooldown : Number → Text → Number → Store → Store
put_cooldown now symbol expires_at store = record store {
  symbol_cooldowns =
      (symbol, expires_at)
      ∷ keep (λ (s, until). not (le until now) && not (text_eq s symbol)) store.symbol_cooldowns;
}

unfoldable pub list_active_cooldown_symbols : Number → Store → List Text
list_active_cooldown_symbols now store =
    map (λ (s, until). s) (keep (λ (s, until). lt now until) store.symbol_cooldowns)

unfoldable pub put_do_not_buy : Number → DoNotBuyEntry → Store → Store
put_do_not_buy now entry store = record store {
  do_not_buy =
      entry
      ∷ keep (λ e. not (le e.expires_at now) && not (text_eq e.symbol entry.symbol))
          store.do_not_buy;
}

unfoldable pub list_active_do_not_buy : Number → Store → List DoNotBuyEntry
list_active_do_not_buy now store = keep (λ e. lt now e.expires_at) store.do_not_buy

-- The store without the symbol's entry, and whether there was one.
unfoldable pub delete_do_not_buy : Text → Store → Store × Bool
delete_do_not_buy symbol store = (
  record store { do_not_buy = keep (λ e. not (text_eq e.symbol symbol)) store.do_not_buy },
  any (λ e. text_eq e.symbol symbol) store.do_not_buy,
)

-- A write of `executeTradeIntent`; the breaker, the audit and the risk decisions have tables of
-- their own, which are left out.
unfoldable pub apply_effect : Number → StoreEffect → Store → Store
unfolding put_trade_intent put_exit_plan put_cooldown
apply_effect now (save_trade_intent trade) store = put_trade_intent trade store
apply_effect now (save_exit_plan id plan) store = put_exit_plan now id plan store
apply_effect now (save_cooldown symbol until) store = put_cooldown now symbol until store
apply_effect now (save_breaker_state breaker latch) store = store
apply_effect now (append_audit_events events) store = store
apply_effect now (save_risk_decision id decision) store = store

unfoldable pub apply_effects : Number → List StoreEffect → Store → Store
unfolding apply_effect
apply_effects now [] store = store
apply_effects now (e ∷ es) store = apply_effects now es (apply_effect now e store)
