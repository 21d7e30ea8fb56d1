-- ===== src/Execution/Decision/Gates.antt =====
-- What `executeTradeIntent` in src/server.ts needs to let a trade out, and what it asks of a buy
-- alone.
use quantpaca.Base.{
  ◌≡◌, refl, sym, ap, ◌∙◌, ◌↔◌, ◌⊎◌, inl, inr, Bool, true, false, List, Option, none, some, arith,
  Option-cases,
}
use quantpaca.Js.Number.{num, lt}
use quantpaca.Js.Text.{Text}
use quantpaca.Trading.Types.{
  Side, buy, sell, ExitPlan, TradeRequest, RiskDecision, RiskStatus, approved, DoNotBuyEntry,
}
use quantpaca.Risk.Portfolio.{OpenOrder}
use quantpaca.Risk.Engine.{review_risk}
use quantpaca.Risk.Approval.{IsCleared, approved_iff_IsCleared}
use quantpaca.Breaker.Engine.{BreakerState}
use quantpaca.Portfolio.{AlpacaAccount}
use quantpaca.Startup.{GateState, buy_gate_rejection_reason}
use quantpaca.Tradability.{AssetResponse, PositiveCache, check_asset_tradable}
use quantpaca.Execution.Context.{Context}
use quantpaca.Execution.Decision.{
  find_entry, cooldown_symbols, daily_loss, daily_trade_count, gate_of, guarded, tradability_gate,
  store_gates, cooldown_gate, do_not_buy_gate, listed_gate, risk_input, decide,
}

-- What a buy needs before it is reviewed.
pub record IsBuyable (ctx : Context) (request : TradeRequest) : Type 0 where
  pub reconciled : buy_gate_rejection_reason buy ctx.gate ≡ none
  pub market_open : ctx.market_known_closed ≡ false
  pub tradable :
      (ctx.broker_config.configured ≡ false)
      ⊎ ((check_asset_tradable request.symbol ctx.now ctx.asset ctx.cache).0.tradable ≡ true)
  pub cooldowns_read :
      (lt (num 0) ctx.symbol_cooldown_hours ≡ false)
      ⊎ ((symbols : List Text) × (ctx.active_cooldowns ≡ some symbols))
  pub not_listed :
      (entries : List DoNotBuyEntry) × (ctx.active_do_not_buy ≡ some entries)
      × (find_entry request.symbol entries ≡ none)

buy_gates :
    (ctx : Context) (request : TradeRequest)
    → request.side ≡ buy
    → (gate_of ctx request).0 ≡ none
    → IsBuyable ctx request
unfolding gate_of guarded tradability_gate store_gates cooldown_gate do_not_buy_gate listed_gate
buy_gates ctx request bought h = ground arith

open_gates :
    (ctx : Context) (request : TradeRequest)
    → request.side ≡ buy
    → IsBuyable ctx request
    → (gate_of ctx request).0 ≡ none
unfolding gate_of guarded tradability_gate store_gates cooldown_gate do_not_buy_gate listed_gate
open_gates ctx request bought h = ground arith

sell_gates :
    (ctx : Context) (request : TradeRequest) → request.side ≡ sell → (gate_of ctx request).0 ≡ none
unfolding gate_of store_gates cooldown_gate do_not_buy_gate buy_gate_rejection_reason
sell_gates ctx request sold = ground arith

abbrev status_of : RiskDecision → RiskStatus
status_of decision = decision.status

Side-cases : (side : Side) → (side ≡ buy) ⊎ (side ≡ sell)
Side-cases buy = inl refl
Side-cases sell = inr refl

passes_gates :
    (ctx : Context) (request : TradeRequest)
    → (request.side ≡ buy → IsBuyable ctx request)
    → (gate_of ctx request).0 ≡ none
passes_gates ctx request h = elim (Side-cases request.side) [
  | inl bought ↦ open_gates ctx request bought (h bought)
  | inr sold ↦ sell_gates ctx request sold
]

module _ (ctx : Context) (account : AlpacaAccount) (orders : List OpenOrder)
    (breaker : BreakerState) (plan : ExitPlan) (request : TradeRequest) where
  decide_reviewed :
      (gate_of ctx request).0 ≡ none
      → decide ctx account orders breaker plan request
        ≡ review_risk (risk_input ctx account orders breaker plan request)
  unfolding decide
  decide_reviewed h = rw (decide, h) refl

  approved_gate :
      (decide ctx account orders breaker plan request).status ≡ approved
      → (gate_of ctx request).0 ≡ none
  unfolding decide
  approved_gate h = elim (Option-cases (gate_of ctx request).0) [
    | inl passed ↦ passed
    | inr (gate, stopped) ↦ ground (arith, stopped)
  ]

-- A trade is approved exactly if the review's conditions hold and, for a buy, the start-up check is
-- done without orphans, the market is not known to be closed, the asset is tradable unless the
-- broker is simulated, and the cooldowns and the do-not-buy list can be read and the list does not
-- hold the symbol.
pub decide_iff :
    (ctx : Context) (account : AlpacaAccount) (orders : List OpenOrder) (breaker : BreakerState)
    (plan : ExitPlan) (request : TradeRequest)
    → ((decide ctx account orders breaker plan request).status ≡ approved) ↔ (
        (request.side ≡ buy → IsBuyable ctx request)
        × IsCleared (risk_input ctx account orders breaker plan request))
decide_iff ctx account orders breaker plan request =
    let (review, approve) =
      approved_iff_IsCleared (risk_input ctx account orders breaker plan request) in
    (
      λ h.
          let passed = approved_gate ctx account orders breaker plan request h in
          (
            λ bought. buy_gates ctx request bought passed,
            review (
                sym (ap status_of (decide_reviewed ctx account orders breaker plan request passed))
                ∙ h),
          ),
      λ (buyable, cleared).
          ap status_of (
            decide_reviewed ctx account orders breaker plan request
              (passes_gates ctx request buyable))
          ∙ approve cleared,
    )

-- Nothing that stops buys before the review changes the decision on a sell: not the start-up check,
-- the closed market, the cooldowns, the do-not-buy list, the tradability guard or its cache.
pub sell_ignores_gates :
    (ctx : Context) (account : AlpacaAccount) (orders : List OpenOrder) (breaker : BreakerState)
    (plan : ExitPlan) (request : TradeRequest) (gate : GateState) (closed : Bool)
    (cooldowns : Option (List Text)) (listed : Option (List DoNotBuyEntry))
    (asset : Text → AssetResponse) (cache : PositiveCache)
    → request.side ≡ sell
    → decide
        (record ctx {
          gate = gate;
          market_known_closed = closed;
          active_cooldowns = cooldowns;
          active_do_not_buy = listed;
          asset = asset;
          cache = cache;
        })
        account
        orders
        breaker
        plan
        request
      ≡ decide ctx account orders breaker plan request
unfolding risk_input cooldown_symbols daily_loss daily_trade_count
sell_ignores_gates ctx account orders breaker plan request gate closed cooldowns listed asset cache
      sold =
    let other : Context = record ctx {
      gate = gate;
      market_known_closed = closed;
      active_cooldowns = cooldowns;
      active_do_not_buy = listed;
      asset = asset;
      cache = cache;
    } in
    let same : risk_input other account orders breaker plan request
        ≡ risk_input ctx account orders breaker plan request =
      rw sold refl in
    decide_reviewed other account orders breaker plan request (sell_gates other request sold)
    ∙ (ap review_risk same
        ∙ sym
            (decide_reviewed ctx account orders breaker plan request (sell_gates ctx request sold)))
