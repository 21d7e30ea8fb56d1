-- ===== src/Execution/Run/Sent.antt =====
-- Which trades of `executeTradeIntent` in src/server.ts reach the broker.
use quantpaca.Base.{
  ◌≡◌, ◌≢◌, refl, sym, ap, ◌∙◌, ◌↔◌, inl, inr, List, [], ◌∷◌, Option, none, some, arith,
}
use mathlib.Core.List.{append-nil}
use quantpaca.Js.Number.{Number}
use quantpaca.Js.Text.{Text}
use quantpaca.Trading.Types.{buy, TradeRequest, RiskDecision, ExitPlan, approved_with_reduced_size}
use quantpaca.Trading.Pipeline.{SubmitTradeInput, client_order_id_of}
use quantpaca.Trading.Gate.{IsAdmitted, submissions_gate}
use quantpaca.Breaker.Engine.{BreakerState}
use quantpaca.Risk.Portfolio.{OpenOrder}
use quantpaca.Risk.Gates.{RiskInput}
use quantpaca.Risk.Engine.{review_risk, review_outcome, review_parsed, review_limits, review_orders}
use quantpaca.Risk.Approval.{IsCleared}
use quantpaca.Portfolio.{AlpacaAccount}
use quantpaca.Orders.{OrderPost, OrderReply, LookupReply, Placement}
use quantpaca.Orders.Posts.{IsOpen, place_alpaca_order-IsOpen}
use quantpaca.Execution.Context.{Context, normalize_request}
use quantpaca.Execution.Decision.{latched_breaker, plan_for, decide, risk_input}
use quantpaca.Execution.Decision.Gates.{IsBuyable, decide_iff}
use quantpaca.Execution.Run.{
  Execution, placement, run_pipeline, sent, settle_trade, execute_planned, execute_read,
  execute_normalized, execute_trade_intent,
}

not_reduced_review : (input : RiskInput) → (review_risk input).status ≢ approved_with_reduced_size
unfolding review_risk review_outcome review_parsed review_limits review_orders
not_reduced_review input h = ground arith

not_reduced :
    (ctx : Context) (account : AlpacaAccount) (orders : List OpenOrder) (breaker : BreakerState)
    (plan : ExitPlan) (request : TradeRequest)
    → (decide ctx account orders breaker plan request).status ≢ approved_with_reduced_size
unfolding decide
not_reduced ctx account orders breaker plan request h =
    ground (arith, not_reduced_review (risk_input ctx account orders breaker plan request))

module _ (sha256_hex : Text → Text) (fixed2 : Number → Text) (show_number : Number → Text)
    (post : OrderPost → OrderReply) (find : Text → LookupReply) where
  -- What a trade needs to be posted, over what is read for it.
  pub record IsExecutable (ctx : Context) (request : TradeRequest) : Type 0 where
    pub account : AlpacaAccount
    pub account_read : ctx.account ≡ some account
    pub orders : List OpenOrder
    pub orders_read : ctx.open_orders ≡ some orders
    pub plan : ExitPlan
    pub planned : plan_for ctx request ≡ some plan
    pub buyable : request.side ≡ buy → IsBuyable ctx request
    pub cleared : IsCleared (
        risk_input ctx account orders
          (latched_breaker fixed2 show_number ctx account).effective
          plan
          request)
    pub mode_open : IsOpen ctx.broker_config

  sent_none :
      (place : Text → Placement) (ids : List Text)
      → ids ≡ []
      → (sent sha256_hex fixed2 show_number post find place ids).0 ≡ []
  unfolding sent
  sent_none place ids h = rw h refl

  sent_one :
      (place : Text → Placement) (ids : List Text) (id : Text)
      → ids ≡ id ∷ []
      → (sent sha256_hex fixed2 show_number post find place ids).0 ≡ (place id).posts
  unfolding sent
  sent_one place ids id h = rw h (append-nil (place id).posts)

  module _ (ctx : Context) (account : AlpacaAccount) (orders : List OpenOrder)
      (request : TradeRequest) (plan : ExitPlan) where
    abbrev planned_run : Execution
    planned_run =
        execute_planned sha256_hex fixed2 show_number post find ctx account orders request plan

    abbrev decision : RiskDecision
    decision =
        decide ctx account orders (latched_breaker fixed2 show_number ctx account).effective plan
          request

    abbrev submitted : SubmitTradeInput
    submitted = record {
      request = request;
      broker_config = ctx.broker_config;
      risk_decision = decision;
      exit_plan = some plan;
    }

    -- With the plan at hand, orders go out exactly for an admitted trade on an open broker.
    planned_posts : (planned_run.posts ≢ []) ↔ (IsAdmitted submitted × IsOpen ctx.broker_config)
    unfolding execute_planned settle_trade run_pipeline placement
    planned_posts =
        elim (submissions_gate sha256_hex show_number
          (λ id.
            (placement sha256_hex fixed2 show_number post find ctx plan decision request
              id).outcome)
          submitted ctx.around) [
            | inl (admitted, one) ↦
                let id = client_order_id_of sha256_hex show_number submitted (ctx.around.clock 0) in
                let same =
                  sent_one
                    (placement sha256_hex fixed2 show_number post find ctx plan decision request) _
                    id one in
                let (to, from) =
                  place_alpaca_order-IsOpen post find show_number ctx.broker_config ctx.now
                    request.symbol _ request.side id _ in
                (λ h. (admitted, to (λ e. h (same ∙ e))), λ (a, ready) e. from ready (sym same ∙ e))
            | inr (refused, zero, rest) ↦
                let same =
                  sent_none
                    (placement sha256_hex fixed2 show_number post find ctx plan decision request) _
                    zero in
                (λ h. absurd (h same), λ (a, ready). absurd (refused a))
          ]

    IsAdmitted-iff : IsAdmitted submitted ↔ (
        (request.side ≡ buy → IsBuyable ctx request)
        × IsCleared (
            risk_input ctx account orders
              (latched_breaker fixed2 show_number ctx account).effective
              plan
              request))
    unfolding risk_input
    IsAdmitted-iff =
        let breaker = (latched_breaker fixed2 show_number ctx account).effective in
        let (to, from) = decide_iff ctx account orders breaker plan request in
        let never = not_reduced ctx account orders breaker plan request in
        (
          λ h. elim h.cleared [ inl ok ↦ to ok | inr reduced ↦ absurd (never reduced) ],
          λ (buyable, cleared). record {
            symbol_valid = cleared.symbol_valid;
            planned = refl;
            cleared = inl (from (buyable, cleared));
            mode_open = cleared.mode_open;
          },
        )

  abbrev executed :
      Context
      → TradeRequest
      → Option AlpacaAccount
      → Option (List OpenOrder)
      → Option ExitPlan
      → Execution
  executed = execute_read sha256_hex fixed2 show_number post find

  posts_need :
      (ctx : Context) (request : TradeRequest) (a : Option AlpacaAccount)
      (o : Option (List OpenOrder)) (p : Option ExitPlan)
      → (executed ctx request a o p).posts ≢ []
      → (account : AlpacaAccount) × (orders : List OpenOrder) × (plan : ExitPlan) × (a
          ≡ some account)
        × (o ≡ some orders)
        × (p ≡ some plan)
  unfolding execute_read
  posts_need ctx request none o p h = absurd (h refl)
  posts_need ctx request (some account) none p h = absurd (h refl)
  posts_need ctx request (some account) (some orders) none h = absurd (h refl)
  posts_need ctx request (some account) (some orders) (some plan) h =
      (account, orders, plan, refl, refl, refl)

  execute_reads :
      (ctx : Context) (account : AlpacaAccount) (orders : List OpenOrder) (request : TradeRequest)
      (plan : ExitPlan) (a : Option AlpacaAccount) (o : Option (List OpenOrder))
      (p : Option ExitPlan)
      → a ≡ some account
      → o ≡ some orders
      → p ≡ some plan
      → executed ctx request a o p ≡ planned_run ctx account orders request plan
  unfolding execute_read
  execute_reads ctx account orders request plan a o p ha ho hp = rw (ha, ho, hp) refl

  -- An order goes out exactly where the account, the open orders and a plan can be had, every gate
  -- and the review pass on the request with its symbol normalised, a broker is configured and the
  -- mode is open.
  pub execute_iff :
      (ctx : Context) (request : TradeRequest)
      → ((execute_trade_intent sha256_hex fixed2 show_number post find ctx request).posts ≢ [])
        ↔ IsExecutable ctx (normalize_request request)
  unfolding execute_trade_intent execute_normalized
  execute_iff ctx request =
      let normal = normalize_request request in
      (
        λ h.
            let (account, orders, plan, a, o, p) = posts_need ctx normal _ _ _ h in
            let same = execute_reads ctx account orders normal plan _ _ _ a o p in
            let (admitted, mode_open) =
              (planned_posts ctx account orders normal plan).0
                (λ e. h (ap (λ x. x.posts) same ∙ e)) in
            let (buyable, cleared) = (IsAdmitted-iff ctx account orders normal plan).0 admitted in
            record {
              account = account;
              account_read = a;
              orders = orders;
              orders_read = o;
              plan = plan;
              planned = p;
              buyable = buyable;
              cleared = cleared;
              mode_open = mode_open;
            },
        λ x e.
            let same =
              execute_reads ctx x.account x.orders normal x.plan _ _ _ x.account_read x.orders_read
                x.planned in
            (planned_posts ctx x.account x.orders normal x.plan).1
              (
                (IsAdmitted-iff ctx x.account x.orders normal x.plan).1 (x.buyable, x.cleared),
                x.mode_open,
              )
              (sym (ap (λ r. r.posts) same) ∙ e),
      )
