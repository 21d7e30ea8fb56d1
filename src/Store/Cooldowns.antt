-- ===== src/Store/Cooldowns.antt =====
-- How a trade that reached the broker keeps the next buy of its symbol back: the writes of
-- `executeTradeIntent` in src/server.ts, the tables of src/server/persistence.ts and the next call.
use quantpaca.Base.{
  ◌≡◌, ◌≢◌, refl, sym, ap, ◌∙◌, true, false, List, [], ◌∷◌, ◌++◌, Option, none, some, arith,
  or_else,
}
use mathlib.Core.Bool.{false≢true}
use mathlib.Core.List.{append_assoc}
use quantpaca.Js.Number.{Number, num, lt}
use quantpaca.Js.Arith.{add, mul}
use quantpaca.Js.Text.{Text, text_eq_refl, includes}
use quantpaca.Exits.{iso_time}
use quantpaca.Trading.Types.{PipelineTrade, TradeRequest, buy, ExitPlan, Message, RiskDecision}
use quantpaca.Trading.Pipeline.{PipelineRun}
use quantpaca.Breaker.Latch.{ApplyLatchResult}
use quantpaca.Risk.Portfolio.{OpenOrder}
use quantpaca.Risk.Gates.{lists}
use quantpaca.Portfolio.{AlpacaAccount}
use quantpaca.Orders.{OrderPost, OrderReply, LookupReply}
use quantpaca.Execution.Context.{Context, normalize_request}
use quantpaca.Execution.Decision.{decide, latched_breaker, risk_input, cooldown_symbols}
use quantpaca.Execution.Run.{
  StoreEffect, save_cooldown, is_broker_reached, cooldown_effects, record_effects, settle_trade,
  execute_planned, execute_read, execute_normalized, execute_trade_intent, plan_effects,
  breaker_effects, placement, sent, final_id, run_pipeline,
}
use quantpaca.Execution.Run.Sent.{IsExecutable, execute_iff}
use quantpaca.Store.Lasting.{Spared, Guards, is_guard, apply_runs, apply_runs-Guards, guard_listed}
use quantpaca.Store.{Store, put_cooldown, list_active_cooldown_symbols, apply_effect, apply_effects}

-- The effect is the last one.
Ends : StoreEffect → List StoreEffect → Type 0
Ends e l = (front : List StoreEffect) × (l ≡ front ++ (e ∷ []))

append-Ends : (e : StoreEffect) (l m : List StoreEffect) → Ends e m → Ends e (l ++ m)
unfolding Ends
append-Ends e l m (front, h) =
    (l ++ front, ap (λ k. l ++ k) h ∙ sym (append_assoc l front (e ∷ [])))

apply-Ends :
    (now : Number) (front : List StoreEffect) (e : StoreEffect) (store : Store)
    → apply_effects now (front ++ (e ∷ [])) store
      ≡ apply_effect now e (apply_effects now front store)
unfolding apply_effects
apply-Ends now [] e store = refl
apply-Ends now (f ∷ front) e store = apply-Ends now front e (apply_effect now f store)

-- When the cooldown of a trade ends.
abbrev pub expires : Context → Option Number
expires ctx =
    iso_time (add ctx.now (mul (mul (mul ctx.symbol_cooldown_hours (num 60)) (num 60)) (num 1000)))

cooldown_written :
    (ctx : Context) (trade : PipelineTrade) (until : Number)
    → is_broker_reached trade.status ≡ true
    → lt (num 0) ctx.symbol_cooldown_hours ≡ true
    → expires ctx ≡ some until
    → cooldown_effects ctx trade ≡ save_cooldown trade.symbol until ∷ []
unfolding cooldown_effects
cooldown_written ctx trade until reached hours ends = rw (hours, reached, ends) refl

record-Ends :
    (ctx : Context) (request : TradeRequest) (run : PipelineRun) (notes : List Message)
    (trade : PipelineTrade) (until : Number)
    → is_broker_reached trade.status ≡ true
    → lt (num 0) ctx.symbol_cooldown_hours ≡ true
    → expires ctx ≡ some until
    → Ends (save_cooldown trade.symbol until) (record_effects ctx request run notes trade)
unfolding record_effects Ends
record-Ends ctx request run notes trade until reached hours ends =
    let last : Ends (save_cooldown trade.symbol until) (cooldown_effects ctx trade) =
      ([], cooldown_written ctx trade until reached hours ends) in
    append-Ends _ (_ ∷ _ ∷ []) _ (append-Ends _ _ _ (append-Ends _ (plan_effects trade) _ last))

-- A cooldown that was just written guards its symbol until it ends.
fresh-Guards :
    (now later until : Number) (symbol : Text) (store : Store)
    → lt later until ≡ true
    → Guards symbol later (put_cooldown now symbol until store)
unfolding put_cooldown Guards is_guard
fresh-Guards now later until symbol store active = rw (text_eq_refl symbol, active) refl

module _ (sha256_hex : Text → Text) (fixed2 : Number → Text) (show_number : Number → Text)
    (post : OrderPost → OrderReply) (find : Text → LookupReply) where
  settled-Ends :
      (ctx : Context) (request : TradeRequest) (plan : ExitPlan) (decision : RiskDecision)
      (latch : ApplyLatchResult) (run : PipelineRun) (trade : PipelineTrade) (until : Number)
      → let done =
          settle_trade sha256_hex fixed2 show_number post find ctx request plan decision latch
            run in
        done.trade ≡ some trade
        → is_broker_reached trade.status ≡ true
        → lt (num 0) ctx.symbol_cooldown_hours ≡ true
        → expires ctx ≡ some until
        → Ends (save_cooldown trade.symbol until) done.effects
  unfolding settle_trade Ends
  settled-Ends ctx request plan decision latch run trade until same reached hours ends =
      let place = placement sha256_hex fixed2 show_number post find ctx plan decision request in
      let notes = (sent sha256_hex fixed2 show_number post find place run.submissions).1 in
      let kept : PipelineTrade = record (run.trade) { id = final_id ctx run.trade } in
      let made : kept ≡ trade = ap (λ o. or_else o trade) same in
      let (front, last) =
        append-Ends (save_cooldown kept.symbol until) (breaker_effects ctx latch)
          (record_effects ctx request run notes kept)
          (record-Ends ctx request run notes kept until
            (ap (λ t. is_broker_reached t.status) made ∙ reached) hours ends) in
      (front, last ∙ ap (λ t. front ++ (save_cooldown t.symbol until ∷ [])) made)

  read-Ends :
      (ctx : Context) (request : TradeRequest) (a : Option AlpacaAccount)
      (o : Option (List OpenOrder)) (p : Option ExitPlan) (trade : PipelineTrade) (until : Number)
      → let run = execute_read sha256_hex fixed2 show_number post find ctx request a o p in
        run.trade ≡ some trade
        → is_broker_reached trade.status ≡ true
        → lt (num 0) ctx.symbol_cooldown_hours ≡ true
        → expires ctx ≡ some until
        → Ends (save_cooldown trade.symbol until) run.effects
  unfolding execute_read execute_planned
  read-Ends ctx request none o p trade until same reached hours ends = cc
  read-Ends ctx request (some account) none p trade until same reached hours ends = cc
  read-Ends ctx request (some account) (some orders) none trade until same reached hours ends = cc
  read-Ends ctx request (some account) (some orders) (some plan) trade until same reached hours
        ends =
      let latch = latched_breaker fixed2 show_number ctx account in
      let decision = decide ctx account orders latch.effective plan request in
      settled-Ends ctx request plan decision latch
        (run_pipeline sha256_hex fixed2 show_number post find ctx plan decision request) trade until
        same reached hours ends

  not_cooling_down :
      (ctx : Context) (request : TradeRequest) (symbols : List Text)
      → request.side ≡ buy
      → lt (num 0) ctx.symbol_cooldown_hours ≡ true
      → ctx.active_cooldowns ≡ some symbols
      → IsExecutable sha256_hex fixed2 show_number post find ctx request
      → includes symbols request.symbol ≡ false
  unfolding risk_input cooldown_symbols lists
  not_cooling_down ctx request symbols bought hours loaded h =
      let quiet = h.cleared.not_cooling in ground (arith, quiet, bought, hours, loaded)

  -- Once a trade has reached the broker and its writes are stored, no buy of its symbol is posted
  -- before its cooldown ends, whatever other writes follow up to that call: not where the call reads
  -- the cooldowns from that store and cooldowns are on, and none of the writes that follow gives the
  -- symbol a cooldown that ends by then.
  pub cooldown_blocks :
      (ctx : Context) (request : TradeRequest) (trade : PipelineTrade) (until : Number)
      (store : Store) (runs : List (Number × List StoreEffect)) (next : Context)
      (again : TradeRequest)
      → let run = execute_trade_intent sha256_hex fixed2 show_number post find ctx request in
        let after = apply_runs runs (apply_effects ctx.now run.effects store) in
        run.trade ≡ some trade
        → is_broker_reached trade.status ≡ true
        → lt (num 0) ctx.symbol_cooldown_hours ≡ true
        → expires ctx ≡ some until
        → Spared trade.symbol next.now runs
        → again.side ≡ buy
        → (normalize_request again).symbol ≡ trade.symbol
        → lt next.now until ≡ true
        → lt (num 0) next.symbol_cooldown_hours ≡ true
        → next.active_cooldowns ≡ some (list_active_cooldown_symbols next.now after)
        → ¬ ((execute_trade_intent sha256_hex fixed2 show_number post find next again).posts ≢ [])
  unfolding execute_trade_intent execute_normalized Ends apply_effect normalize_request
  cooldown_blocks ctx request trade until store runs next again same reached hours ends spared
        bought symbol early on loaded sent =
      let run = execute_trade_intent sha256_hex fixed2 show_number post find ctx request in
      let normal = normalize_request again in
      let (front, last) =
        read-Ends ctx (normalize_request request) ctx.account ctx.open_orders _ trade until same
          reached hours ends in
      let before = apply_effects ctx.now front store in
      let stored : apply_effects ctx.now run.effects store
          ≡ put_cooldown ctx.now trade.symbol until before =
        ap (λ l. apply_effects ctx.now l store) last
        ∙ apply-Ends ctx.now front (save_cooldown trade.symbol until) store in
      let guarded : Guards trade.symbol next.now (apply_effects ctx.now run.effects store) =
        rw stored (fresh-Guards ctx.now next.now until trade.symbol before early) in
      let after = apply_runs runs (apply_effects ctx.now run.effects store) in
      let active =
        guard_listed next.now trade.symbol after
          (apply_runs-Guards next.now trade.symbol runs _ spared guarded) in
      let quiet =
        not_cooling_down next normal _ bought on loaded
          ((execute_iff sha256_hex fixed2 show_number post find next again).0 sent) in
      absurd (
        false≢true (
          sym quiet
          ∙ (ap (λ s. includes (list_active_cooldown_symbols next.now after) s) symbol ∙ active)))
