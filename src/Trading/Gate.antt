-- ===== src/Trading/Gate.antt =====
-- Which requests reach the broker through the pipeline, and what their trades end up as.
use quantpaca.Base.{◌≡◌, refl, ◌≢◌, ◌⊎◌, true, [], ◌∷◌, arith, is_some}
use quantpaca.Js.Text.{Text, text}
use quantpaca.Js.Number.{Number}
use quantpaca.Trading.State.{
  TradeState, pending_approval, broker_submitted, broker_failed, risk_rejected,
  map_broker_status_to_trade_state,
}
use quantpaca.Trading.Types.{
  live, paper, approved, approved_with_reduced_size, PipelineTrade, submission_started,
}
use quantpaca.Trading.Symbol.{validate_symbol}
use quantpaca.Trading.Config.{Environment, build_broker_config_from_env, is_set_to}
use quantpaca.Trading.Pipeline.{
  BrokerOutcome, returned, threw, SubmitTradeInput, Surroundings, PipelineRun, audit, settle,
  base_trade, client_order_id_of, submit_trade_through_pipeline,
}

-- What a request needs to reach the broker.
pub record IsAdmitted (input : SubmitTradeInput) : Type 0 where
  pub symbol_valid : (validate_symbol input.request.symbol).valid ≡ true
  pub planned : is_some input.exit_plan ≡ true
  pub cleared :
      (input.risk_decision.status ≡ approved)
      ⊎ (input.risk_decision.status ≡ approved_with_reduced_size)
  pub mode_open :
      (input.broker_config.trading_mode ≡ paper) ⊎ (input.broker_config.live_trading_enabled ≡ true)

-- How the trade shows the broker's answer.
abbrev pub Shows : BrokerOutcome → PipelineTrade → PipelineTrade → Type 0
Shows (threw reason) before after = after ≡ record before { status = broker_failed }
Shows (returned order) before after = after ≡ record before {
  status = map_broker_status_to_trade_state order.status;
  broker_order_id = order.id;
  broker_status = order.status;
  broker_leg_order_ids = after.broker_leg_order_ids;
}

Shows-status :
    (outcome : BrokerOutcome) (before after : PipelineTrade) (s : TradeState)
    → Shows outcome (record before { status = s }) after
    → Shows outcome before after
Shows-status (threw reason) before after s h = h
Shows-status (returned order) before after s h = h

Shows-settle :
    (input : SubmitTradeInput) (around : Surroundings) (outcome : BrokerOutcome) (run : PipelineRun)
    → Shows outcome run.trade (settle input around outcome run).trade
unfolding settle
Shows-settle input around (threw reason) run = refl
Shows-settle input around (returned order) run = refl

module _ (sha256_hex : Text → Text) (show_number : Number → Text) where
  -- The run when the broker is called.
  started : SubmitTradeInput → Surroundings → PipelineRun
  unfolding submit_trade_through_pipeline
  started input around =
      record (audit input around broker_submitted pending_approval submission_started (record {
        trade = base_trade sha256_hex show_number input around;
        audit_events = [];
        submissions = [];
      })) { submissions = client_order_id_of sha256_hex show_number input (around.clock 0) ∷ [] }

  -- The broker is called exactly once, with the derived client order id, for an admitted request,
  -- and never for another: that one ends as risk_rejected and is otherwise the new trade.
  pub submissions_gate :
      (broker_submit : Text → BrokerOutcome) (input : SubmitTradeInput) (around : Surroundings)
      → let run = submit_trade_through_pipeline sha256_hex show_number broker_submit input around in
        (IsAdmitted input
          × (run.submissions
              ≡ client_order_id_of sha256_hex show_number input (around.clock 0) ∷ []))
        ⊎ ((¬ IsAdmitted input)
            × (run.submissions ≡ [])
            × (run.trade ≡ record (base_trade sha256_hex show_number input around) {
              status = risk_rejected;
            }))
  unfolding submit_trade_through_pipeline
  submissions_gate broker_submit input around = ground arith

  -- An admitted request goes through to the broker's answer.
  submit_of_IsAdmitted :
      (broker_submit : Text → BrokerOutcome) (input : SubmitTradeInput) (around : Surroundings)
      → IsAdmitted input
      → (submit_trade_through_pipeline sha256_hex show_number broker_submit input around).trade
        ≡ (settle input around
            (broker_submit (client_order_id_of sha256_hex show_number input (around.clock 0)))
            (started input around)).trade
  unfolding submit_trade_through_pipeline started
  submit_of_IsAdmitted broker_submit input around h = ground arith

  -- The trade of an admitted request shows how the broker answered the derived order id:
  -- broker_failed with no broker order where it throws; otherwise the order's id and status text,
  -- and the state that the status maps to. The rest is the new trade, up to the legs.
  pub submitted_state :
      (broker_submit : Text → BrokerOutcome) (input : SubmitTradeInput) (around : Surroundings)
      → IsAdmitted input
      → Shows
          (broker_submit (client_order_id_of sha256_hex show_number input (around.clock 0)))
          (base_trade sha256_hex show_number input around)
          (submit_trade_through_pipeline sha256_hex show_number broker_submit input around).trade
  unfolding started audit
  submitted_state broker_submit input around h =
      rw (submit_of_IsAdmitted broker_submit input around h) (
        Shows-status _ _ _ broker_submitted (
          Shows-settle input around
            (broker_submit (client_order_id_of sha256_hex show_number input (around.clock 0)))
            (started input around)))

  -- Under the configuration read from the environment, a live order reaches the broker only if
  -- TRADING_MODE is live and LIVE_TRADING_ENABLED is true.
  pub live_needs_both :
      (broker_submit : Text → BrokerOutcome) (input : SubmitTradeInput) (around : Surroundings)
      (env : Environment)
      → input.broker_config ≡ build_broker_config_from_env env
      → input.broker_config.trading_mode ≡ live
      → (submit_trade_through_pipeline sha256_hex show_number broker_submit input
          around).submissions
        ≢ []
      → (is_set_to env.trading_mode (text "live") ≡ true)
        × (is_set_to env.live_trading_enabled (text "true") ≡ true)
  unfolding build_broker_config_from_env
  live_needs_both broker_submit input around env configured mode sent =
      ground (arith, submissions_gate broker_submit input around)
