-- ===== src/Trading/Trail.antt =====
-- The audit trail of the pipeline, and the stability of the client order id.
use quantpaca.Base.{◌≡◌, ◌≢◌, true, List, [], ◌∷◌, some, arith, or_else, is_some}
use quantpaca.Js.Text.{Text}
use quantpaca.Js.Number.{Number}
use quantpaca.Trading.State.{TradeState, pending_approval}
use quantpaca.Trading.Types.{AuditEvent}
use quantpaca.Trading.Pipeline.{
  BrokerOutcome, returned, threw, SubmitTradeInput, Surroundings, PipelineRun, audit_type,
  submit_trade_through_pipeline, client_order_id_of,
}

-- The events lead from one state to another without a gap, all of them about one trade.
abbrev pub IsTrail : Text → TradeState → List AuditEvent → TradeState → Type 0
IsTrail id s [] t = s ≡ t
IsTrail id s (e ∷ es) t =
    (e.entity_id ≡ some id)
    × (e.from_state ≡ some s)
    × (is_some e.to_state ≡ true)
    × (e.kind ≡ audit_type (or_else e.to_state s))
    × IsTrail id (or_else e.to_state s) es t

abbrev IsComplete : PipelineRun → Type 0
IsComplete run =
    (run.audit_events ≢ [])
    × IsTrail run.trade.id pending_approval run.audit_events run.trade.status

module _ (sha256_hex : Text → Text) (show_number : Number → Text) where
  -- The pipeline at a broker that gives one answer.
  run_with : BrokerOutcome → SubmitTradeInput → Surroundings → PipelineRun
  run_with outcome = submit_trade_through_pipeline sha256_hex show_number (λ _. outcome)

  -- Every run leaves a trail of events without a gap, from pending_approval to the final state of
  -- the trade, each about this trade and classed by the state that it leads to.
  pub audit-IsTrail :
      (broker_submit : Text → BrokerOutcome) (input : SubmitTradeInput) (around : Surroundings)
      → let run = submit_trade_through_pipeline sha256_hex show_number broker_submit input around in
        (run.audit_events ≢ [])
        × IsTrail run.trade.id pending_approval run.audit_events run.trade.status
  unfolding submit_trade_through_pipeline run_with
  audit-IsTrail broker_submit input around =
      elim (broker_submit (client_order_id_of sha256_hex show_number input (around.clock 0)))
        as (λ outcome. IsComplete (run_with outcome input around)) [
          | threw reason ↦ ground arith
          | returned order ↦ ground arith
        ]
