-- ===== src/Sync/Drift/Blocks.antt =====
-- A mismatch blocks buys until the breaker is reset.
use quantpaca.Base.{
  ◌≤◌, ◌≡◌, ◌≢◌, ◌⊎◌, inl, inr, refl, Bool, true, false, List, [], ◌∷◌, none, some, arith,
}
use quantpaca.Js.Number.{Number}
use quantpaca.Js.Text.{Text}
use quantpaca.Risk.Portfolio.{
  BreakerStatus, ok as untripped, block_new_buys, close_only, AlpacaPosition,
}
use quantpaca.Breaker.Engine.{BreakerState}
use quantpaca.Breaker.Latch.{apply_breaker_latch, status_rank}
use quantpaca.Breaker.Holds.{latch_after, tripped_holds, apply_trips}
use quantpaca.Portfolio.{AlpacaAccount}
use quantpaca.Reconciliation.{Mismatch, ReconciliationReport, build_position_reconciliation_report}
use quantpaca.Execution.Context.{Context, PreviousBreaker}
use quantpaca.Execution.Decision.{evaluate_fresh_breaker, latch_before}
use quantpaca.Sync.Reads.{ReconciliationFetch, FetchError, fetched, unfetched}
use quantpaca.Sync.Drift.{
  DriftInput, DriftStage, reconcile_positions, reconcile_fetched, reconcile_if, after_report,
  saved_row, drift_latch, escalated, escalated_status, read_acknowledged_baselines,
}

never_untripped : (s : BreakerStatus) → escalated_status s ≢ untripped
unfolding escalated_status
never_untripped untripped h = cc
never_untripped block_new_buys h = cc
never_untripped close_only h = cc

escalated_trips : (fresh : BreakerState) → (escalated fresh).status ≢ untripped
unfolding escalated
escalated_trips fresh = never_untripped fresh.status

rank_positive : (s : BreakerStatus) → s ≢ untripped → 1 ≤ status_rank s
rank_positive untripped h = absurd (h refl)
rank_positive block_new_buys h = omega arith
rank_positive close_only h = omega arith

-- The saved row holds buys back in every later evaluation.
abbrev pub BlocksBuys : PreviousBreaker → Type 0
BlocksBuys row =
    (fs : List BreakerState) (last : BreakerState)
    → status_rank block_new_buys
      ≤ status_rank (apply_breaker_latch last (latch_after row.latch fs)).effective.status

module _ (fixed2 : Number → Text) (show_number : Number → Text) where
  drift_blocks :
      (ctx : Context) (account : AlpacaAccount)
      → BlocksBuys (saved_row (drift_latch fixed2 show_number ctx account))
  unfolding saved_row drift_latch latch_after
  drift_blocks ctx account fs last =
      let fresh = escalated (evaluate_fresh_breaker fixed2 show_number ctx account) in
      let raw = latch_before ctx.previous_breaker in
      let trips = apply_trips fresh raw (escalated_trips _) in
      omega (arith, rank_positive _ trips, tripped_holds fresh raw fs last trips)

  -- What the stage did with a report.
  abbrev pub Settles : DriftInput → DriftStage → AlpacaAccount → List AlpacaPosition → Type 0
  Settles input stage account positions =
      let report =
        build_position_reconciliation_report input.trades positions
          (read_acknowledged_baselines input.baselines) in
      (stage.report ≡ some report)
      × ((report.mismatches ≡ []) × (stage.saved ≡ none)
          ⊎ (report.mismatches ≢ [])
            × ((row : PreviousBreaker) × (stage.saved ≡ some row) × BlocksBuys row))

  settle_report :
      (ctx : Context) (account : AlpacaAccount) (report : ReconciliationReport) (ms : List Mismatch)
      → let stage = after_report fixed2 show_number ctx account report ms in
        (stage.report ≡ some report)
        × ((ms ≡ []) × (stage.saved ≡ none)
            ⊎ (ms ≢ []) × ((row : PreviousBreaker) × (stage.saved ≡ some row) × BlocksBuys row))
  unfolding after_report
  settle_report ctx account report [] = (refl, inl (refl, refl))
  settle_report ctx account report (m ∷ ms) = (
    refl,
    inr (
      λ h. cc,
      (saved_row (drift_latch fixed2 show_number ctx account), refl, drift_blocks ctx account),
    ),
  )

  settle_fetched :
      (input : DriftInput) (fetch : ReconciliationFetch)
      → input.fetch ≡ fetch
      → let stage = reconcile_fetched fixed2 show_number input fetch in
        ((account : AlpacaAccount) × (positions : List AlpacaPosition) × (input.fetch
            ≡ fetched account positions)
          × Settles input stage account positions)
        ⊎ ((error : FetchError) × (input.fetch ≡ unfetched error)
            × (stage.connectivity_failed ≡ true)
            × (stage.report ≡ none)
            × (stage.saved ≡ none))
  unfolding reconcile_fetched
  settle_fetched input (unfetched error) e = inr (error, e, refl, refl, refl)
  settle_fetched input (fetched account positions) e = inl (
    account,
    positions,
    e,
    settle_report input.ctx account
        (build_position_reconciliation_report input.trades positions
          (read_acknowledged_baselines input.baselines))
        (build_position_reconciliation_report input.trades positions
          (read_acknowledged_baselines input.baselines)).mismatches,
  )

  settle_if :
      (b : Bool) (input : DriftInput)
      → b ≡ true
      → let stage = reconcile_if fixed2 show_number b input in
        ((account : AlpacaAccount) × (positions : List AlpacaPosition) × (input.fetch
            ≡ fetched account positions)
          × Settles input stage account positions)
        ⊎ ((error : FetchError) × (input.fetch ≡ unfetched error)
            × (stage.connectivity_failed ≡ true)
            × (stage.report ≡ none)
            × (stage.saved ≡ none))
  unfolding reconcile_if
  settle_if true input h = settle_fetched input input.fetch refl
  settle_if false input h = absurd (ground (arith, h))

  -- With a configured broker that answers, the report is kept and the breaker is saved exactly where
  -- there is a mismatch, and then every later evaluation blocks buys until a reset; where the broker
  -- does not answer, nothing is reported or saved and the failure is flagged.
  pub reconcile_positions_lem :
      (input : DriftInput)
      → input.ctx.broker_config.configured ≡ true
      → let stage = reconcile_positions fixed2 show_number input in
        ((account : AlpacaAccount) × (positions : List AlpacaPosition) × (input.fetch
            ≡ fetched account positions)
          × Settles input stage account positions)
        ⊎ ((error : FetchError) × (input.fetch ≡ unfetched error)
            × (stage.connectivity_failed ≡ true)
            × (stage.report ≡ none)
            × (stage.saved ≡ none))
  unfolding reconcile_positions
  reconcile_positions_lem input h = settle_if input.ctx.broker_config.configured input h
