-- ===== src/Sync/Drift.antt =====
-- The position reconciliation of `runSyncCycle` in src/server.ts: what a mismatch does to the breaker.
-- The alert and the log lines are left out.
use quantpaca.Base.{
  ℕ, ◌≤◌, ◌≡◌, ◌≢◌, ◌⊎◌, inl, inr, refl, sym, ◌∙◌, ap, Bool, true, false, not, List, [], ◌∷◌, ◌++◌,
  Option, none, some, if◌then◌else◌, arith,
}
use quantpaca.Js.Number.{Number}
use quantpaca.Js.Text.{Text, text, filled}
use quantpaca.Js.Value.{Value, Fields, Items}
use quantpaca.NumericSafety.{ParsedFiniteNumber, ok, failed, parse_finite_number}
use quantpaca.Risk.Portfolio.{
  BreakerStatus, ok as untripped, block_new_buys, close_only, AlpacaPosition,
}
use quantpaca.Breaker.Engine.{BreakerState}
use quantpaca.Breaker.Latch.{ApplyLatchResult, apply_breaker_latch, saved_latch, status_rank}
use quantpaca.Breaker.Holds.{latch_after, tripped_holds}
use quantpaca.Portfolio.{AlpacaAccount}
use quantpaca.Reconciliation.{
  LocalTrade, Mismatch, ReconciliationReport, build_position_reconciliation_report,
}
use quantpaca.Execution.Context.{Context, PreviousBreaker}
use quantpaca.Execution.Decision.{evaluate_fresh_breaker, latch_before}
use quantpaca.Sync.Reads.{ReconciliationFetch, fetched, unfetched}
pub mod Blocks

-- The entries of an object with a finite number.
finite_entries : Fields → List (Text × Value)
finite_entries Fields.end = []
finite_entries (Fields.field key v fields) =
    let rest = finite_entries fields in
    elim (parse_finite_number v (text "qty")) [
      | ok n ↦ (key, Value.number n) ∷ rest
      | failed reason ↦ rest
    ]

baselines_of : Value → List (Text × Value)
unfolding finite_entries
baselines_of (Value.object fields) = finite_entries fields
baselines_of _ = []

-- `readAcknowledgedBaselines`, from what `JSON.parse` gives for the saved text; `none` where there is
-- none, or where the store or the parsing throws.
unfoldable pub read_acknowledged_baselines : Option Value → List (Text × Value)
unfolding baselines_of
read_acknowledged_baselines none = []
read_acknowledged_baselines (some v) = baselines_of v

escalated_status : BreakerStatus → BreakerStatus
escalated_status close_only = close_only
escalated_status block_new_buys = block_new_buys
escalated_status untripped = block_new_buys

-- A fresh evaluation, made to block buys at least.
unfoldable pub escalated : BreakerState → BreakerState
unfolding escalated_status
escalated fresh = record fresh {
  status = escalated_status fresh.status;
  reasons = fresh.reasons ++ (text "reconciliation_mismatch" ∷ []);
}

-- What the stage leaves: whether the broker could not be reached, the report, and the breaker row
-- that is saved.
pub record DriftStage : Type 0 where
  pub connectivity_failed : Bool
  pub report : Option ReconciliationReport
  pub saved : Option PreviousBreaker

pub record DriftInput : Type 0 where
  pub ctx : Context
  pub fetch : ReconciliationFetch
  pub trades : List LocalTrade
  pub baselines : Option Value

saved_row : ApplyLatchResult → PreviousBreaker
saved_row latch = record {
  peak_equity = latch.effective.peak_equity;
  latch = saved_latch latch.latch_state;
}

module _ (fixed2 : Number → Text) (show_number : Number → Text) where
  -- The latch after a mismatch.
  unfoldable pub drift_latch : Context → AlpacaAccount → ApplyLatchResult
  drift_latch ctx account =
      apply_breaker_latch (escalated (evaluate_fresh_breaker fixed2 show_number ctx account))
        (latch_before ctx.previous_breaker)

  after_report : Context → AlpacaAccount → ReconciliationReport → List Mismatch → DriftStage
  unfolding saved_row
  after_report ctx account report [] = record {
    connectivity_failed = false;
    report = some report;
    saved = none;
  }
  after_report ctx account report (m ∷ ms) = record {
    connectivity_failed = false;
    report = some report;
    saved = some (saved_row (drift_latch ctx account));
  }

  reconcile_fetched : DriftInput → ReconciliationFetch → DriftStage
  unfolding after_report
  reconcile_fetched input (unfetched error) = record {
    connectivity_failed = true;
    report = none;
    saved = none;
  }
  reconcile_fetched input (fetched account positions) =
      let report =
        build_position_reconciliation_report input.trades positions
          (read_acknowledged_baselines input.baselines) in
      after_report input.ctx account report report.mismatches

  reconcile_if : Bool → DriftInput → DriftStage
  unfolding reconcile_fetched
  reconcile_if true input = reconcile_fetched input input.fetch
  reconcile_if false input = record { connectivity_failed = false; report = none; saved = none }

  unfoldable pub reconcile_positions : DriftInput → DriftStage
  unfolding reconcile_if
  reconcile_positions input = reconcile_if input.ctx.broker_config.configured input
