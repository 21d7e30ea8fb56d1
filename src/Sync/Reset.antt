-- ===== src/Sync/Reset.antt =====
-- `performBreakerReset` of src/server.ts.
use quantpaca.Base.{
  ◌≤◌, ◌≡◌, ◌≢◌, ◌⊎◌, inl, inr, refl, ◌∙◌, Bool, true, false, List, Option, none, some, arith, ap,
}
use quantpaca.Js.Number.{Number}
use quantpaca.Js.Text.{Text}
use quantpaca.Js.Value.{Value}
use quantpaca.Risk.Portfolio.{BreakerStatus, ok as untripped, block_new_buys, close_only}
use quantpaca.Breaker.Engine.{BreakerState}
use quantpaca.Breaker.Latch.{
  ApplyLatchResult, apply_breaker_latch, apply_prior, saved_latch, status_rank, unlatched_state,
}
use quantpaca.Breaker.Holds.{latch_after, tripped_holds, apply_held, apply_saved}
use quantpaca.Portfolio.{AlpacaAccount}
use quantpaca.Execution.Context.{Context, PreviousBreaker}
use quantpaca.Execution.Decision.{evaluate_fresh_breaker}

pub record BreakerReset : Type 0 where
  pub status : BreakerStatus
  pub re_tripped : Bool
  -- The row that is saved.
  pub saved : PreviousBreaker

reset_with : ApplyLatchResult → BreakerReset
reset_with latch = record {
  status = latch.effective.status;
  re_tripped = latch.latch_state.latched;
  saved = record {
    peak_equity = latch.effective.peak_equity;
    latch = saved_latch latch.latch_state;
  };
}

module _ (fixed2 : Number → Text) (show_number : Number → Text) where
  -- The reset evaluates the account with the saved peak and no latch; `none` where the account
  -- cannot be read, so that nothing is saved.
  unfoldable pub perform_breaker_reset : Context → Option BreakerReset
  unfolding reset_with
  perform_breaker_reset ctx = elim ctx.account [
    | none ↦ none
    | some account ↦ some (
        reset_with
          (apply_breaker_latch (evaluate_fresh_breaker fixed2 show_number ctx account) Value.null))
  ]

status_cases : (s : BreakerStatus) → (s ≡ untripped) ⊎ (s ≢ untripped)
status_cases untripped = inl refl
status_cases block_new_buys = inr (λ h. cc)
status_cases close_only = inr (λ h. cc)

from_unlatched :
    (fresh : BreakerState)
    → ((apply_prior fresh unlatched_state).effective ≡ fresh)
      × (fresh.status ≡ untripped
          → (apply_prior fresh unlatched_state).latch_state ≡ unlatched_state)
unfolding apply_prior
from_unlatched fresh = (ground arith, λ h. ground arith)

-- The evaluation after a reset, and how it stands to the latch.
module _ (fresh : BreakerState) where
  after : BreakerReset
  unfolding reset_with
  after = reset_with (apply_breaker_latch fresh Value.null)

  lifted :
      fresh.status ≡ untripped
      → (after.re_tripped ≡ false)
        × ((next : BreakerState) → (apply_breaker_latch next after.saved.latch).effective ≡ next)
  unfolding after apply_breaker_latch
  lifted h =
      let unlatched = (from_unlatched fresh).1 h in
      (
        rw unlatched refl,
        λ next. rw unlatched (
            ap (λ (r : ApplyLatchResult). r.effective) (apply_saved next unlatched_state (λ k. cc))
            ∙ (from_unlatched next).0),
      )

  same_effective : (apply_breaker_latch fresh Value.null).effective ≡ fresh
  unfolding apply_breaker_latch
  same_effective = (from_unlatched fresh).0

  kept :
      fresh.status ≢ untripped
      → (after.re_tripped ≡ true)
        × ((fs : List BreakerState) (last : BreakerState)
            → status_rank fresh.status
              ≤ status_rank
                  (apply_breaker_latch last (latch_after after.saved.latch fs)).effective.status)
  unfolding after latch_after
  kept h =
      let same = ap (λ (b : BreakerState). b.status) same_effective in
      let tripped : (apply_breaker_latch fresh Value.null).effective.status ≢ untripped =
        rw same h in
      (
        ((apply_held fresh Value.null).1 tripped).0,
        λ fs last.
            omega (arith, ap status_rank same, tripped_holds fresh Value.null fs last tripped),
      )

-- Where the account can be read, a reset saves a latch that reports what the account says now: on a
-- healthy account it is lifted, and every next evaluation counts as it is; on a breached one it trips
-- anew, and every later evaluation comes out at least as strict.
pub perform_breaker_reset_lem :
    (fixed2 show_number : Number → Text) (ctx : Context) (account : AlpacaAccount)
    → ctx.account ≡ some account
    → let fresh = evaluate_fresh_breaker fixed2 show_number ctx account in
      (r : BreakerReset) × (perform_breaker_reset fixed2 show_number ctx ≡ some r)
      × (r.status ≡ fresh.status)
      × ((fresh.status ≡ untripped)
            × (r.re_tripped ≡ false)
            × ((next : BreakerState) → (apply_breaker_latch next r.saved.latch).effective ≡ next)
          ⊎ (fresh.status ≢ untripped)
            × (r.re_tripped ≡ true)
            × ((fs : List BreakerState) (last : BreakerState)
                → status_rank fresh.status
                  ≤ status_rank
                      (apply_breaker_latch last (latch_after r.saved.latch fs)).effective.status))
unfolding perform_breaker_reset after
perform_breaker_reset_lem fixed2 show_number ctx account h =
    let fresh = evaluate_fresh_breaker fixed2 show_number ctx account in
    (
      after fresh,
      rw h refl,
      ap (λ (b : BreakerState). b.status) (same_effective fresh),
      elim (status_cases fresh.status) [
        | inl healthy ↦ inl (healthy, (lifted fresh healthy).0, (lifted fresh healthy).1)
        | inr breached ↦ inr (breached, (kept fresh breached).0, (kept fresh breached).1)
      ],
    )
