-- ===== src/Breaker/Holds.antt =====
-- The latch over a sequence of evaluations: no status is given back without a reset.
use quantpaca.Base.{
  ◌≤◌, ◌≡◌, ◌≢◌, refl, ap, Bool, true, false, List, [], ◌∷◌, Option, none, some, arith,
}
use quantpaca.Js.Text.{Text, text, text_eq}
use quantpaca.Js.Value.{Value, property}
use quantpaca.Risk.Portfolio.{BreakerStatus, ok as untripped, block_new_buys}
use quantpaca.Breaker.Engine.{BreakerState}
use quantpaca.Breaker.Latch.{
  BreakerLatchState, unlatched_state, status_rank, read_latch_state, items_of, saved_latch,
  apply_prior, apply_breaker_latch, ApplyLatchResult, strings_of, assemble, boolean_of, status_of,
  time_of, fail_closed,
}

-- A latched record carries a tripped status.
abbrev pub IsConsistent : BreakerLatchState → Type 0
IsConsistent st = st.latched ≡ true → st.latched_status ≢ untripped

strings_of-items_of : (l : List Text) → strings_of (Value.array (items_of l)) ≡ some l
unfolding strings_of items_of
strings_of-items_of [] = refl
strings_of-items_of (s ∷ l) = ground (arith, strings_of-items_of l)

read-saved_fields :
    (latched : Bool) (status : BreakerStatus) (time : Option Text) (reasons : List Text)
    → (latched ≡ true → status ≢ untripped)
    → let st : BreakerLatchState = record {
      latched = latched;
      latched_status = status;
      latched_at = time;
      latched_reasons = reasons;
    } in
      read_latch_state (saved_latch st) ≡ some st
unfolding read_latch_state saved_latch property text text_eq
read-saved_fields true untripped time reasons h = absurd (h refl refl)
read-saved_fields true block_new_buys none reasons h = rw (strings_of-items_of reasons)
read-saved_fields false untripped none reasons h = rw (strings_of-items_of reasons)
read-saved_fields false untripped (some s) reasons h = rw (strings_of-items_of reasons)
read-saved_fields _ _ none reasons h = rw (strings_of-items_of reasons)
read-saved_fields _ _ (some s) reasons h = rw (strings_of-items_of reasons)

-- A latch state that carries a tripped status where it is latched is read back as it was saved.
pub read-saved_latch :
    (st : BreakerLatchState) → IsConsistent st → read_latch_state (saved_latch st) ≡ some st
read-saved_latch st h =
    read-saved_fields st.latched st.latched_status st.latched_at st.latched_reasons h

-- Applying the latch to a fresh evaluation, from a consistent state.
module _ (fresh : BreakerState) (prior : BreakerLatchState) (c : IsConsistent prior) where
  -- The status after it is the worse of the fresh one and the one that is held.
  apply_prior_rank :
      (status_rank fresh.status ≤ status_rank (apply_prior fresh prior).effective.status)
      × (prior.latched ≡ true
          → status_rank prior.latched_status
            ≤ status_rank (apply_prior fresh prior).effective.status)
  unfolding apply_prior
  apply_prior_rank = ground arith

  apply_prior_held :
      IsConsistent (apply_prior fresh prior).latch_state
      × ((apply_prior fresh prior).effective.status ≢ untripped
          → ((apply_prior fresh prior).latch_state.latched ≡ true)
            × ((apply_prior fresh prior).latch_state.latched_status
                ≡ (apply_prior fresh prior).effective.status))
  unfolding apply_prior
  apply_prior_held = ground arith

assemble-IsConsistent :
    (l : Option Bool) (s : Option BreakerStatus) (t : Option (Option Text)) (r : Option (List Text))
    {st : BreakerLatchState}
    → assemble l s t r ≡ some st
    → IsConsistent st
unfolding assemble
assemble-IsConsistent l s t r h = ground arith

read-IsConsistent :
    (v : Value) (st : BreakerLatchState) → read_latch_state v ≡ some st → IsConsistent st
unfolding read_latch_state
read-IsConsistent v st h =
    assemble-IsConsistent (boolean_of (property (text "latched") v))
      (status_of (property (text "latchedStatus") v)) (time_of (property (text "latchedAt") v))
      (strings_of (property (text "latchedReasons") v)) h

-- A result that leaves a consistent state, latched at the effective status if that is tripped.
abbrev Leaves : ApplyLatchResult → Type 0
Leaves r =
    IsConsistent r.latch_state
    × (r.effective.status ≢ untripped
        → (r.latch_state.latched ≡ true) × (r.latch_state.latched_status ≡ r.effective.status))

held_by_read :
    (fresh : BreakerState) (o : Option BreakerLatchState)
    → ((st : BreakerLatchState) → o ≡ some st → IsConsistent st)
    → Leaves (elim o [ none ↦ fail_closed fresh | some prior ↦ apply_prior fresh prior ])
unfolding fail_closed
held_by_read fresh none c = (λ h k. cc, λ h. (refl, refl))
held_by_read fresh (some prior) c = apply_prior_held fresh prior (c prior refl)

-- What one application leaves to be saved: a consistent state, latched at the effective status if
-- that is a tripped one.
pub apply_held :
    (fresh : BreakerState) (raw : Value)
    → IsConsistent (apply_breaker_latch fresh raw).latch_state
      × ((apply_breaker_latch fresh raw).effective.status ≢ untripped
          → ((apply_breaker_latch fresh raw).latch_state.latched ≡ true)
            × ((apply_breaker_latch fresh raw).latch_state.latched_status
                ≡ (apply_breaker_latch fresh raw).effective.status))
unfolding apply_breaker_latch
apply_held fresh Value.undefined = apply_prior_held fresh unlatched_state (λ h. cc)
apply_held fresh Value.null = apply_prior_held fresh unlatched_state (λ h. cc)
apply_held fresh raw =
    held_by_read fresh (read_latch_state raw) (λ st h. read-IsConsistent raw st h)

prior_trips :
    (fresh : BreakerState) (prior : BreakerLatchState)
    → IsConsistent prior
    → fresh.status ≢ untripped
    → (apply_prior fresh prior).effective.status ≢ untripped
prior_trips fresh prior c h = ground (arith, (apply_prior_rank fresh prior c).0, h)

trips_by_read :
    (fresh : BreakerState) (o : Option BreakerLatchState)
    → ((st : BreakerLatchState) → o ≡ some st → IsConsistent st)
    → fresh.status ≢ untripped
    → (elim o as (λ x. ApplyLatchResult) [
      | none ↦ fail_closed fresh
      | some prior ↦ apply_prior fresh prior
    ]).effective.status
      ≢ untripped
unfolding fail_closed
trips_by_read fresh none c h = λ k. cc
trips_by_read fresh (some prior) c h = prior_trips fresh prior (c prior refl) h

-- A tripped evaluation comes out tripped, whatever the saved record is.
pub apply_trips :
    (fresh : BreakerState) (raw : Value)
    → fresh.status ≢ untripped
    → (apply_breaker_latch fresh raw).effective.status ≢ untripped
unfolding apply_breaker_latch
apply_trips fresh Value.undefined h = prior_trips fresh unlatched_state (λ k. cc) h
apply_trips fresh Value.null h = prior_trips fresh unlatched_state (λ k. cc) h
apply_trips fresh raw h =
    trips_by_read fresh (read_latch_state raw) (λ st e. read-IsConsistent raw st e) h

pub apply_saved :
    (fresh : BreakerState) (st : BreakerLatchState)
    → IsConsistent st
    → apply_breaker_latch fresh (saved_latch st) ≡ apply_prior fresh st
unfolding apply_breaker_latch saved_latch
apply_saved fresh st c = rw (read-saved_latch st c)

-- The saved latch after a sequence of evaluations.
unfoldable pub latch_after : Value → List BreakerState → Value
latch_after raw [] = raw
latch_after raw (f ∷ fs) = latch_after (saved_latch (apply_breaker_latch f raw).latch_state) fs

still_tripped :
    (f : BreakerState) (st : BreakerLatchState)
    → IsConsistent st
    → st.latched ≡ true
    → (apply_prior f st).effective.status ≢ untripped
still_tripped f st c h = ground (arith, (apply_prior_rank f st c).1 h, c h)

latch_holds :
    (st : BreakerLatchState) (fs : List BreakerState) (last : BreakerState)
    → IsConsistent st
    → st.latched ≡ true
    → status_rank st.latched_status
      ≤ status_rank (apply_breaker_latch last (latch_after (saved_latch st) fs)).effective.status
unfolding latch_after
latch_holds st [] last c h = rw (apply_saved last st c) ((apply_prior_rank last st c).1 h)
latch_holds st (f ∷ fs) last c h =
    let next = (apply_prior f st).latch_state in
    let (consistent, held) = apply_prior_held f st c in
    let tripped = still_tripped f st c h in
    rw (apply_saved f st c) (
      omega (
        arith,
        (apply_prior_rank f st c).1 h,
        ap status_rank (held tripped).1,
        latch_holds next fs last consistent (held tripped).0,
      ))

-- Once an evaluation has come out tripped, whatever the saved record was, every evaluation after any
-- number of others comes out at least as strict, until the saved state is reset.
pub tripped_holds :
    (fresh : BreakerState) (raw : Value) (fs : List BreakerState) (last : BreakerState)
    → (apply_breaker_latch fresh raw).effective.status ≢ untripped
    → status_rank (apply_breaker_latch fresh raw).effective.status
      ≤ status_rank (apply_breaker_latch last (latch_after raw (fresh ∷ fs))).effective.status
unfolding latch_after
tripped_holds fresh raw fs last tripped =
    let (consistent, held) = apply_held fresh raw in
    rw (← (held tripped).1)
      (latch_holds (apply_breaker_latch fresh raw).latch_state fs last consistent (held tripped).0)
