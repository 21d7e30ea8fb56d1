-- ===== src/Breaker/Latch.antt =====
-- src/server/breakerLatch.ts: the tripped status is held until an administrator resets it.
use quantpaca.Base.{
  ℕ, Bool, true, false, not, ◌&&◌, List, [], ◌∷◌, ◌++◌, Option, none, some, if◌then◌else◌, or_else,
  ltb,
}
use quantpaca.Js.Text.{Text, text, text_eq}
use quantpaca.Js.Value.{Value, Items, Fields, property}
use quantpaca.Risk.Portfolio.{BreakerStatus, ok as untripped, block_new_buys, close_only}
use quantpaca.Breaker.Engine.{BreakerState}

pub record BreakerLatchState : Type 0 where
  pub latched : Bool
  pub latched_status : BreakerStatus
  pub latched_at : Option Text
  pub latched_reasons : List Text

abbrev pub unlatched_state : BreakerLatchState
unlatched_state = record {
  latched = false;
  latched_status = untripped;
  latched_at = none;
  latched_reasons = [];
}

abbrev pub status_rank : BreakerStatus → ℕ
status_rank untripped = 0
status_rank block_new_buys = 1
status_rank close_only = 2

unfoldable pub status_name : BreakerStatus → Text
status_name untripped = text "ok"
status_name block_new_buys = text "block_new_buys"
status_name close_only = text "close_only"

-- The status that a text names, if it is one of `VALID_STATUSES`.
unfoldable pub status_named : Text → Option BreakerStatus
unfolding status_name
status_named s =
    if text_eq s (status_name untripped)
    then some untripped
    else if text_eq s (status_name block_new_buys)
    then some block_new_buys
    else if text_eq s (status_name close_only)
    then some close_only
    else none

-- A persisted record, field by field, with its type checks; `none` is a failed one.
pub boolean_of : Value → Option Bool
boolean_of (Value.bool b) = some b
boolean_of _ = none

pub status_of : Value → Option BreakerStatus
unfolding status_named
status_of (Value.string s) = status_named s
status_of _ = none

-- A string or null.
pub time_of : Value → Option (Option Text)
time_of (Value.string s) = some (some s)
time_of Value.null = some none
time_of _ = none

strings_in : Items → Option (List Text)
strings_in Items.nil = some []
strings_in (Items.cons (Value.string s) l) = elim (strings_in l) [
  | none ↦ none
  | some r ↦ some (s ∷ r)
]
strings_in (Items.cons _ l) = none

unfoldable pub strings_of : Value → Option (List Text)
unfolding strings_in
strings_of (Value.array l) = strings_in l
strings_of _ = none

abbrev is_tripped : BreakerStatus → Bool
is_tripped untripped = false
is_tripped _ = true

unfoldable pub assemble :
    Option Bool
    → Option BreakerStatus
    → Option (Option Text)
    → Option (List Text)
    → Option BreakerLatchState
assemble (some latched) (some status) (some time) (some reasons) =
    if latched && not (is_tripped status)
    then none
    else some (record {
      latched = latched;
      latched_status = status;
      latched_at = time;
      latched_reasons = reasons;
    })
assemble _ _ _ _ = none

-- `isValidLatchState`, with the record that a valid value is taken for.
unfoldable pub read_latch_state : Value → Option BreakerLatchState
unfolding assemble boolean_of status_of time_of strings_of
read_latch_state v =
    assemble (boolean_of (property (text "latched") v))
      (status_of (property (text "latchedStatus") v)) (time_of (property (text "latchedAt") v))
      (strings_of (property (text "latchedReasons") v))

pub data LatchEvent : Type 0 where
  no_event trip escalate : LatchEvent

pub record ApplyLatchResult : Type 0 where
  pub effective : BreakerState
  pub latch_state : BreakerLatchState
  pub event : LatchEvent
  pub corrupt : Bool

abbrev is_nullish : Value → Bool
is_nullish Value.undefined = true
is_nullish Value.null = true
is_nullish _ = false

corrupt_reason : Text
corrupt_reason = text "corrupt_latch_state_fail_closed"

unfoldable pub fail_closed : BreakerState → ApplyLatchResult
unfolding corrupt_reason
fail_closed fresh = record {
  effective = record fresh {
    status = block_new_buys;
    reasons = fresh.reasons ++ (corrupt_reason ∷ []);
  };
  latch_state = record {
    latched = true;
    latched_status = block_new_buys;
    latched_at = some fresh.as_of;
    latched_reasons = corrupt_reason ∷ [];
  };
  event = trip;
  corrupt = true;
}

pending_reset : Option Text → Text
pending_reset at =
    text "breaker_latched_at_" ++ (or_else at (text "null") ++ text "_pending_admin_reset")

unfoldable pub apply_prior : BreakerState → BreakerLatchState → ApplyLatchResult
unfolding pending_reset
apply_prior fresh prior =
    let prior_rank : ℕ = if prior.latched then status_rank prior.latched_status else 0 in
    if ltb prior_rank (status_rank fresh.status)
    then record {
      effective = fresh;
      latch_state = record {
        latched = true;
        latched_status = fresh.status;
        latched_at = some fresh.as_of;
        latched_reasons = fresh.reasons;
      };
      event = if prior.latched then escalate else trip;
      corrupt = false;
    }
    else if prior.latched
    then record {
      effective = record fresh {
        status = prior.latched_status;
        reasons = prior.latched_reasons ++ (pending_reset prior.latched_at ∷ []);
      };
      latch_state = prior;
      event = no_event;
      corrupt = false;
    }
    else record { effective = fresh; latch_state = prior; event = no_event; corrupt = false }

unfoldable pub apply_breaker_latch : BreakerState → Value → ApplyLatchResult
apply_breaker_latch fresh raw =
    if is_nullish raw then apply_prior fresh unlatched_state else elim (read_latch_state raw) [
      | none ↦ fail_closed fresh
      | some prior ↦ apply_prior fresh prior
    ]

-- The value that a saved latch state is read back as.
unfoldable pub items_of : List Text → Items
items_of [] = Items.nil
items_of (s ∷ l) = Items.cons (Value.string s) (items_of l)

abbrev time_value : Option Text → Value
time_value none = Value.null
time_value (some s) = Value.string s

unfoldable pub saved_latch : BreakerLatchState → Value
unfolding items_of status_name
saved_latch st = Value.object (
    Fields.field (text "latched") (Value.bool st.latched) (
      Fields.field (text "latchedStatus") (Value.string (status_name st.latched_status)) (
        Fields.field (text "latchedAt") (time_value st.latched_at) (
          Fields.field (text "latchedReasons") (Value.array (items_of st.latched_reasons))
            Fields.end))))
