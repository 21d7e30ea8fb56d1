-- ===== src/Guards.antt =====
-- src/server/crashLoopGuard.ts, src/server/alertThrottle.ts and src/server/rateLimiter.ts.
use quantpaca.Base.{
  ℕ, suc, ◌-◌, Bool, true, false, not, ◌||◌, List, [], ◌∷◌, ◌++◌, Option, none, some, if◌then◌else◌,
  leb, keep, length,
}
use quantpaca.Js.Number.{Number, num, infinite, lt, le, is_finite}
use quantpaca.Js.Arith.{sub, mul}
use quantpaca.Js.Text.{Text}
use quantpaca.Js.Value.{Value, Items}
use quantpaca.Js.Object.{lookup, store}

abbrev pub crash_loop_max_boots : ℕ
crash_loop_max_boots = 3

abbrev pub crash_loop_window_ms : ℕ
crash_loop_window_ms = 3600000

finite_numbers : Items → List Number
finite_numbers Items.nil = []
finite_numbers (Items.cons (Value.number n) vs) =
    let rest = finite_numbers vs in if is_finite n then n ∷ rest else rest
finite_numbers (Items.cons _ vs) = finite_numbers vs

-- What `JSON.parse` gives for the saved text, `none` where there is none or it throws.
unfoldable pub parse_restart_history : Option Value → List Number
unfolding finite_numbers
parse_restart_history none = []
parse_restart_history (some (Value.array vs)) = finite_numbers vs
parse_restart_history (some _) = []

pub record CrashLoopBootDecision : Type 0 where
  pub crash_loop_detected : Bool
  pub pruned_history : List Number

unfoldable pub evaluate_crash_loop_on_boot : List Number → Number → Bool → CrashLoopBootDecision
evaluate_crash_loop_on_boot prior now clean =
    let within = keep (λ t. lt (sub now t) (num crash_loop_window_ms)) prior in
    let pruned = if clean then within else within ++ (now ∷ []) in
    record {
      crash_loop_detected = leb crash_loop_max_boots (length pruned);
      pruned_history = pruned;
    }

abbrev pub empty_sync_alert_window_ms : ℕ
empty_sync_alert_window_ms = 21600000

-- The time of the last alert: `none` where there is no text, NaN where it is no date.
unfoldable pub should_send_throttled_alert : Option Number → Number → Number → Bool
should_send_throttled_alert none now window = true
should_send_throttled_alert (some last) now window =
    not (is_finite last) || le window (sub now last)

abbrev pub rate_limit_per_minute : ℕ
rate_limit_per_minute = 120

abbrev pub rate_limit_window_ms : ℕ
rate_limit_window_ms = 60000

pub record WindowEntry : Type 0 where
  pub window_start_ms : Number
  pub count : ℕ

pub record RateLimiterState : Type 0 where
  pub entries : List (Text × WindowEntry)
  pub last_prune_ms : Number

unfoldable pub create_rate_limiter_state : RateLimiterState
create_rate_limiter_state = record { entries = []; last_prune_ms = infinite true }

unfoldable pub prune_stale_entries : Number → Number → RateLimiterState → RateLimiterState
prune_stale_entries now window state =
    if lt (sub now state.last_prune_ms) window then state else record {
      last_prune_ms = now;
      entries =
          keep (λ (key, entry). not (le (mul (num 2) window) (sub now entry.window_start_ms)))
            state.entries;
    }

pub record RateCheck : Type 0 where
  pub allowed : Bool
  pub remaining : ℕ
  pub state : RateLimiterState

-- The first request of a window.
first_of_window : RateLimiterState → Text → Number → ℕ → RateCheck
first_of_window state key now limit = record {
  allowed = true;
  remaining = limit - 1;
  state = record state {
    entries = store key (record { window_start_ms = now; count = 1 }) state.entries;
  };
}

-- A further request, with the entry of its key.
within_window : RateLimiterState → Text → ℕ → WindowEntry → RateCheck
within_window state key limit entry =
    if leb limit entry.count
    then record { allowed = false; remaining = 0; state = state }
    else record {
      allowed = true;
      remaining = limit - suc entry.count;
      state = record state {
        entries = store key (record entry { count = suc entry.count }) state.entries;
      };
    }

unfoldable pub check_rate_limit : RateLimiterState → Text → Number → ℕ → Number → RateCheck
unfolding prune_stale_entries first_of_window within_window
check_rate_limit state key now limit window =
    let pruned = prune_stale_entries now window state in
    elim (lookup key pruned.entries) [
      | none ↦ first_of_window pruned key now limit
      | some entry ↦
          if le window (sub now entry.window_start_ms)
          then first_of_window pruned key now limit
          else within_window pruned key limit entry
    ]
