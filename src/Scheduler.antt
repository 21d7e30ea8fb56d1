-- ===== src/Scheduler.antt =====
-- src/server/scheduler.ts: the autonomous loop, as explicit state passing between its callbacks.
use quantpaca.Base.{
  ℕ, zero, suc, Bool, true, false, not, List, [], ◌∷◌, ◌++◌, Option, none, some, if◌then◌else◌, leb,
}
use quantpaca.Js.Number.{Number, num, eq, max, min}
use quantpaca.Js.Arith.{mul}
use quantpaca.Js.Text.{Text, text}
use quantpaca.Js.Value.{Value}
use quantpaca.NumericSafety.{ParsedFiniteNumber, ok, failed, parse_finite_number}
pub mod Failures
pub mod Loop
pub mod Restart

abbrev pub default_interval_minutes : ℕ
default_interval_minutes = 15

abbrev pub min_interval_minutes : ℕ
min_interval_minutes = 5

abbrev pub max_interval_minutes : ℕ
max_interval_minutes = 240

abbrev pub max_consecutive_failures : ℕ
max_consecutive_failures = 3

abbrev pub max_buys_per_cycle : ℕ
max_buys_per_cycle = 2

abbrev pub watchdog_check_interval_ms : Number
watchdog_check_interval_ms = mul (num 5) (num 60000)

abbrev clamp : Number → Number
clamp n = min (num max_interval_minutes) (max (num min_interval_minutes) n)

resolve_parsed : ParsedFiniteNumber → Number
resolve_parsed (failed reason) = num default_interval_minutes
resolve_parsed (ok n) = clamp n

-- The interval that a raw setting stands for.
unfoldable pub resolve_interval_minutes : Value → Number
unfolding resolve_parsed
resolve_interval_minutes raw =
    resolve_parsed (parse_finite_number raw (text "system.runIntervalMins"))

pub data IntervalLog : Type 0 where
  invalid_interval : Value → IntervalLog
  clamped_interval : Number → Number → IntervalLog

log_parsed : Value → ParsedFiniteNumber → List IntervalLog
log_parsed raw (failed reason) = invalid_interval raw ∷ []
log_parsed raw (ok n) = if not (eq (clamp n) n) then clamped_interval n (clamp n) ∷ [] else []

-- What it logs about a correction.
unfoldable pub interval_log : Value → List IntervalLog
unfolding log_parsed
interval_log raw = log_parsed raw (parse_finite_number raw (text "system.runIntervalMins"))

pub data CycleOutcome : Type 0 where
  completed : CycleOutcome
  failed_cycle : CycleOutcome
  -- `runScheduledCycle` itself threw.
  threw : CycleOutcome

pub data TimerKind : Type 0 where
  tick_timer watchdog_timer : TimerKind

-- The calls the scheduler makes, in order.
pub data Effect : Type 0 where
  set_timer : TimerKind → Number → Effect
  clear_timer : TimerKind → Effect
  run_cycle cycle_completed auto_pause check_watchdog : Effect
  set_failure_count : ℕ → Effect
  skipped_overlap skipped_auto_trading_off skipped_not_ready unexpected_error : Effect

-- The scheduler's variables, the failure count of `app_state`, and the effects so far. A handle is
-- kept from the time a timer is first armed until `stop` clears it.
pub record SchedulerState : Type 0 where
  pub has_timer : Bool
  pub has_watchdog_timer : Bool
  pub cycle_in_flight : Bool
  pub stopped : Bool
  pub failure_count : ℕ
  pub effects : List Effect

abbrev pub initial : ℕ → SchedulerState
initial count = record {
  has_timer = false;
  has_watchdog_timer = false;
  cycle_in_flight = false;
  stopped = false;
  failure_count = count;
  effects = [];
}

abbrev pub emit : Effect → SchedulerState → SchedulerState
emit e st = record st { effects = st.effects ++ (e ∷ []) }

unfoldable pub arm_next : Number → SchedulerState → SchedulerState
arm_next minutes st =
    if st.stopped
    then st
    else record (emit (set_timer tick_timer (mul minutes (num 60000))) st) { has_timer = true }

unfoldable pub arm_watchdog : SchedulerState → SchedulerState
arm_watchdog st =
    if st.stopped
    then st
    else record (emit (set_timer watchdog_timer watchdog_check_interval_ms) st) {
      has_watchdog_timer = true;
    }

-- What the injected functions answer to one tick: the raw interval, the two switches.
pub record TickInputs : Type 0 where
  pub interval_raw : Value
  pub auto_trading_on : Bool
  pub trading_ready : Bool

unfoldable pub set_count : ℕ → SchedulerState → SchedulerState
set_count n st = record (emit (set_failure_count n) st) { failure_count = n }

-- The third failure in a row pauses trading and resets the count. If the pause itself throws, the
-- error is logged and the count stays.
unfoldable pub count_failure : Bool → SchedulerState → SchedulerState
unfolding set_count
count_failure pause_throws st =
    let next = suc st.failure_count in
    let counted = set_count next st in
    if leb max_consecutive_failures next
    then (if pause_throws
        then emit unexpected_error (emit auto_pause counted)
        else set_count 0 (emit auto_pause counted))
    else counted

-- From the end of `runScheduledCycle` to the end of the `try`. An error that `onCycleCompleted`
-- throws is logged and changes nothing else.
unfoldable pub after_cycle : CycleOutcome → Bool → SchedulerState → SchedulerState
unfolding count_failure set_count
after_cycle completed pause_throws st = set_count 0 (emit cycle_completed st)
after_cycle failed_cycle pause_throws st = count_failure pause_throws (emit cycle_completed st)
after_cycle threw pause_throws st = emit unexpected_error st

-- A tick is two steps, since the cycle it starts is awaited: other callbacks may come between.
-- The first step ends at the `await`; it answers the interval if a cycle was started.
pub record Started : Type 0 where
  pub state : SchedulerState
  pub awaiting : Option Number

unfoldable pub start_tick : TickInputs → SchedulerState → Started
unfolding arm_next
start_tick inputs st =
    let minutes = resolve_interval_minutes inputs.interval_raw in
    if st.cycle_in_flight
    then record { state = emit skipped_overlap st; awaiting = none }
    else if not inputs.auto_trading_on
    then record { state = arm_next minutes (emit skipped_auto_trading_off st); awaiting = none }
    else if not inputs.trading_ready
    then record { state = arm_next minutes (emit skipped_not_ready st); awaiting = none }
    else record {
      state = record (emit run_cycle st) { cycle_in_flight = true };
      awaiting = some minutes;
    }

-- The second step, with the interval that the first one read.
unfoldable pub finish_tick : Number → CycleOutcome → Bool → SchedulerState → SchedulerState
unfolding arm_next after_cycle
finish_tick minutes outcome pause_throws st =
    arm_next minutes (record (after_cycle outcome pause_throws st) { cycle_in_flight = false })

-- The check and its rearming, whether the check throws or not.
unfoldable pub watchdog_tick : Bool → SchedulerState → SchedulerState
unfolding arm_watchdog
watchdog_tick throws st =
    arm_watchdog
      (if throws then emit unexpected_error (emit check_watchdog st) else emit check_watchdog st)

unfoldable pub start : Value → SchedulerState → SchedulerState
unfolding arm_next arm_watchdog
start interval_raw st =
    arm_watchdog (arm_next (resolve_interval_minutes interval_raw) (record st { stopped = false }))

clear_if : Bool → TimerKind → SchedulerState → SchedulerState
clear_if true k st = emit (clear_timer k) st
clear_if false k st = st

unfoldable pub stop : SchedulerState → SchedulerState
unfolding clear_if
stop st =
    record (clear_if st.has_watchdog_timer watchdog_timer
      (clear_if st.has_timer tick_timer (record st { stopped = true }))) {
        has_timer = false;
        has_watchdog_timer = false;
      }
