-- ===== src/Heartbeat.antt =====
-- src/server/heartbeat.ts, with `onCycleCompleted` and `checkWatchdog` of server.ts. The saved texts
-- are read by `Number`; a read that throws is `none`, and the text of a number is a parameter.
use quantpaca.Base.{
  ℕ, Bool, true, false, not, ◌&&◌, ◌||◌, List, [], ◌∷◌, Option, none, some, if◌then◌else◌,
}
use quantpaca.Js.Number.{Number, num, nan, is_finite, lt, le, eq}
use quantpaca.Js.Arith.{add, sub, mul, rem}
use quantpaca.Js.Text.{Text}
use quantpaca.Js.Numeral.{number_of_text}
pub mod Gaps

abbrev pub heartbeat_every_n_cycles : ℕ
heartbeat_every_n_cycles = 12

abbrev pub missed_cycle_alert_multiplier : ℕ
missed_cycle_alert_multiplier = 2

unfoldable pub should_send_heartbeat : Number → Bool
should_send_heartbeat count =
    lt (num 0) count && eq (rem count (num heartbeat_every_n_cycles)) (num 0)

unfoldable pub is_cycle_overdue : Option Number → Number → Number → Bool
is_cycle_overdue none now interval = false
is_cycle_overdue (some last) now interval =
    is_finite last
    && lt (mul (mul interval (num 60000)) (num missed_cycle_alert_multiplier)) (sub now last)

same_stamp : Option Number → Option Number → Bool
same_stamp none none = true
same_stamp none (some b) = false
same_stamp (some a) none = false
same_stamp (some a) (some b) = eq a b

unfoldable pub should_alert_overdue_gap : Option Number → Number → Number → Option Number → Bool
unfolding same_stamp
should_alert_overdue_gap last now interval alerted =
    is_cycle_overdue last now interval && not (same_stamp alerted last)

-- A saved text as a finite number.
unfoldable pub read_stamp : Option Text → Option Number
read_stamp none = none
read_stamp (some raw) =
    let parsed = number_of_text raw in if is_finite parsed then some parsed else none

alerted_of : Bool → Option Text → Option Number
unfolding read_stamp
alerted_of true saved = read_stamp saved
alerted_of false saved = none

-- What a completed cycle leaves: the new count, and whether a backup and a heartbeat are due.
pub record CycleCompleted : Type 0 where
  pub count : Number
  pub saved_count : Text
  pub saved_completed_at : Text
  pub heartbeat : Bool

cycle_count : Option (Option Text) → Number
cycle_count none = num 0
cycle_count (some none) = num 0
cycle_count (some (some raw)) =
    let parsed = number_of_text raw in
    if is_finite parsed && le (num 0) parsed then parsed else num 0

-- The rows of the application state that the watchdog reads, and what a check finds around it:
-- whether the alert is delivered and whether its mark can be saved.
pub record WatchdogState : Type 0 where
  pub last_completed : Option Text
  pub alerted_gap : Option Text

pub record WatchdogCheck : Type 0 where
  pub auto_trading_on : Bool
  pub last_readable : Bool
  pub alerted_readable : Bool
  pub now : Number
  pub interval_minutes : Number
  pub delivered : Bool
  pub saves : Bool

module _ (show_number : Number → Text) where
  unfoldable pub on_cycle_completed : Option (Option Text) → Number → CycleCompleted
  unfolding cycle_count
  on_cycle_completed saved now =
      let count = add (cycle_count saved) (num 1) in
      record {
        count = count;
        saved_count = show_number count;
        saved_completed_at = show_number now;
        heartbeat = should_send_heartbeat count;
      }

  -- The mark of a delivered alert.
  mark_gap : WatchdogCheck → Number → WatchdogState → WatchdogState
  mark_gap check last state =
      if check.delivered && check.saves
      then record state { alerted_gap = some (show_number last) }
      else state

  alert_gap : WatchdogCheck → Option Number → WatchdogState → WatchdogState × Bool
  unfolding mark_gap alerted_of
  alert_gap check none state = (state, false)
  alert_gap check (some last) state =
      if should_alert_overdue_gap (some last) check.now check.interval_minutes
        (alerted_of check.alerted_readable state.alerted_gap)
      then (mark_gap check last state, true)
      else (state, false)

  -- `checkWatchdog`: the state after it, and whether it sent an alert.
  unfoldable pub check_watchdog : WatchdogCheck → WatchdogState → WatchdogState × Bool
  unfolding alert_gap read_stamp
  check_watchdog check state =
      if check.auto_trading_on && check.last_readable
      then alert_gap check (read_stamp state.last_completed) state
      else (state, false)
