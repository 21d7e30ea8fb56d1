-- ===== src/Scheduler/Restart.antt =====
-- What a stop leaves behind.
use quantpaca.Base.{ℕ, suc, ◌-◌, ◌≡◌, refl, true, false, List, [], ◌∷◌, ◌++◌, some, arith}
use quantpaca.Js.Number.{Number, num}
use quantpaca.Js.Arith.{mul}
use quantpaca.Js.Value.{Value}
use quantpaca.Scheduler.{
  SchedulerState, TickInputs, Effect, set_timer, clear_timer, tick_timer, watchdog_timer,
  watchdog_check_interval_ms, cycle_completed, set_failure_count, completed, start_tick,
  finish_tick, start, stop, resolve_interval_minutes,
}
use mathlib.Core.List.{append_assoc}

-- The tick timers that are pending after some calls, from those pending before: a call of
-- `setTimeout` adds one, and `clearTimeout` takes the one out whose handle is kept.
abbrev pub pending_ticks : ℕ → List Effect → ℕ
pending_ticks n [] = n
pending_ticks n (set_timer tick_timer _ ∷ es) = pending_ticks (suc n) es
pending_ticks n (clear_timer tick_timer ∷ es) = pending_ticks (n - 1) es
pending_ticks n (_ ∷ es) = pending_ticks n es

-- The calls that were made between two states.
abbrev pub Made : SchedulerState → List Effect → SchedulerState → Type 0
Made before es after = after.effects ≡ before.effects ++ es

abbrev pub restarted : Value → Number → SchedulerState → SchedulerState
restarted raw minutes st = finish_tick minutes completed false (start raw (stop st))

-- A scheduler that is stopped and started while a cycle is awaited has two tick timers pending when
-- the cycle ends, if none was when it stopped. The next stop leaves one of them pending, and its tick
-- runs a cycle of the stopped scheduler where trading is on and ready.
pub restart_doubles_timers :
    (raw : Value) (minutes : Number) (st : SchedulerState) (inputs : TickInputs)
    → inputs.auto_trading_on ≡ true
    → inputs.trading_ready ≡ true
    → let again = restarted raw minutes st in
      ((calls : List Effect) × Made (stop st) calls again × (pending_ticks 0 calls ≡ 2))
      × ((calls : List Effect) × Made again calls (stop again) × (pending_ticks 2 calls ≡ 1))
      × ((stop again).stopped ≡ true)
      × ((start_tick inputs (stop again)).awaiting
          ≡ some (resolve_interval_minutes inputs.interval_raw))
unfolding start_tick finish_tick start stop
restart_doubles_timers raw minutes st inputs h k =
    let first : List Effect =
      set_timer tick_timer (mul (resolve_interval_minutes raw) (num 60000))
      ∷ set_timer watchdog_timer watchdog_check_interval_ms
      ∷ cycle_completed
      ∷ set_failure_count 0
      ∷ set_timer tick_timer (mul minutes (num 60000))
      ∷ [] in
    let second : List Effect = clear_timer tick_timer ∷ clear_timer watchdog_timer ∷ [] in
    (
      (first, simp append_assoc refl, refl),
      (second, simp append_assoc refl, omega arith),
      refl,
      rw (h, k) refl,
    )
