-- ===== src/Tests/Scheduler.antt =====
-- The scheduler at concrete inputs.
use quantpaca.Base.{List, ◌+◌, ◌%◌, ◌≡◌, ◌≤◌, refl, true, [], ◌∷◌, some, length}
use quantpaca.Js.Number.{num}
use quantpaca.Js.Text.{text}
use quantpaca.Js.Value.{Value}
use quantpaca.Scheduler.{
  Effect, SchedulerState, TickInputs, completed, failed_cycle, threw, initial, start_tick, stop,
  resolve_interval_minutes,
}
use quantpaca.Scheduler.Loop.{IsReached, created, started, ticked, flights, single_flight}
use quantpaca.Scheduler.Failures.{after_cycles, streak, pauses, thirds, after_cycles-counts}
use quantpaca.Scheduler.Restart.{pending_ticks, Made, restarted, restart_doubles_timers}

abbrev on : TickInputs
on = record {
  interval_raw = Value.string (text "15");
  auto_trading_on = true;
  trading_ready = true;
}

single_flight_example :
    let s = start_tick on (initial 0) in
    (length (quantpaca.Scheduler.Loop.awaited s.awaiting []) ≡ flights s.state.cycle_in_flight)
    × (length (quantpaca.Scheduler.Loop.awaited s.awaiting []) ≤ 1)
single_flight_example = single_flight _ _ (ticked (initial 0) [] on (created 0))

after_cycles-counts_example :
    let run = failed_cycle ∷ failed_cycle ∷ threw ∷ failed_cycle ∷ failed_cycle ∷ [] in
    ((after_cycles run (initial 0)).failure_count ≡ streak run 0 % 3)
    × (pauses (after_cycles run (initial 0)).effects ≡ pauses (initial 0).effects + thirds run 0)
after_cycles-counts_example =
    after_cycles-counts (failed_cycle ∷ failed_cycle ∷ threw ∷ failed_cycle ∷ failed_cycle ∷ [])
      (initial 0) 0 refl

restart_doubles_timers_example :
    let st = (start_tick on (initial 0)).state in
    let again = restarted (Value.string (text "15")) (num 15) st in
    ((calls : List Effect) × Made (stop st) calls again × (pending_ticks 0 calls ≡ 2))
    × ((calls : List Effect) × Made again calls (stop again) × (pending_ticks 2 calls ≡ 1))
    × ((stop again).stopped ≡ true)
    × ((start_tick on (stop again)).awaiting ≡ some (resolve_interval_minutes on.interval_raw))
restart_doubles_timers_example =
    restart_doubles_timers (Value.string (text "15")) (num 15) (start_tick on (initial 0)).state on
      refl refl
