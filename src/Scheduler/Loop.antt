-- ===== src/Scheduler/Loop.antt =====
-- What any interleaving of the scheduler's callbacks may lead to.
use quantpaca.Base.{
  ℕ, ◌≤◌, ◌≡◌, refl, sym, ap, ◌∙◌, Bool, true, false, List, [], ◌∷◌, Option, none, some, arith,
  length,
}
use quantpaca.Js.Number.{Number}
use quantpaca.Js.Value.{Value}
use quantpaca.Scheduler.{
  SchedulerState, TickInputs, CycleOutcome, initial, start_tick, finish_tick, watchdog_tick, start,
  stop,
}

-- Whatever is awaited after a step of `start_tick`.
abbrev pub awaited : Option Number → List Number → List Number
awaited none l = l
awaited (some m) l = m ∷ l

-- The states that callbacks reach in any order, with the intervals of the cycles that are awaited.
pub data IsReached : SchedulerState → List Number → Type 0 where
  created : (count : ℕ) → IsReached (initial count) []
  ticked :
      (st : SchedulerState) (waiting : List Number) (inputs : TickInputs)
      → IsReached st waiting
      → IsReached (start_tick inputs st).state (awaited (start_tick inputs st).awaiting waiting)
  finished :
      (st : SchedulerState) (minutes : Number) (waiting : List Number) (outcome : CycleOutcome)
      (pause_throws : Bool)
      → IsReached st (minutes ∷ waiting)
      → IsReached (finish_tick minutes outcome pause_throws st) waiting
  watched :
      (st : SchedulerState) (waiting : List Number) (throws : Bool)
      → IsReached st waiting
      → IsReached (watchdog_tick throws st) waiting
  started :
      (st : SchedulerState) (waiting : List Number) (raw : Value)
      → IsReached st waiting
      → IsReached (start raw st) waiting
  halted :
      (st : SchedulerState) (waiting : List Number)
      → IsReached st waiting
      → IsReached (stop st) waiting

abbrev pub flights : Bool → ℕ
flights true = 1
flights false = 0

flights_most : (b : Bool) → flights b ≤ 1
flights_most b = ground arith

started_flights :
    (inputs : TickInputs) (st : SchedulerState) (waiting : List Number)
    → length waiting ≡ flights st.cycle_in_flight
    → let s = start_tick inputs st in
      length (awaited s.awaiting waiting) ≡ flights s.state.cycle_in_flight
unfolding start_tick
started_flights inputs st waiting h = ground arith

-- The outcome of a cycle, the watchdog, and a start or stop in between never touch the flag.
watchdog_flights :
    (throws : Bool) (st : SchedulerState)
    → (watchdog_tick throws st).cycle_in_flight ≡ st.cycle_in_flight
unfolding watchdog_tick
watchdog_flights throws st = ground arith

start_flights :
    (raw : Value) (st : SchedulerState) → (start raw st).cycle_in_flight ≡ st.cycle_in_flight
unfolding start
start_flights raw st = ground arith

stop_flights : (st : SchedulerState) → (stop st).cycle_in_flight ≡ st.cycle_in_flight
unfolding stop
stop_flights st = ground arith

finish_flights :
    (m : Number) (o : CycleOutcome) (p : Bool) (st : SchedulerState)
    → (finish_tick m o p st).cycle_in_flight ≡ false
unfolding finish_tick
finish_flights m o p st = ground arith

awaits_as_flagged :
    (st : SchedulerState) (waiting : List Number)
    → IsReached st waiting
    → length waiting ≡ flights st.cycle_in_flight
awaits_as_flagged st waiting (created count) = refl
awaits_as_flagged st waiting (ticked before w inputs r) =
    started_flights inputs before w (awaits_as_flagged before w r)
awaits_as_flagged st waiting (finished before m w o p r) =
    let counted = awaits_as_flagged before (m ∷ w) r in
    let closed = ap flights (finish_flights m o p before) in
    ground (arith, counted, closed, flights_most before.cycle_in_flight)
awaits_as_flagged st waiting (watched before w throws r) =
    awaits_as_flagged before w r ∙ ap flights (sym (watchdog_flights throws before))
awaits_as_flagged st waiting (started before w raw r) =
    awaits_as_flagged before w r ∙ ap flights (sym (start_flights raw before))
awaits_as_flagged st waiting (halted before w r) =
    awaits_as_flagged before w r ∙ ap flights (sym (stop_flights before))

-- In every order of ticks, ends of cycles, watchdog checks, starts and stops, as many cycles are
-- awaited as the flag says: never more than one.
pub single_flight :
    (st : SchedulerState) (waiting : List Number)
    → IsReached st waiting
    → (length waiting ≡ flights st.cycle_in_flight) × (length waiting ≤ 1)
single_flight st waiting r = let e = awaits_as_flagged st waiting r in (e, ground (arith, e))
