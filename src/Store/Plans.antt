-- ===== src/Store/Plans.antt =====
-- The exit plan that an execution leaves in the tables of src/server/persistence.ts.
use quantpaca.Base.{◌≡◌, false, List, [], ◌∷◌, ◌++◌, some}
use quantpaca.Js.Number.{Number}
use quantpaca.Js.Text.{Text, text_eq}
use quantpaca.Trading.Types.{ExitPlan}
use quantpaca.Execution.Context.{Context}
use quantpaca.Execution.Run.{StoreEffect, save_exit_plan}
use quantpaca.Store.{Store, seed_mark, plan_row}

-- None of the writes saves an exit plan.
abbrev NoPlan : List StoreEffect → Type 0
NoPlan [] = Unit
NoPlan (save_exit_plan id plan ∷ es) = ⊥
NoPlan (_ ∷ es) = NoPlan es

-- Exactly one exit plan is among the writes.
Saves : Text → ExitPlan → List StoreEffect → Type 0
Saves id plan l =
    (before : List StoreEffect) × (after : List StoreEffect) × (l
      ≡ before ++ (save_exit_plan id plan ∷ after))
    × NoPlan before
    × NoPlan after

-- The table has the trade's plan with a mark that starts anew, and every other row as before.
abbrev pub Seeds : Number → Text → ExitPlan → Store → Store → Type 0
Seeds now id plan store after =
    (plan_row id after.exit_plans
      ≡ some (record {
        trade_id = id;
        timestamp = now;
        exit_plan = plan;
        high_water_mark = seed_mark plan.entry_price;
      }))
    × ((other : Text)
        → text_eq id other ≡ false
        → plan_row other after.exit_plans ≡ plan_row other store.exit_plans)
