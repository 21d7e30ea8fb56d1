-- ===== src/Scheduler/Failures.antt =====
-- The count of consecutive failures and the pause.
use quantpaca.Base.{
  ℕ, suc, ◌+◌, ◌%◌, ◌≡◌, refl, ap, ◌∙◌, true, false, List, [], ◌∷◌, ◌++◌, arith, Bool-cases, inl,
  inr, if◌then◌else◌, leb,
}
use quantpaca.Scheduler.{
  SchedulerState, CycleOutcome, completed, failed_cycle, threw, Effect, auto_pause, after_cycle,
  count_failure, set_count,
}

-- The cycles of a run of the loop, in order, with a pause that never throws.
abbrev pub after_cycles : List CycleOutcome → SchedulerState → SchedulerState
after_cycles [] st = st
after_cycles (o ∷ os) st = after_cycles os (after_cycle o false st)

-- The failures in a row at the end of a run that starts after `n` of them.
abbrev pub streak : List CycleOutcome → ℕ → ℕ
streak [] n = n
streak (completed ∷ os) n = streak os 0
streak (failed_cycle ∷ os) n = streak os (suc n)
streak (threw ∷ os) n = streak os n

abbrev pub pauses : List Effect → ℕ
pauses [] = 0
pauses (auto_pause ∷ es) = suc (pauses es)
pauses (_ ∷ es) = pauses es

-- Each third failure in a row.
abbrev pub thirds : List CycleOutcome → ℕ → ℕ
thirds [] n = 0
thirds (completed ∷ os) n = thirds os 0
thirds (failed_cycle ∷ os) n = (if leb 2 (n % 3) then 1 else 0) + thirds os (suc n)
thirds (threw ∷ os) n = thirds os n

pauses_add : (es : List Effect) (e : Effect) → pauses (es ++ (e ∷ [])) ≡ pauses es + pauses (e ∷ [])
pauses_add [] e = omega arith
pauses_add (f ∷ es) e = ground (arith, pauses_add es e)

completed_cycle :
    (st : SchedulerState)
    → ((after_cycle completed false st).failure_count ≡ 0)
      × (pauses (after_cycle completed false st).effects ≡ pauses st.effects)
unfolding after_cycle set_count
completed_cycle st = (refl, grind (arith, pauses_add))

thrown_cycle :
    (st : SchedulerState)
    → ((after_cycle threw false st).failure_count ≡ st.failure_count)
      × (pauses (after_cycle threw false st).effects ≡ pauses st.effects)
unfolding after_cycle
thrown_cycle st = (refl, grind (arith, pauses_add))

early_failure :
    (st : SchedulerState)
    → leb 3 (suc st.failure_count) ≡ false
    → ((after_cycle failed_cycle false st).failure_count ≡ suc st.failure_count)
      × (pauses (after_cycle failed_cycle false st).effects ≡ pauses st.effects)
unfolding after_cycle count_failure set_count
early_failure st h = rw h (refl, grind (arith, pauses_add))

third_failure :
    (st : SchedulerState)
    → leb 3 (suc st.failure_count) ≡ true
    → ((after_cycle failed_cycle false st).failure_count ≡ 0)
      × (pauses (after_cycle failed_cycle false st).effects ≡ suc (pauses st.effects))
unfolding after_cycle count_failure set_count
third_failure st h = rw h (refl, grind (arith, pauses_add))

-- Over any run the stored count is the number of failures in a row, modulo three, and trading was
-- paused once for each third failure in a row, if the pause never throws.
pub after_cycles-counts :
    (outcomes : List CycleOutcome) (st : SchedulerState) (n : ℕ)
    → st.failure_count ≡ n % 3
    → ((after_cycles outcomes st).failure_count ≡ streak outcomes n % 3)
      × (pauses (after_cycles outcomes st).effects ≡ pauses st.effects + thirds outcomes n)
after_cycles-counts [] st n h = (h, omega arith)
after_cycles-counts (completed ∷ os) st n h =
    let (count, paused) = completed_cycle st in
    let (a, b) = after_cycles-counts os (after_cycle completed false st) 0 count in
    (a, b ∙ ap (λ x. x + thirds os 0) paused)
after_cycles-counts (failed_cycle ∷ os) st n h = elim (Bool-cases (leb 3 (suc st.failure_count))) [
  | inl third ↦
      let (count, paused) = third_failure st third in
      let (a, b) =
        after_cycles-counts os (after_cycle failed_cycle false st) (suc n)
          (ground (arith, count)) in
      (a, ground (arith, b, paused))
  | inr early ↦
      let (count, paused) = early_failure st early in
      let (a, b) =
        after_cycles-counts os (after_cycle failed_cycle false st) (suc n)
          (ground (arith, count)) in
      (a, ground (arith, b, paused))
]
after_cycles-counts (threw ∷ os) st n h =
    let (count, paused) = thrown_cycle st in
    let (a, b) = after_cycles-counts os (after_cycle threw false st) n (count ∙ h) in
    (a, b ∙ ap (λ x. x + thirds os n) paused)
