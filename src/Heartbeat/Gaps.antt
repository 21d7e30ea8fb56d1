-- ===== src/Heartbeat/Gaps.antt =====
-- The alerts of the watchdog.
use quantpaca.Base.{
  ℕ, ◌+◌, ◌≤◌, ◌≡◌, ◌⊎◌, refl, true, false, ◌&&◌, List, [], ◌∷◌, Option, none, some, if◌then◌else◌,
  arith, Bool-cases, inl, inr,
}
use quantpaca.Js.Number.{Number, is_finite, eq}
use quantpaca.Js.Text.{Text}
use quantpaca.Js.Numeral.{number_of_text}
use quantpaca.Heartbeat.{
  WatchdogState, WatchdogCheck, check_watchdog, should_alert_overdue_gap, same_stamp, read_stamp,
  alert_gap, mark_gap, alerted_of,
}

read_stamp-Finite :
    (saved : Option Text) (n : Number) → read_stamp saved ≡ some n → is_finite n ≡ true
unfolding read_stamp
read_stamp-Finite none n h = cc
read_stamp-Finite (some raw) n h = ground arith

-- The gap that is open has been alerted on.
IsMarked : WatchdogState → Type 0
IsMarked state = same_stamp (read_stamp state.alerted_gap) (read_stamp state.last_completed) ≡ true

-- Every check can read and save the mark of the last alert.
abbrev pub AllMark : List WatchdogCheck → Type 0
AllMark [] = Unit
AllMark (check ∷ checks) = (check.alerted_readable ≡ true) × (check.saves ≡ true) × AllMark checks

finite_of_eq : (a b : Number) → eq a b ≡ true → is_finite b ≡ true → is_finite a ≡ true
unfolding eq is_finite
finite_of_eq a b h k = ground arith

module _ (show_number : Number → Text) where
  -- The alerts that are delivered while the checks are made one after the other.
  pub delivered_alerts : List WatchdogCheck → WatchdogState → ℕ
  delivered_alerts [] state = 0
  delivered_alerts (check ∷ checks) state =
      let (after, sent) = check_watchdog show_number check state in
      (if sent && check.delivered then 1 else 0) + delivered_alerts checks after

  alert_silent :
      (check : WatchdogCheck) (last : Option Number) (state : WatchdogState)
      → check.alerted_readable ≡ true
      → same_stamp (read_stamp state.alerted_gap) last ≡ true
      → alert_gap show_number check last state ≡ (state, false)
  unfolding alert_gap should_alert_overdue_gap alerted_of
  alert_silent check none state readable h = refl
  alert_silent check (some last) state readable h = rw (readable, h) (ground arith)

  marked_silent :
      (check : WatchdogCheck) (state : WatchdogState)
      → check.alerted_readable ≡ true
      → IsMarked state
      → check_watchdog show_number check state ≡ (state, false)
  unfolding check_watchdog IsMarked
  marked_silent check state readable h =
      ground (arith, alert_silent check (read_stamp state.last_completed) state readable h)

  marked_never :
      (checks : List WatchdogCheck) (state : WatchdogState)
      → AllMark checks
      → IsMarked state
      → delivered_alerts checks state ≡ 0
  unfolding delivered_alerts
  marked_never [] state all h = refl
  marked_never (check ∷ checks) state all h =
      rw (marked_silent check state all.0 h) (omega (arith, marked_never checks state all.2 h))

  saved_stamp :
      (n : Number)
      → eq (number_of_text (show_number n)) n ≡ true
      → is_finite n ≡ true
      → same_stamp (read_stamp (some (show_number n))) (some n) ≡ true
  unfolding read_stamp same_stamp
  saved_stamp n same h =
      ground (arith, same, finite_of_eq (number_of_text (show_number n)) n same h)

  -- What `Number` reads from the text of the saved time is that time.
  abbrev pub ReadsBack : WatchdogState → Type 0
  ReadsBack state =
      (n : Number)
      → read_stamp state.last_completed ≡ some n
      → eq (number_of_text (show_number n)) n ≡ true

  alert_marks :
      (check : WatchdogCheck) (last : Option Number) (state : WatchdogState)
      → ReadsBack state
      → read_stamp state.last_completed ≡ last
      → check.saves ≡ true
      → (alert_gap show_number check last state ≡ (state, false))
        ⊎ (alert_gap show_number check last state ≡ (state, true)) × (check.delivered ≡ false)
        ⊎ IsMarked (alert_gap show_number check last state).0
  unfolding alert_gap mark_gap IsMarked
  alert_marks check none state reads here saves = inl refl
  alert_marks check (some last) state reads here saves =
      elim (Bool-cases (
        should_alert_overdue_gap (some last) check.now check.interval_minutes
          (alerted_of check.alerted_readable state.alerted_gap))) [
            | inl alert ↦ elim (Bool-cases check.delivered) [
              | inl sent ↦ inr (
                  inr (
                    rw (alert, sent, saves, here)
                      (saved_stamp last (reads last here)
                        (read_stamp-Finite state.last_completed last here))))
              | inr lost ↦ inr (inl (ground (arith, alert, lost), lost))
            ]
            | inr quiet ↦ inl (ground (arith, quiet))
          ]

  check_marks :
      (check : WatchdogCheck) (state : WatchdogState)
      → ReadsBack state
      → check.saves ≡ true
      → (check_watchdog show_number check state ≡ (state, false))
        ⊎ (check_watchdog show_number check state ≡ (state, true)) × (check.delivered ≡ false)
        ⊎ IsMarked (check_watchdog show_number check state).0
  unfolding check_watchdog
  check_marks check state reads saves =
      elim (Bool-cases (check.auto_trading_on && check.last_readable)) [
        | inl on ↦
            rw on (alert_marks check (read_stamp state.last_completed) state reads refl saves)
        | inr off ↦ inl (rw off refl)
      ]

  -- While no cycle completes, at most one alert is delivered, however many checks are made at
  -- whatever times and intervals, if every check can read and save the mark of the last alert and the
  -- time of the last cycle, which the mark repeats, is read back as it was.
  pub alert_once :
      (checks : List WatchdogCheck) (state : WatchdogState)
      → ReadsBack state
      → AllMark checks
      → delivered_alerts checks state ≤ 1
  unfolding delivered_alerts
  alert_once [] state reads all = omega arith
  alert_once (check ∷ checks) state reads all = elim (check_marks check state reads all.1) [
    | inl quiet ↦ rw quiet (omega (arith, alert_once checks state reads all.2))
    | inr (inl (lost, undelivered)) ↦
        rw (lost, undelivered) (omega (arith, alert_once checks state reads all.2))
    | inr (inr marked) ↦
        ground (arith, marked_never checks (check_watchdog show_number check state).0 all.2 marked)
  ]
