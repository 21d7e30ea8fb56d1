-- ===== src/Startup/Retries.antt =====
-- How the retries of src/server/startupReconciliation.ts end.
use quantpaca.Base.{
  ◌≡◌, refl, sym, ap, ◌∙◌, ◌⊎◌, inl, inr, ℕ, zero, suc, ◌≤◌, ◌<◌, true, false, List, [], ◌∷◌, ◌++◌,
  none, some, arith, Bool-cases,
}
use mathlib.Core.List.{append_assoc}
use quantpaca.Trading.Types.{sync, startup_gave_up}
use quantpaca.Startup.{
  Boot, AttemptResult, StartupEffect, alert_gave_up, append_audit_events, audited, event_of,
  attempt_with_retry, retry_or_give_up, run_startup_reconciliation, clear_handle, fire_retry,
}

-- The first attempt, and then one more each time the timer fires.
abbrev pub after_retries : (ℕ → AttemptResult) → ℕ → Boot → Boot
after_retries attempt zero boot = run_startup_reconciliation true (attempt 1) boot
after_retries attempt (suc k) boot = fire_retry attempt (after_retries attempt k boot)

-- The attempts up to this one all fail.
abbrev pub AllFail : (ℕ → AttemptResult) → ℕ → Type 0
AllFail attempt n = (k : ℕ) → 1 ≤ k → k ≤ n → (attempt k).ok ≡ false

-- The first attempt that succeeds, of the twelve.
abbrev pub Succeeds : (ℕ → AttemptResult) → Boot → Type 0
Succeeds attempt last =
    (k : ℕ) × (k < 12)
    × AllFail attempt k
    × ((attempt (suc k)).ok ≡ true)
    × (last.gate ≡ record { trading_ready = true; orphan_orders = (attempt (suc k)).orphans })

-- All twelve fail: the gate is as it was, and the operator is told.
abbrev pub GivesUp : (ℕ → AttemptResult) → Boot → Boot → Type 0
GivesUp attempt boot last =
    AllFail attempt 12
    × (last.gate ≡ boot.gate)
    × ((before : List StartupEffect) × (last.effects ≡ before ++ (alert_gave_up ∷ [])))

leb-cases : (k n : ℕ) → (k ≤ n) ⊎ (n < k)
leb-cases k n = omega arith

fire_due :
    (attempt : ℕ → AttemptResult) (n : ℕ) (boot : Boot)
    → boot.pending ≡ some n
    → fire_retry attempt boot ≡ attempt_with_retry (attempt n) n (record boot { pending = none })
unfolding fire_retry
fire_due attempt n boot due = rw due refl

fire_idle :
    (attempt : ℕ → AttemptResult) (boot : Boot)
    → boot.pending ≡ none
    → fire_retry attempt boot ≡ boot
unfolding fire_retry
fire_idle attempt boot idle = rw idle refl

attempt_waits :
    (result : AttemptResult) (n : ℕ) (boot : Boot)
    → n < 12
    → result.ok ≡ false
    → ((attempt_with_retry result n boot).gate ≡ boot.gate)
      × ((attempt_with_retry result n boot).pending ≡ some (suc n))
unfolding attempt_with_retry retry_or_give_up
attempt_waits result n boot h bad = ground arith

attempt_settles :
    (result : AttemptResult) (n : ℕ) (boot : Boot)
    → result.ok ≡ true
    → ((attempt_with_retry result n boot).gate
        ≡ record { trading_ready = true; orphan_orders = result.orphans })
      × ((attempt_with_retry result n boot).pending ≡ boot.pending)
unfolding attempt_with_retry
attempt_settles result n boot good = ground arith

attempt_gives_up :
    (result : AttemptResult) (boot : Boot)
    → result.ok ≡ false
    → ((attempt_with_retry result 12 boot).gate ≡ boot.gate)
      × ((attempt_with_retry result 12 boot).pending ≡ boot.pending)
      × ((before : List StartupEffect) × ((attempt_with_retry result 12 boot).effects
            ≡ before ++ (alert_gave_up ∷ [])))
unfolding attempt_with_retry retry_or_give_up
attempt_gives_up result boot bad = (
  ground arith,
  ground arith,
  (
    (boot.effects ++ audited result.audit_events)
        ++ (append_audit_events (event_of sync (startup_gave_up 12) ∷ []) ∷ []),
    rw bad (sym (append_assoc (boot.effects ++ audited result.audit_events) _ _)),
  ),
)

-- A search among the first attempts.
first_success :
    (attempt : ℕ → AttemptResult) (n : ℕ)
    → AllFail attempt n ⊎ ((k : ℕ) × (k < n) × AllFail attempt k × ((attempt (suc k)).ok ≡ true))
first_success attempt zero = inl (λ k one top. ground arith)
first_success attempt (suc n) = elim (first_success attempt n) [
  | inr (k, below, failed, good) ↦ inr (k, omega arith, failed, good)
  | inl failed ↦ elim (Bool-cases (attempt (suc n)).ok) [
    | inl good ↦ inr (n, omega arith, failed, good)
    | inr bad ↦ inl (λ k one top. grind (arith, failed, bad))
  ]
]

module _ (attempt : ℕ → AttemptResult) (boot : Boot) (fresh : boot.pending ≡ none) where
  -- While the attempts fail, each state is that of one more attempt on a closed gate.
  next_attempt :
      (k : ℕ)
      → k < 12
      → AllFail attempt k
      → (b : Boot) × (b.gate ≡ boot.gate)
        × (b.pending ≡ none)
        × (after_retries attempt k boot ≡ attempt_with_retry (attempt (suc k)) (suc k) b)
  unfolding run_startup_reconciliation clear_handle
  next_attempt zero small failed = (clear_handle boot, ground arith, ground arith, refl)
  next_attempt (suc k) small failed =
      let (b, gate, idle, same) =
        next_attempt k (omega arith) (λ j one top. failed j one (omega arith)) in
      let (kept, due) =
        attempt_waits (attempt (suc k)) (suc k) b (omega arith)
          (failed (suc k) (omega arith) (omega arith)) in
      (
        record (attempt_with_retry (attempt (suc k)) (suc k) b) { pending = none },
        kept ∙ gate,
        refl,
        ap (fire_retry attempt) same ∙ fire_due attempt (suc (suc k)) _ due,
      )

  settled :
      (k n : ℕ)
      → (after_retries attempt k boot).pending ≡ none
      → k ≤ n
      → after_retries attempt n boot ≡ after_retries attempt k boot
  settled k zero idle below =
      let same : 0 ≡ k = omega arith in ap (λ j. after_retries attempt j boot) same
  settled k (suc n) idle below = elim (leb-cases k n) [
    | inl lower ↦ ap (fire_retry attempt) (settled k n idle lower) ∙ fire_idle attempt _ idle
    | inr top ↦ let same : suc n ≡ k = omega arith in ap (λ j. after_retries attempt j boot) same
  ]

  -- Within twelve attempts the reconciliation comes to rest with no timer armed: either one
  -- succeeded, all before it failed, and the gate is ready with the orphans that it found; or all
  -- failed, the gate is as it was, and the operator was alerted.
  pub retries_settle :
      let last = after_retries attempt 11 boot in
      (last.pending ≡ none) × (Succeeds attempt last ⊎ GivesUp attempt boot last)
  retries_settle = elim (first_success attempt 12) [
    | inr (k, below, failed, good) ↦
        let (b, gate, idle, same) = next_attempt k below failed in
        let (opened, kept) = attempt_settles (attempt (suc k)) (suc k) b good in
        let rest = ap (λ t. t.pending) same ∙ (kept ∙ idle) in
        let still = settled k 11 rest (omega arith) in
        (
          ap (λ t. t.pending) still ∙ rest,
          inl (k, below, failed, good, ap (λ t. t.gate) (still ∙ same) ∙ opened),
        )
    | inl failed ↦
        let (b, gate, idle, same) =
          next_attempt 11 (omega arith) (λ j one top. failed j one (omega arith)) in
        let (closed, kept, (told, alert)) =
          attempt_gives_up (attempt 12) b (failed 12 (omega arith) (omega arith)) in
        (
          ap (λ t. t.pending) same ∙ (kept ∙ idle),
          inr (
            failed,
            ap (λ t. t.gate) same ∙ (closed ∙ gate),
            (told, ap (λ t. t.effects) same ∙ alert),
          ),
        )
  ]
