-- ===== src/Startup/Gate.antt =====
-- When src/server/startupReconciliation.ts lets buys through, over every order of its events.
use quantpaca.Base.{
  ◌≡◌, refl, sym, ap, ◌∙◌, inl, inr, ℕ, Bool, true, false, List, [], ◌∷◌, none, arith, Bool-cases,
}
use quantpaca.Trading.Types.{buy, sell, OrphanOrder}
use quantpaca.Startup.{
  Boot, AttemptResult, closed_gate, buy_gate_rejection_reason, clear_orphans, attempt_with_retry,
  retry_or_give_up,
}

-- What happens to the module after it was loaded.
pub data StartupEvent : Type 0 where
  attempted : AttemptResult → StartupEvent
  orphans_cleared : StartupEvent

-- The states that a process with a configured broker can be in, with the events so far, the newest
-- first: attempts of any number in any order, and admins who clear the orphans at any time.
pub data Reaches : List StartupEvent → Boot → Type 0 where
  loaded : {boot : Boot} → boot.gate ≡ closed_gate → Reaches [] boot
  attempt_made :
      {events : List StartupEvent} {boot : Boot} (result : AttemptResult) (n : ℕ)
      → Reaches events boot
      → Reaches (attempted result ∷ events) (attempt_with_retry result n boot)
  admin_cleared :
      {events : List StartupEvent} {boot : Boot}
      → Reaches events boot
      → Reaches (orphans_cleared ∷ events) (record boot { gate = (clear_orphans boot.gate).0 })

pub data HasSwept : List StartupEvent → Type 0 where
  swept :
      {events : List StartupEvent} (result : AttemptResult)
      → result.ok ≡ true
      → HasSwept (attempted result ∷ events)
  before : {events : List StartupEvent} (e : StartupEvent) → HasSwept events → HasSwept (e ∷ events)

-- The last successful attempt found no orphan, or an admin cleared them after it.
pub data OpenedBy : List StartupEvent → Type 0 where
  swept_clean :
      {events : List StartupEvent} (result : AttemptResult)
      → result.ok ≡ true
      → result.orphans ≡ []
      → OpenedBy (attempted result ∷ events)
  failed_since :
      {events : List StartupEvent} (result : AttemptResult)
      → result.ok ≡ false
      → OpenedBy events
      → OpenedBy (attempted result ∷ events)
  reviewed : {events : List StartupEvent} → HasSwept events → OpenedBy (orphans_cleared ∷ events)

attempt-fails :
    (result : AttemptResult) (n : ℕ) (boot : Boot)
    → result.ok ≡ false
    → (attempt_with_retry result n boot).gate ≡ boot.gate
unfolding attempt_with_retry retry_or_give_up
attempt-fails result n boot h = ground arith

attempt-succeeds :
    (result : AttemptResult) (n : ℕ) (boot : Boot)
    → result.ok ≡ true
    → (attempt_with_retry result n boot).gate
      ≡ record { trading_ready = true; orphan_orders = result.orphans }
unfolding attempt_with_retry
attempt-succeeds result n boot h = ground arith

ready-HasSwept :
    {events : List StartupEvent} {boot : Boot}
    → Reaches events boot
    → boot.gate.trading_ready ≡ true
    → HasSwept events
unfolding clear_orphans
ready-HasSwept (loaded {boot} h) r = cc
ready-HasSwept (attempt_made {events} {boot} result n past) r = elim (Bool-cases result.ok) [
  | inl good ↦ swept result good
  | inr bad ↦
      before _ (
        ready-HasSwept past (sym (ap (λ g. g.trading_ready) (attempt-fails result n boot bad)) ∙ r))
]
ready-HasSwept (admin_cleared past) r = before _ (ready-HasSwept past r)

open_parts :
    (ready : Bool) (orphans : List OrphanOrder)
    → buy_gate_rejection_reason buy (record { trading_ready = ready; orphan_orders = orphans })
      ≡ none
    → (ready ≡ true) × (orphans ≡ [])
unfolding buy_gate_rejection_reason
open_parts false orphans h = cc
open_parts true [] h = (refl, refl)
open_parts true (o ∷ os) h = ground arith

opens :
    {events : List StartupEvent} {boot : Boot}
    → Reaches events boot
    → boot.gate.trading_ready ≡ true
    → boot.gate.orphan_orders ≡ []
    → OpenedBy events
unfolding clear_orphans
opens (loaded h) r o = cc
opens (attempt_made {events} {boot} result n past) r o = elim (Bool-cases result.ok) [
  | inl good ↦
      swept_clean result good
        (sym (ap (λ g. g.orphan_orders) (attempt-succeeds result n boot good)) ∙ o)
  | inr bad ↦
      let same = attempt-fails result n boot bad in
      failed_since result bad (
        opens past (sym (ap (λ g. g.trading_ready) same) ∙ r)
          (sym (ap (λ g. g.orphan_orders) same) ∙ o))
]
opens (admin_cleared past) r o = reviewed (ready-HasSwept past r)

-- Whatever the order of attempts and clearings: buys pass only once an attempt has succeeded, and
-- only if the last successful one found no orphan or an admin cleared the orphans since. A sell
-- passes in every state.
pub open-OpenedBy :
    {events : List StartupEvent} {boot : Boot}
    → Reaches events boot
    → (buy_gate_rejection_reason buy boot.gate ≡ none → OpenedBy events)
      × (buy_gate_rejection_reason sell boot.gate ≡ none)
unfolding buy_gate_rejection_reason
open-OpenedBy {events} {boot} reaches = (
  λ h.
      let (ready, clear) = open_parts boot.gate.trading_ready boot.gate.orphan_orders h in
      opens reaches ready clear,
  refl,
)
