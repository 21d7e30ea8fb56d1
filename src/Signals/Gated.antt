-- ===== src/Signals/Gated.antt =====
-- What the gates on signals let through.
use quantpaca.Base.{◌≡◌, ◌≢◌, refl, ap, inl, inr, Bool-cases, arith}
use quantpaca.Js.Number.{Number}
use quantpaca.Js.Text.{text, text_eq, text_eq_sound}
use quantpaca.Js.Value.{Value}
use quantpaca.Signals.{
  SignalDecision, sell, buy, hold, nothing, WhipsawVerdict, reversal, whipsaw, unclear,
  normalize_whipsaw_verdict, gate_sell, gated, apply_whipsaw_gate,
}

reversal_only :
    (verdict : Value)
    → normalize_whipsaw_verdict verdict ≡ reversal
    → verdict ≡ Value.string (text "reversal")
unfolding normalize_whipsaw_verdict
reversal_only (Value.string s) h = elim (Bool-cases (text_eq s (text "reversal"))) [
  | inl same ↦ ap Value.string (text_eq_sound s (text "reversal") same)
  | inr other ↦ ground (arith, h, other)
]
reversal_only _ h = cc

sell_passes :
    (verdict : WhipsawVerdict) (confidence : Number)
    → (gate_sell verdict confidence).decision ≡ sell
    → verdict ≡ reversal
unfolding gate_sell gated
sell_passes reversal confidence h = refl
sell_passes whipsaw confidence h = cc
sell_passes unclear confidence h = cc

never_buys :
    (verdict : WhipsawVerdict) (confidence : Number) → (gate_sell verdict confidence).decision ≢ buy
unfolding gate_sell gated
never_buys reversal confidence h = cc
never_buys whipsaw confidence h = cc
never_buys unclear confidence h = cc

-- A sell comes out of the gate only where one went in with the very verdict "reversal", and a buy
-- only where one went in.
pub apply_whipsaw_gate_lem :
    (decision : SignalDecision) (verdict : Value) (confidence : Number)
    → ((apply_whipsaw_gate decision verdict confidence).decision ≡ sell
        → (decision ≡ sell) × (verdict ≡ Value.string (text "reversal")))
      × ((apply_whipsaw_gate decision verdict confidence).decision ≡ buy → decision ≡ buy)
unfolding apply_whipsaw_gate
apply_whipsaw_gate_lem sell verdict confidence = (
  λ h. (refl, reversal_only verdict (sell_passes _ confidence h)),
  λ h. absurd (never_buys _ confidence h),
)
apply_whipsaw_gate_lem buy verdict confidence = (λ h. cc, λ h. refl)
apply_whipsaw_gate_lem hold verdict confidence = (λ h. cc, λ h. cc)
apply_whipsaw_gate_lem nothing verdict confidence = (λ h. cc, λ h. cc)
