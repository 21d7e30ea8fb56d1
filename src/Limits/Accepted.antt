-- ===== src/Limits/Accepted.antt =====
-- Which environments are accepted.
use quantpaca.Base.{
  ◌≡◌, ◌≢◌, refl, ◌⊎◌, ◌↔◌, inl, inr, true, false, List, [], ◌∷◌, ◌++◌, Option, none, some, arith,
  Bool-cases,
}
use mathlib.Core.Bool.{false≢true}
use quantpaca.Js.Number.{num, le, lt}
use quantpaca.Js.Text.{Text, text_eq}
use quantpaca.NumericSafety.{ParsedFiniteNumber, ok, failed}
use quantpaca.Limits.{
  Setting, Loaded, required_positive, raw_of, parsed_of, take_positive, load_positive,
  exposure_setting, take_exposure, baseline_name, take_baseline, load_baseline, load_risk_limits,
}

abbrev pub IsPositive : ParsedFiniteNumber → Type 0
IsPositive (failed reason) = ⊥
IsPositive (ok n) = le n (num 0) ≡ false

abbrev pub IsPercent : ParsedFiniteNumber → Type 0
IsPercent (failed reason) = ⊥
IsPercent (ok n) = (le n (num 0) ≡ false) × (lt (num 100) n ≡ false)

abbrev pub AllPositive : (Text → Option Text) → List Setting → Type 0
AllPositive env [] = Unit
AllPositive env (s ∷ ss) = IsPositive (parsed_of (raw_of env s) s.name) × AllPositive env ss

abbrev pub IsBaseline : Option Text → Type 0
IsBaseline none = Unit
IsBaseline (some raw) = (text_eq raw [] ≡ true) ⊎ IsPositive (parsed_of raw baseline_name)

error_added : (l : List (Text × Text)) (e : Text × Text) → l ++ (e ∷ []) ≢ []
error_added [] e = ground arith
error_added (f ∷ l) e = ground arith

take_positive-IsPositive :
    (s : Setting) (raw : Text) (p : ParsedFiniteNumber) (l : Loaded)
    → ((take_positive s raw p l).errors ≡ []) ↔ (IsPositive p × (l.errors ≡ []))
unfolding take_positive
take_positive-IsPositive s raw (failed reason) l =
    (λ h. absurd (error_added _ _ h), λ h. absurd h.0)
take_positive-IsPositive s raw (ok n) l = ground (arith, error_added l.errors (s.name, raw))

load_positive-AllPositive :
    (env : Text → Option Text) (ss : List Setting) (l : Loaded)
    → ((load_positive env ss l).errors ≡ []) ↔ (AllPositive env ss × (l.errors ≡ []))
unfolding load_positive
load_positive-AllPositive env [] l = (λ h. (tt, h), λ h. h.1)
load_positive-AllPositive env (s ∷ ss) l =
    let raw = raw_of env s in
    let (here, there) = take_positive-IsPositive s raw (parsed_of raw s.name) l in
    let (into, back) =
      load_positive-AllPositive env ss (take_positive s raw (parsed_of raw s.name) l) in
    (
      λ h. let (rest, e) = into h in let (first, before) = here e in ((first, rest), before),
      λ ((first, rest), before). back (rest, there (first, before)),
    )

take_exposure-IsPercent :
    (raw : Text) (p : ParsedFiniteNumber) (l : Loaded)
    → ((take_exposure raw p l).errors ≡ []) ↔ (IsPercent p × (l.errors ≡ []))
unfolding take_exposure
take_exposure-IsPercent raw (failed reason) l = (λ h. absurd (error_added _ _ h), λ h. absurd h.0)
take_exposure-IsPercent raw (ok n) l =
    ground (arith, error_added l.errors (exposure_setting.name, raw))

take_baseline-IsPositive :
    (raw : Text) (p : ParsedFiniteNumber) (l : Loaded)
    → ((take_baseline raw p l).errors ≡ []) ↔ (IsPositive p × (l.errors ≡ []))
unfolding take_baseline
take_baseline-IsPositive raw (failed reason) l = (λ h. absurd (error_added _ _ h), λ h. absurd h.0)
take_baseline-IsPositive raw (ok n) l = ground (arith, error_added l.errors (baseline_name, raw))

load_baseline-IsBaseline :
    (raw : Option Text) (l : Loaded)
    → ((load_baseline raw l).errors ≡ []) ↔ (IsBaseline raw × (l.errors ≡ []))
unfolding load_baseline
load_baseline-IsBaseline none l = (λ h. (tt, h), λ h. h.1)
load_baseline-IsBaseline (some raw) l = elim (Bool-cases (text_eq raw [])) [
  | inl empty ↦ rw empty (λ h. (inl refl, h), λ h. h.1)
  | inr set ↦
      let (into, back) = take_baseline-IsPositive raw (parsed_of raw baseline_name) l in
      rw set (
        λ h. let (read, before) = into h in (inr read, before),
        λ (either, before). elim either [
          | inl absent ↦ absurd (false≢true absent)
          | inr read ↦ back (read, before)
        ],
      )
]

-- The risk limits are accepted exactly if every required setting, or its default, is a positive
-- finite number, the exposure is one of at most 100, and the baseline is unset, empty or positive.
pub load_risk_limits_iff :
    (env : Text → Option Text)
    → ((load_risk_limits env).errors ≡ []) ↔ (
        AllPositive env required_positive
        × IsPercent (parsed_of (raw_of env exposure_setting) exposure_setting.name)
        × IsBaseline (env baseline_name))
unfolding load_risk_limits
load_risk_limits_iff env =
    let raw = raw_of env exposure_setting in
    let start : Loaded = record { limits = []; baseline_equity = none; errors = [] } in
    let positives = load_positive env required_positive start in
    let exposed = take_exposure raw (parsed_of raw exposure_setting.name) positives in
    let (p, p') = load_positive-AllPositive env required_positive start in
    let (e, e') = take_exposure-IsPercent raw (parsed_of raw exposure_setting.name) positives in
    let (b, b') = load_baseline-IsBaseline (env baseline_name) exposed in
    (
      λ h. let (baseline, h1) = b h in let (percent, h2) = e h1 in ((p h2).0, percent, baseline),
      λ (all, percent, baseline). b' (baseline, e' (percent, p' (all, refl))),
    )
