-- ===== src/Store/Lasting.antt =====
-- How a cooldown row of src/server/persistence.ts outlasts later writes.
use quantpaca.Base.{
  ◌≡◌, refl, ap, ◌⊎◌, inl, inr, Bool, true, false, not, ◌&&◌, List, [], ◌∷◌, map, arith, keep, any,
  Bool-cases,
}
use quantpaca.Js.Number.{Number, lt, le}
use quantpaca.Js.Order.{le-not-lt, le_trans}
use quantpaca.Js.Text.{Text, text_eq, text_eq_sound, includes}
use quantpaca.Execution.Run.{
  StoreEffect, save_breaker_state, append_audit_events, save_trade_intent, save_risk_decision,
  save_exit_plan, save_cooldown,
}
use quantpaca.Store.{
  Store, put_trade_intent, put_exit_plan, put_cooldown, list_active_cooldown_symbols, apply_effect,
  apply_effects,
}

-- A write leaves the symbol without a cooldown that ends by the time.
abbrev pub Spares : Text → Number → StoreEffect → Type 0
Spares symbol late (save_cooldown s until) = (text_eq s symbol ≡ false) ⊎ (lt late until ≡ true)
Spares symbol late _ = Unit

abbrev pub AllSpare : Text → Number → List StoreEffect → Type 0
AllSpare symbol late [] = Unit
AllSpare symbol late (e ∷ es) = Spares symbol late e × AllSpare symbol late es

-- Writes that are made by the time, each run of them at its own.
abbrev pub Spared : Text → Number → List (Number × List StoreEffect) → Type 0
Spared symbol late [] = Unit
Spared symbol late ((now, es) ∷ runs) =
    (le now late ≡ true) × AllSpare symbol late es × Spared symbol late runs

-- The store after runs of writes, one after the other.
pub apply_runs : List (Number × List StoreEffect) → Store → Store
apply_runs [] store = store
apply_runs ((now, es) ∷ runs) store = apply_runs runs (apply_effects now es store)

unfoldable pub is_guard : Text → Number → Text × Number → Bool
is_guard symbol late (s, until) = text_eq s symbol && lt late until

-- A row of the symbol is active at the time.
unfoldable pub Guards : Text → Number → Store → Type 0
Guards symbol late store = any (is_guard symbol late) store.symbol_cooldowns ≡ true

any-keep {ℓ} :
    {A : Type ℓ} (p k : A → Bool)
    → ((x : A) → p x ≡ true → k x ≡ true)
    → (xs : List A) → any p xs ≡ true
    → any p (keep k xs) ≡ true
any-keep p k h [] found = found
any-keep p k h (x ∷ xs) found = elim (Bool-cases (p x)) [
  | inl here ↦ rw (h x here, here) refl
  | inr there ↦ ground (arith, there, found, any-keep p k h xs)
]

-- A row that is active at the time has not expired before.
not_expired :
    (now late until : Number) → le now late ≡ true → lt late until ≡ true → le until now ≡ false
not_expired now late until h k = elim (Bool-cases (le until now)) [
  | inl early ↦ ground (arith, le-not-lt until late (le_trans until now late early h), k)
  | inr fine ↦ fine
]

survives :
    (now late : Number) (symbol s : Text)
    → le now late ≡ true
    → text_eq s symbol ≡ false
    → (row : Text × Number) → is_guard symbol late row ≡ true
    → (not (le row.1 now) && not (text_eq row.0 s)) ≡ true
unfolding is_guard
survives now late symbol s h other (t, until) guards = elim (Bool-cases (text_eq t s)) [
  | inl same ↦ ground (arith, guards, other, ap (λ u. text_eq u symbol) (text_eq_sound t s same))
  | inr differs ↦ ground (arith, guards, differs, not_expired now late until h)
]

put_cooldown-Guards :
    (now late until : Number) (symbol s : Text) (store : Store)
    → le now late ≡ true
    → ((text_eq s symbol ≡ false) ⊎ (lt late until ≡ true))
    → Guards symbol late store
    → Guards symbol late (put_cooldown now s until store)
unfolding put_cooldown Guards is_guard
put_cooldown-Guards now late until symbol s store h spared guards =
    elim (Bool-cases (text_eq s symbol)) [
      | inl same ↦ ground (arith, same, spared)
      | inr other ↦ rw other (
          any-keep (is_guard symbol late) (λ (t, u). not (le u now) && not (text_eq t s))
            (survives now late symbol s h other) store.symbol_cooldowns guards)
    ]

apply_effect-Guards :
    (now late : Number) (symbol : Text) (e : StoreEffect) (store : Store)
    → le now late ≡ true
    → Spares symbol late e
    → Guards symbol late store
    → Guards symbol late (apply_effect now e store)
unfolding apply_effect put_trade_intent put_exit_plan Guards
apply_effect-Guards now late symbol (save_cooldown s until) store h spared guards =
    put_cooldown-Guards now late until symbol s store h spared guards
apply_effect-Guards now late symbol (save_trade_intent trade) store h spared guards = guards
apply_effect-Guards now late symbol (save_exit_plan id plan) store h spared guards = guards
apply_effect-Guards now late symbol (save_breaker_state b l) store h spared guards = guards
apply_effect-Guards now late symbol (append_audit_events events) store h spared guards = guards
apply_effect-Guards now late symbol (save_risk_decision id d) store h spared guards = guards

apply_effects-Guards :
    (now late : Number) (symbol : Text) (es : List StoreEffect) (store : Store)
    → le now late ≡ true
    → AllSpare symbol late es
    → Guards symbol late store
    → Guards symbol late (apply_effects now es store)
unfolding apply_effects
apply_effects-Guards now late symbol [] store h spared guards = guards
apply_effects-Guards now late symbol (e ∷ es) store h (here, rest) guards =
    apply_effects-Guards now late symbol es _ h rest
      (apply_effect-Guards now late symbol e store h here guards)

pub apply_runs-Guards :
    (late : Number) (symbol : Text) (runs : List (Number × List StoreEffect)) (store : Store)
    → Spared symbol late runs
    → Guards symbol late store
    → Guards symbol late (apply_runs runs store)
unfolding apply_runs
apply_runs-Guards late symbol [] store spared guards = guards
apply_runs-Guards late symbol ((now, es) ∷ runs) store (h, here, rest) guards =
    apply_runs-Guards late symbol runs _ rest
      (apply_effects-Guards now late symbol es store h here guards)

listed :
    (late : Number) (symbol : Text) (rows : List (Text × Number))
    → any (is_guard symbol late) rows ≡ true
    → includes (map (λ (s, until). s) (keep (λ (s, until). lt late until) rows)) symbol ≡ true
unfolding includes is_guard
listed late symbol [] h = h
listed late symbol ((s, until) ∷ rows) h = ground (arith, listed late symbol rows, h)

-- The symbol is on the list of that time.
pub guard_listed :
    (late : Number) (symbol : Text) (store : Store)
    → Guards symbol late store
    → includes (list_active_cooldown_symbols late store) symbol ≡ true
unfolding list_active_cooldown_symbols Guards
guard_listed late symbol store h = listed late symbol store.symbol_cooldowns h
