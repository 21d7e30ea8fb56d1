-- ===== src/Js/Object.antt =====
-- Objects and maps keyed by strings: their entries in the order of insertion.
use quantpaca.Base.{
  ◌≡◌, refl, ◌⊎◌, inl, inr, Bool, true, false, List, [], ◌∷◌, Option, none, some, if◌then◌else◌,
  Bool-cases,
}
use quantpaca.Js.Text.{Text, text_eq}

-- `object[key]`
unfoldable pub lookup {ℓ} : {A : Type ℓ} → Text → List (Text × A) → Option A
lookup key [] = none
lookup key ((k, a) ∷ l) = if text_eq k key then some a else lookup key l

-- `object[key] = value`: a key that is present keeps its place.
unfoldable pub store {ℓ} : {A : Type ℓ} → Text → A → List (Text × A) → List (Text × A)
store key a [] = (key, a) ∷ []
store key a ((k, b) ∷ l) = if text_eq k key then (k, a) ∷ l else (k, b) ∷ store key a l

-- `Object.keys`
unfoldable pub keys {ℓ} : {A : Type ℓ} → List (Text × A) → List Text
keys [] = []
keys ((k, a) ∷ l) = k ∷ keys l

unfoldable pub has_key : Text → List Text → Bool
has_key key [] = false
has_key key (k ∷ ks) = if text_eq k key then true else has_key key ks

pub has_key-keys {ℓ} :
    {A : Type ℓ} (key : Text) (l : List (Text × A))
    → (lookup key l ≡ none) ⊎ (has_key key (keys l) ≡ true)
unfolding lookup has_key keys
has_key-keys key [] = inl refl
has_key-keys key ((k, a) ∷ l) = elim (Bool-cases (text_eq k key)) [
  | inl same ↦ inr (rw same refl)
  | inr other ↦ rw other (has_key-keys key l)
]
