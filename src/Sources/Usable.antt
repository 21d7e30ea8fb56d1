-- ===== src/Sources/Usable.antt =====
-- That the sources a load enables have passed every check of src/server/sourceRegistry.ts.
use quantpaca.Base.{
  ℕ, suc, ◌≡◌, ◌≢◌, refl, Bool, true, false, List, [], ◌∷◌, Option, none, some, inl, inr,
  Bool-cases, every,
}
use quantpaca.Js.Number.{Number, num, le, is_finite}
use quantpaca.Js.Text.{Text, trim, filled}
use quantpaca.Js.Value.{Value, Items}
use quantpaca.NumericSafety.{ok, parse_finite_number, numeric_value}
use quantpaca.Signals.Review.{TrustTier}
use quantpaca.Sources.Defaults.{SourceConfig}
use quantpaca.Sources.{
  trimmed_string, with_item, allow_items, allowlist_of, max_age_of, checked_entry, validate_entry,
  enabled_source, enabled_sources,
}

-- A source that a cycle may ingest.
pub record IsUsable (source : SourceConfig) : Type 0 where
  pub switched_on : source.enabled ≡ true
  pub named : filled source.id ≡ true
  pub asked : filled source.gmail_query ≡ true
  pub some_sender : source.sender_allowlist ≢ []
  pub senders : every filled source.sender_allowlist ≡ true
  pub finite_age : is_finite source.max_age_hours ≡ true
  pub positive_age : le source.max_age_hours (num 0) ≡ false

abbrev pub AllUsable : List SourceConfig → Type 0
AllUsable [] = Unit
AllUsable (s ∷ ss) = IsUsable s × AllUsable ss

-- The predicate on what was read, where something was.
abbrev Reads : {A : Type 0} → (A → Type 0) → Option A → Type 0
Reads P none = Unit
Reads P (some x) = P x

trimmed_string-Reads : (v : Value) → Reads (λ t. filled t ≡ true) (trimmed_string v)
unfolding trimmed_string
trimmed_string-Reads Value.undefined = tt
trimmed_string-Reads Value.null = tt
trimmed_string-Reads (Value.bool b) = tt
trimmed_string-Reads (Value.number n) = tt
trimmed_string-Reads (Value.string s) = elim (Bool-cases (filled (trim s))) [
  | inl full ↦ rw full full
  | inr blank ↦ rw blank tt
]
trimmed_string-Reads (Value.array vs) = tt
trimmed_string-Reads (Value.object fs) = tt

with_item-Reads :
    (t : Option Text) (ts : Option (List Text))
    → Reads (λ s. filled s ≡ true) t
    → Reads (λ ss. every filled ss ≡ true) ts
    → Reads (λ ss. (ss ≢ []) × (every filled ss ≡ true)) (with_item t ts)
unfolding with_item
with_item-Reads (some t) (some ts) h hs = (λ e. cc, rw h hs)
with_item-Reads (some t) none h hs = tt
with_item-Reads none ts h hs = tt

all_filled :
    (ts : Option (List Text))
    → Reads (λ ss. (ss ≢ []) × (every filled ss ≡ true)) ts
    → Reads (λ ss. every filled ss ≡ true) ts
all_filled none h = tt
all_filled (some ts) h = h.1

allow_items-Reads : (vs : Items) → Reads (λ ss. every filled ss ≡ true) (allow_items vs)
unfolding allow_items
allow_items-Reads Items.nil = refl
allow_items-Reads (Items.cons v vs) =
    all_filled _ (with_item-Reads _ _ (trimmed_string-Reads v) (allow_items-Reads vs))

allowlist_of-Reads :
    (v : Value) → Reads (λ ss. (ss ≢ []) × (every filled ss ≡ true)) (allowlist_of v)
unfolding allowlist_of allow_items
allowlist_of-Reads Value.undefined = tt
allowlist_of-Reads Value.null = tt
allowlist_of-Reads (Value.bool b) = tt
allowlist_of-Reads (Value.number n) = tt
allowlist_of-Reads (Value.string s) = tt
allowlist_of-Reads (Value.array Items.nil) = tt
allowlist_of-Reads (Value.array (Items.cons v vs)) =
    with_item-Reads _ _ (trimmed_string-Reads v) (allow_items-Reads vs)
allowlist_of-Reads (Value.object fs) = tt

positive_age-Reads :
    (n : Number)
    → is_finite n ≡ true
    → Reads (λ m. (is_finite m ≡ true) × (le m (num 0) ≡ false)) (max_age_of (ok n))
unfolding max_age_of
positive_age-Reads n h = elim (Bool-cases (le n (num 0))) [
  | inl low ↦ rw low tt
  | inr high ↦ rw high (h, high)
]

max_age-Reads :
    (v : Value) (t : Text)
    → Reads
        (λ m. (is_finite m ≡ true) × (le m (num 0) ≡ false))
        (max_age_of (parse_finite_number v t))
unfolding parse_finite_number max_age_of
max_age-Reads v t = elim (Bool-cases (is_finite (numeric_value v))) [
  | inl finite ↦ rw finite (positive_age-Reads _ finite)
  | inr odd ↦ rw odd tt
]

checked-IsUsable :
    (index : ℕ) (id query : Option Text) (senders : Option (List Text)) (tier : Option TrustTier)
    (age : Option Number) (enabled : Option Bool) (hint : Option (Option Text))
    (rest : List SourceConfig)
    → Reads (λ t. filled t ≡ true) id
    → Reads (λ t. filled t ≡ true) query
    → Reads (λ ss. (ss ≢ []) × (every filled ss ≡ true)) senders
    → Reads (λ m. (is_finite m ≡ true) × (le m (num 0) ≡ false)) age
    → AllUsable rest
    → AllUsable (enabled_source (checked_entry index id query senders tier age enabled hint) rest)
unfolding checked_entry enabled_source
checked-IsUsable index none query senders tier age enabled hint rest h q s a r = r
checked-IsUsable index (some id) none senders tier age enabled hint rest h q s a r = r
checked-IsUsable index (some id) (some query) none tier age enabled hint rest h q s a r = r
checked-IsUsable index (some id) (some query) (some ss) none age enabled hint rest h q s a r = r
checked-IsUsable index (some id) (some query) (some ss) (some tier) none enabled hint rest h q s a
      r =
    r
checked-IsUsable index (some id) (some query) (some ss) (some tier) (some age) none hint rest h q s
      a r =
    r
checked-IsUsable index (some id) (some query) (some ss) (some tier) (some age) (some on) none rest h
      q s a r =
    r
checked-IsUsable index (some id) (some query) (some ss) (some tier) (some age) (some true)
      (some hint) rest h q s a r =
    (
      record {
        switched_on = refl;
        named = h;
        asked = q;
        some_sender = s.0;
        senders = s.1;
        finite_age = a.0;
        positive_age = a.1;
      },
      r,
    )
checked-IsUsable index (some id) (some query) (some ss) (some tier) (some age) (some false)
      (some hint) rest h q s a r =
    r

entry-IsUsable :
    (index : ℕ) (v : Value) (rest : List SourceConfig)
    → AllUsable rest
    → AllUsable (enabled_source (validate_entry index v) rest)
unfolding validate_entry enabled_source
entry-IsUsable index (Value.object fs) rest r =
    checked-IsUsable index _ _ _ _ _ _ _ rest (trimmed_string-Reads _) (trimmed_string-Reads _)
      (allowlist_of-Reads _) (max_age-Reads _ _) r
entry-IsUsable index Value.undefined rest r = r
entry-IsUsable index Value.null rest r = r
entry-IsUsable index (Value.bool b) rest r = r
entry-IsUsable index (Value.number n) rest r = r
entry-IsUsable index (Value.string s) rest r = r
entry-IsUsable index (Value.array vs) rest r = r

pub enabled_sources-AllUsable : (index : ℕ) (vs : List Value) → AllUsable (enabled_sources index vs)
unfolding enabled_sources
enabled_sources-AllUsable index [] = tt
enabled_sources-AllUsable index (v ∷ vs) =
    entry-IsUsable index v _ (enabled_sources-AllUsable (suc index) vs)
