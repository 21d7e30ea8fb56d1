-- ===== src/Sources/Loaded.antt =====
-- What a load of the registry gives.
use quantpaca.Base.{
  ℕ, zero, suc, ◌≤◌, ◌≡◌, refl, sym, ap, ◌∙◌, Bool, false, List, [], ◌∷◌, ◌++◌, map, Option, none,
  some, arith, inl, inr, Bool-cases, ltb, take, length, length-take,
}
use quantpaca.Js.Number.{Number}
use quantpaca.Js.Text.{Text, text, text_eq}
use quantpaca.Js.Value.{Value, Items, get, values_of}
use quantpaca.Signals.Review.{TrustTier}
use quantpaca.Sources.Defaults.{SourceConfig, DefaultSource, file_fields}
use quantpaca.Sources.{
  bool_of, checked_entry, validate_entry, enabled_source, enabled_sources, drop, missing_defaults,
  migrated_entry, capped_sources, over_cap, load_entries, load_value, load_source_registry, parsed,
  max_enabled_sources_per_cycle,
}
use quantpaca.Sources.Usable.{AllUsable, enabled_sources-AllUsable}

disabled :
    (index : ℕ) (id query : Option Text) (senders : Option (List Text)) (tier : Option TrustTier)
    (age : Option Number) (hint : Option (Option Text)) (rest : List SourceConfig)
    → enabled_source (checked_entry index id query senders tier age (some false) hint) rest ≡ rest
unfolding checked_entry enabled_source
disabled index none query senders tier age hint rest = refl
disabled index (some id) none senders tier age hint rest = refl
disabled index (some id) (some query) none tier age hint rest = refl
disabled index (some id) (some query) (some ss) none age hint rest = refl
disabled index (some id) (some query) (some ss) (some tier) none hint rest = refl
disabled index (some id) (some query) (some ss) (some tier) (some age) none rest = refl
disabled index (some id) (some query) (some ss) (some tier) (some age) (some hint) rest = refl

migrated_disabled :
    (index : ℕ) (d : DefaultSource) (rest : List SourceConfig)
    → enabled_source (validate_entry index (migrated_entry d)) rest ≡ rest
unfolding validate_entry migrated_entry file_fields get text text_eq bool_of
migrated_disabled index d rest = disabled index _ _ _ _ _ _ rest

migrated_none :
    (index : ℕ) (ds : List DefaultSource) → enabled_sources index (map migrated_entry ds) ≡ []
unfolding enabled_sources
migrated_none index [] = refl
migrated_none index (d ∷ ds) = migrated_disabled index d _ ∙ migrated_none (suc index) ds

-- No default that is appended is enabled.
pub appended_none :
    (index : ℕ) (vs : List Value) (ds : List DefaultSource)
    → enabled_sources index (vs ++ map migrated_entry ds) ≡ enabled_sources index vs
unfolding enabled_sources
appended_none index [] ds = migrated_none index ds
appended_none index (v ∷ vs) ds =
    ap (enabled_source (validate_entry index v)) (appended_none (suc index) vs ds)

take_all : (n : ℕ) (xs : List SourceConfig) → ltb n (length xs) ≡ false → take n xs ≡ xs
take_all zero [] h = refl
take_all zero (x ∷ xs) h = absurd (ground (arith, h))
take_all (suc n) [] h = refl
take_all (suc n) (x ∷ xs) h = ap (λ l. x ∷ l) (take_all n xs (ground (arith, h)))

drop_all : (n : ℕ) (xs : List SourceConfig) → ltb n (length xs) ≡ false → drop n xs ≡ []
unfolding drop
drop_all zero [] h = refl
drop_all zero (x ∷ xs) h = absurd (ground (arith, h))
drop_all (suc n) [] h = refl
drop_all (suc n) (x ∷ xs) h = drop_all n xs (ground (arith, h))

capped_sources-take :
    (xs : List SourceConfig) → capped_sources xs ≡ take max_enabled_sources_per_cycle xs
unfolding capped_sources
capped_sources-take xs = elim (Bool-cases (ltb max_enabled_sources_per_cycle (length xs))) [
  | inl over ↦ rw over refl
  | inr within ↦ rw within (sym (take_all max_enabled_sources_per_cycle xs within))
]

over_cap-drop :
    (xs : List SourceConfig)
    → over_cap xs ≡ map (λ (s : SourceConfig). s.id) (drop max_enabled_sources_per_cycle xs)
unfolding over_cap
over_cap-drop xs = elim (Bool-cases (ltb max_enabled_sources_per_cycle (length xs))) [
  | inl over ↦ rw over refl
  | inr within ↦ rw within (
      ap (map (λ (s : SourceConfig). s.id))
        (sym (drop_all max_enabled_sources_per_cycle xs within)))
]

take-AllUsable : (n : ℕ) (xs : List SourceConfig) → AllUsable xs → AllUsable (take n xs)
take-AllUsable zero xs h = tt
take-AllUsable (suc n) [] h = tt
take-AllUsable (suc n) (x ∷ xs) (h, hs) = (h, take-AllUsable n xs hs)

-- Of a file with a list of entries, the sources are the first eight of the entries that the file
-- itself enables and that pass every check, each of them usable, and the ids of the others are
-- reported; a default that the load appends is never among them.
pub load_source_registry_lem :
    (writable : Bool) (items : Items)
    → let r = load_source_registry writable (parsed (Value.array items)) in
      let own = enabled_sources 0 (values_of items) in
      (r.sources ≡ take max_enabled_sources_per_cycle own)
      × (r.capped_ids ≡ map (λ (s : SourceConfig). s.id) (drop max_enabled_sources_per_cycle own))
      × (length r.sources ≤ max_enabled_sources_per_cycle)
      × AllUsable r.sources
unfolding load_source_registry load_value load_entries
load_source_registry_lem writable items =
    let entries = values_of items in
    let same = appended_none 0 entries (missing_defaults entries) in
    let sources = ap capped_sources same ∙ capped_sources-take (enabled_sources 0 entries) in
    (
      sources,
      ap over_cap same ∙ over_cap-drop (enabled_sources 0 entries),
      omega (
        arith,
        ap (length {0}) sources,
        length-take max_enabled_sources_per_cycle (enabled_sources 0 entries),
      ),
      rw sources
          (take-AllUsable max_enabled_sources_per_cycle _ (enabled_sources-AllUsable 0 entries)),
    )
