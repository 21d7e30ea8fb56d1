-- ===== src/Sources/Again.antt =====
-- A second load of the registry, after the first has migrated the file.
use quantpaca.Base.{
  ◌≡◌, refl, ap, ◌∙◌, Bool, true, false, not, ◌||◌, List, [], ◌∷◌, ◌++◌, map, Option, none, some,
  if◌then◌else◌, arith, inl, inr, Bool-cases, any, keep,
}
use quantpaca.Js.Text.{Text, text, text_eq, text_eq_refl, trim, filled, includes}
use quantpaca.NumericSafety.{parse_finite_number}
use quantpaca.Js.Number.{num, le}
use quantpaca.Js.Value.{Value, Items, get, values_of}
use quantpaca.Sources.Defaults.{SourceConfig, DefaultSource, default_sources, file_fields}
use quantpaca.Sources.{
  trimmed_string, with_id, entry_id, existing_ids, enabled_sources, missing_defaults,
  migrated_entry, capped_sources, written_entries, load_entries, load_value, load_source_registry,
  parsed, RegistryFile, missing_file, validate_entry, file_threw, json_threw,
  SourceRegistryLoadResult, create_default_file,
}
use quantpaca.Sources.Loaded.{appended_none}

any_append : (p : Text → Bool) (xs ys : List Text) → any p (xs ++ ys) ≡ (any p xs || any p ys)
any_append p [] ys = refl
any_append p (x ∷ xs) ys = ground (arith, any_append p xs ys)

with_id-append :
    (id : Option Text) (xs ys : List Text) → with_id id (xs ++ ys) ≡ with_id id xs ++ ys
unfolding with_id
with_id-append none xs ys = refl
with_id-append (some id) xs ys = refl

existing_append :
    (vs ws : List Value) → existing_ids (vs ++ ws) ≡ existing_ids vs ++ existing_ids ws
unfolding existing_ids
existing_append [] ws = refl
existing_append (v ∷ vs) ws =
    ap (with_id (entry_id v)) (existing_append vs ws) ∙ with_id-append (entry_id v) _ _

-- The ids that the appended entries of defaults are read with are their own.
abbrev AllNamed : List DefaultSource → Type 0
AllNamed [] = Unit
AllNamed (d ∷ ds) = (entry_id (migrated_entry d) ≡ some d.source.id) × AllNamed ds

keep-AllNamed :
    (p : DefaultSource → Bool) (ds : List DefaultSource) → AllNamed ds → AllNamed (keep p ds)
keep-AllNamed p [] h = tt
keep-AllNamed p (d ∷ ds) (h, hs) = elim (Bool-cases (p d)) [
  | inl kept ↦ rw kept (h, keep-AllNamed p ds hs)
  | inr dropped ↦ rw dropped (keep-AllNamed p ds hs)
]

default_sources-AllNamed : AllNamed default_sources
unfolding default_sources entry_id migrated_entry file_fields trimmed_string get trim text text_eq
    filled
default_sources-AllNamed = (refl, (refl, (refl, tt)))

ids_of : List DefaultSource → List Text
ids_of ds = map (λ (d : DefaultSource). d.source.id) ds

appended_ids :
    (ds : List DefaultSource) → AllNamed ds → existing_ids (map migrated_entry ds) ≡ ids_of ds
unfolding existing_ids ids_of with_id
appended_ids [] h = refl
appended_ids (d ∷ ds) (h, hs) =
    ap (λ o. with_id o (existing_ids (map migrated_entry ds))) h
    ∙ ap (λ l. d.source.id ∷ l) (appended_ids ds hs)

abbrev AllIn : List Text → List DefaultSource → Type 0
AllIn ids [] = Unit
AllIn ids (d ∷ ds) = (includes ids d.source.id ≡ true) × AllIn ids ds

one_more :
    (ids more : List Text) (id : Text) (ds : List DefaultSource)
    → AllIn (ids ++ more) ds
    → AllIn (ids ++ (id ∷ more)) ds
unfolding includes
one_more ids more id [] h = tt
one_more ids more id (d ∷ ds) (h, hs) = (
  ground (
    arith,
    h,
    any_append (λ t. text_eq t d.source.id) ids more,
    any_append (λ t. text_eq t d.source.id) ids (id ∷ more),
  ),
  one_more ids more id ds hs,
)

covered_one :
    (ids : List Text) (d : DefaultSource) (ds rest : List DefaultSource) (held : Bool)
    → includes ids d.source.id ≡ held
    → AllIn (ids ++ ids_of rest) ds
    → AllIn (ids ++ ids_of (if not held then d ∷ rest else rest)) (d ∷ ds)
unfolding ids_of includes
covered_one ids d ds rest true e h =
    (ground (arith, e, any_append (λ t. text_eq t d.source.id) ids (ids_of rest)), h)
covered_one ids d ds rest false e h = (
  ground (
    arith,
    any_append (λ t. text_eq t d.source.id) ids (d.source.id ∷ ids_of rest),
    text_eq_refl d.source.id,
  ),
  one_more ids (ids_of rest) d.source.id ds h,
)

covered :
    (ids : List Text) (ds : List DefaultSource)
    → AllIn (ids ++ ids_of (keep (λ (d : DefaultSource). not (includes ids d.source.id)) ds)) ds
covered ids [] = tt
covered ids (d ∷ ds) = covered_one ids d ds _ (includes ids d.source.id) refl (covered ids ds)

none_missing :
    (ids : List Text) (ds : List DefaultSource)
    → AllIn ids ds
    → keep (λ (d : DefaultSource). not (includes ids d.source.id)) ds ≡ []
none_missing ids [] h = refl
none_missing ids (d ∷ ds) (h, hs) = rw h (none_missing ids ds hs)

migrated_complete :
    (entries : List Value)
    → missing_defaults (entries ++ map migrated_entry (missing_defaults entries)) ≡ []
unfolding missing_defaults
migrated_complete entries =
    let ids = existing_ids entries in
    let added = missing_defaults entries in
    let same : existing_ids (entries ++ map migrated_entry added) ≡ ids ++ ids_of added =
      existing_append entries (map migrated_entry added)
      ∙ ap (λ l. ids ++ l)
          (appended_ids added (keep-AllNamed _ default_sources default_sources-AllNamed)) in
    rw same (none_missing (ids ++ ids_of added) default_sources (covered ids default_sources))

written_is :
    (ds : List DefaultSource) (entries next : List Value)
    → written_entries ds entries ≡ some next
    → next ≡ entries
unfolding written_entries
written_is [] entries next h = cc
written_is (d ∷ ds) entries next h = cc

written_same : (entries next : List Value) → some entries ≡ some next → next ≡ entries
written_same entries next h = cc

-- What a second load of the entries gives: the same sources, and nothing to add.
abbrev pub Settles : List SourceConfig → SourceRegistryLoadResult → Type 0
Settles sources second =
    (second.migrated_ids ≡ []) × (second.written ≡ none) × (second.sources ≡ sources)

settle_entries :
    (entries next : List Value)
    → written_entries
        (missing_defaults entries)
        (entries ++ map migrated_entry (missing_defaults entries))
      ≡ some next
    → Settles (load_entries entries).sources (load_entries next)
unfolding load_entries written_entries ids_of
settle_entries entries next h =
    let extended = entries ++ map migrated_entry (missing_defaults entries) in
    let same : next ≡ extended = written_is (missing_defaults entries) extended _ h in
    let complete : missing_defaults next ≡ [] =
      ap missing_defaults same ∙ migrated_complete entries in
    (
      ap ids_of complete,
      ap (λ ds. written_entries ds (next ++ map migrated_entry ds)) complete,
      ap capped_sources
          (appended_none 0 next (missing_defaults next) ∙ ap (enabled_sources 0) same),
    )

-- The entries of the default file.
default_entries : List Value
default_entries =
    map (λ (d : DefaultSource). Value.object (file_fields d d.source.enabled)) default_sources

settle_defaults :
    (writable : Bool)
    → Settles (create_default_file writable).sources (load_entries default_entries)
unfolding create_default_file load_entries default_entries missing_defaults default_sources
    file_fields existing_ids entry_id with_id trimmed_string get trim text text_eq filled includes
    written_entries capped_sources enabled_sources validate_entry parse_finite_number num le
settle_defaults writable = (refl, refl, refl)

-- A load of what a load has written, be it the default file or a file with the defaults that it
-- lacked, migrates nothing, writes nothing and gives the same sources.
pub reload_migrates_nothing :
    (writable : Bool) (file : RegistryFile) (next : Items)
    → (load_source_registry writable file).written ≡ some (values_of next)
    → Settles
        (load_source_registry writable file).sources
        (load_source_registry writable (parsed (Value.array next)))
unfolding load_source_registry load_value load_entries create_default_file default_entries
reload_migrates_nothing writable missing_file next h =
    let same : values_of next ≡ default_entries = written_same default_entries (values_of next) h in
    rw same (settle_defaults writable)
reload_migrates_nothing writable file_threw next h = cc
reload_migrates_nothing writable json_threw next h = cc
reload_migrates_nothing writable (parsed (Value.array items)) next h =
    settle_entries (values_of items) (values_of next) h
reload_migrates_nothing writable (parsed _) next h = cc
