-- ===== src/Tests/Sources.antt =====
-- The source registry at concrete inputs.
use quantpaca.Base.{refl, some, ◌≡◌, List, ◌++◌, ◌≤◌, true, [], ◌∷◌, map, none, take, length}
use quantpaca.Js.Number.{num}
use quantpaca.Js.Text.{text, text_eq, trim, filled, includes}
use quantpaca.Js.Value.{Value, Items, values_of, get}
use quantpaca.Signals.Review.{medium}
use quantpaca.Sources.Defaults.{SourceConfig, default_sources, file_fields}
use quantpaca.Sources.{
  load_source_registry, parsed, enabled_sources, drop, max_enabled_sources_per_cycle, entry_id,
  with_id, existing_ids, trimmed_string, missing_defaults, migrated_entry, written_entries,
  load_entries, load_value,
}
use quantpaca.Sources.Again.{Settles, reload_migrates_nothing}
use quantpaca.Sources.Usable.{AllUsable}
use quantpaca.Sources.Loaded.{load_source_registry_lem}

abbrev letter : SourceConfig
letter = record {
  id = text "letter";
  gmail_query = text "from:letter@example.org";
  sender_allowlist = text "letter@example.org" ∷ [];
  trust_tier = medium;
  max_age_hours = num 48;
  enabled = true;
  prompt_hint = none;
}

-- A file with one entry, and one that is no object.
abbrev items : Items
items =
    Items.cons (Value.object (file_fields (record { source = letter; comment = none }) true))
      (Items.cons Value.null Items.nil)

load_source_registry_lem_example :
    let r = load_source_registry true (parsed (Value.array items)) in
    let own = enabled_sources 0 (values_of items) in
    (r.sources ≡ take max_enabled_sources_per_cycle own)
    × (r.capped_ids ≡ map (λ (s : SourceConfig). s.id) (drop max_enabled_sources_per_cycle own))
    × (length r.sources ≤ max_enabled_sources_per_cycle)
    × AllUsable r.sources
load_source_registry_lem_example = load_source_registry_lem true items

abbrev as_items : List Value → Items
as_items [] = Items.nil
as_items (v ∷ vs) = Items.cons v (as_items vs)

-- The file after the load has added the three defaults.
migrated_file : Items
unfolding values_of
migrated_file = as_items (values_of items ++ map migrated_entry default_sources)

writes_defaults :
    (load_source_registry true (parsed (Value.array items))).written
    ≡ some (values_of migrated_file)
unfolding load_source_registry load_value load_entries written_entries values_of missing_defaults
    existing_ids with_id entry_id trimmed_string includes text_eq text trim filled get file_fields
    default_sources migrated_file
writes_defaults = refl

reload_migrates_nothing_example :
    Settles
      (load_source_registry true (parsed (Value.array items))).sources
      (load_source_registry true (parsed (Value.array migrated_file)))
reload_migrates_nothing_example =
    reload_migrates_nothing true (parsed (Value.array items)) migrated_file writes_defaults
