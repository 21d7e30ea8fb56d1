-- ===== src/Sources.antt =====
-- src/server/sourceRegistry.ts. The file system and `JSON.parse` are parameters; a message is a
-- constructor that names the problem.
use quantpaca.Base.{
  ℕ, zero, suc, Bool, true, false, not, List, [], ◌∷◌, ◌++◌, map, Option, none, some, if◌then◌else◌,
  ltb, keep, take, length,
}
use quantpaca.Js.Number.{Number, num, le}
use quantpaca.Js.Text.{Text, text, trim, filled, includes, text_eq}
use quantpaca.Js.Value.{Value, Items, Fields, get, values_of}
use quantpaca.NumericSafety.{ParsedFiniteNumber, ok, failed, parse_finite_number}
use quantpaca.Signals.Review.{TrustTier, high, medium, low}
use quantpaca.Sources.Defaults.{SourceConfig, DefaultSource, default_sources, file_fields}
pub mod Defaults
pub mod Usable
pub mod Loaded
pub mod Again

abbrev pub max_enabled_sources_per_cycle : ℕ
max_enabled_sources_per_cycle = 8

pub data EntryProblem : Type 0 where
  not_an_object missing_id : ℕ → EntryProblem
  invalid_gmail_query invalid_sender_allowlist invalid_trust_tier invalid_max_age_hours :
      EntryProblem
  invalid_enabled invalid_prompt_hint : EntryProblem

pub data FileProblem : Type 0 where
  unreadable_file invalid_json not_an_array : FileProblem

pub data SourceRegistryIssue : Type 0 where
  file_issue : FileProblem → SourceRegistryIssue
  entry_issue : Option Text → EntryProblem → SourceRegistryIssue

pub data EntryValidation : Type 0 where
  valid : SourceConfig → EntryValidation
  malformed : Option Text → EntryProblem → EntryValidation

-- A string that is not blank, without the white space around it.
unfoldable pub trimmed_string : Value → Option Text
trimmed_string (Value.string s) = if filled (trim s) then some (trim s) else none
trimmed_string _ = none

with_item : Option Text → Option (List Text) → Option (List Text)
with_item (some t) (some ts) = some (t ∷ ts)
with_item (some t) none = none
with_item none ts = none

allow_items : Items → Option (List Text)
unfolding with_item trimmed_string
allow_items Items.nil = some []
allow_items (Items.cons v vs) = with_item (trimmed_string v) (allow_items vs)

allowlist_of : Value → Option (List Text)
unfolding allow_items
allowlist_of (Value.array (Items.cons v vs)) = allow_items (Items.cons v vs)
allowlist_of _ = none

trust_tier_of : Value → Option TrustTier
trust_tier_of (Value.string s) =
    if text_eq s (text "high")
    then some high
    else if text_eq s (text "medium")
    then some medium
    else if text_eq s (text "low")
    then some low
    else none
trust_tier_of _ = none

max_age_of : ParsedFiniteNumber → Option Number
max_age_of (ok n) = if le n (num 0) then none else some n
max_age_of (failed reason) = none

bool_of : Value → Option Bool
bool_of (Value.bool b) = some b
bool_of _ = none

prompt_hint_of : Value → Option (Option Text)
prompt_hint_of Value.undefined = some none
prompt_hint_of (Value.string s) = some (some s)
prompt_hint_of _ = none

-- The checks of an entry in their order, on what its fields read as.
checked_entry :
    ℕ
    → Option Text
    → Option Text
    → Option (List Text)
    → Option TrustTier
    → Option Number
    → Option Bool
    → Option (Option Text)
    → EntryValidation
checked_entry index none query senders tier age enabled hint = malformed none (missing_id index)
checked_entry index (some id) none senders tier age enabled hint =
    malformed (some id) invalid_gmail_query
checked_entry index (some id) (some query) none tier age enabled hint =
    malformed (some id) invalid_sender_allowlist
checked_entry index (some id) (some query) (some senders) none age enabled hint =
    malformed (some id) invalid_trust_tier
checked_entry index (some id) (some query) (some senders) (some tier) none enabled hint =
    malformed (some id) invalid_max_age_hours
checked_entry index (some id) (some query) (some senders) (some tier) (some age) none hint =
    malformed (some id) invalid_enabled
checked_entry index (some id) (some query) (some senders) (some tier) (some age) (some enabled)
      none =
    malformed (some id) invalid_prompt_hint
checked_entry index (some id) (some query) (some senders) (some tier) (some age) (some enabled)
      (some hint) =
    valid (record {
      id = id;
      gmail_query = query;
      sender_allowlist = senders;
      trust_tier = tier;
      max_age_hours = age;
      enabled = enabled;
      prompt_hint = hint;
    })

unfoldable pub validate_entry : ℕ → Value → EntryValidation
unfolding checked_entry trimmed_string allowlist_of trust_tier_of max_age_of bool_of prompt_hint_of
validate_entry index (Value.object fields) =
    checked_entry index (trimmed_string (get (text "id") fields))
      (trimmed_string (get (text "gmailQuery") fields))
      (allowlist_of (get (text "senderAllowlist") fields))
      (trust_tier_of (get (text "trustTier") fields))
      (max_age_of (parse_finite_number (get (text "maxAgeHours") fields) (text "maxAgeHours")))
      (bool_of (get (text "enabled") fields)) (prompt_hint_of (get (text "promptHint") fields))
validate_entry index _ = malformed none (not_an_object index)

enabled_source : EntryValidation → List SourceConfig → List SourceConfig
enabled_source (valid source) rest = if source.enabled then source ∷ rest else rest
enabled_source (malformed id problem) rest = rest

-- The enabled ones of the valid entries, counted from an index.
unfoldable pub enabled_sources : ℕ → List Value → List SourceConfig
unfolding enabled_source
enabled_sources index [] = []
enabled_sources index (v ∷ vs) =
    enabled_source (validate_entry index v) (enabled_sources (suc index) vs)

issue_of : EntryValidation → List SourceRegistryIssue → List SourceRegistryIssue
issue_of (valid source) rest = rest
issue_of (malformed id problem) rest = entry_issue id problem ∷ rest

unfoldable pub entry_issues : ℕ → List Value → List SourceRegistryIssue
unfolding issue_of
entry_issues index [] = []
entry_issues index (v ∷ vs) = issue_of (validate_entry index v) (entry_issues (suc index) vs)

unfoldable pub entry_id : Value → Option Text
entry_id (Value.object fields) = trimmed_string (get (text "id") fields)
entry_id _ = none

unfoldable pub with_id : Option Text → List Text → List Text
with_id none rest = rest
with_id (some id) rest = id ∷ rest

unfoldable pub existing_ids : List Value → List Text
unfolding entry_id with_id
existing_ids [] = []
existing_ids (v ∷ vs) = with_id (entry_id v) (existing_ids vs)

pub record SourceRegistryLoadResult : Type 0 where
  pub sources : List SourceConfig
  pub created_default_file : Bool
  pub capped_ids : List Text
  pub issues : List SourceRegistryIssue
  pub migrated_ids : List Text
  -- The entries that it writes to the file, whether or not the write succeeds.
  pub written : Option (List Value)

-- What is at the path.
pub data RegistryFile : Type 0 where
  missing_file file_threw json_threw : RegistryFile
  parsed : Value → RegistryFile

unfoldable pub drop {ℓ} : {A : Type ℓ} → ℕ → List A → List A
drop zero xs = xs
drop (suc n) [] = []
drop (suc n) (x ∷ xs) = drop n xs

-- The default sources whose ids the entries do not hold.
unfoldable pub missing_defaults : List Value → List DefaultSource
missing_defaults entries =
    keep (λ (d : DefaultSource). not (includes (existing_ids entries) d.source.id)) default_sources

-- A default as it is appended to an existing file.
unfoldable pub migrated_entry : DefaultSource → Value
migrated_entry d = Value.object (file_fields d false)

capped_sources : List SourceConfig → List SourceConfig
capped_sources sources =
    if ltb max_enabled_sources_per_cycle (length sources)
    then take max_enabled_sources_per_cycle sources
    else sources

over_cap : List SourceConfig → List Text
over_cap sources =
    if ltb max_enabled_sources_per_cycle (length sources)
    then map (λ (s : SourceConfig). s.id) (drop max_enabled_sources_per_cycle sources)
    else []

unfoldable pub written_entries : List DefaultSource → List Value → Option (List Value)
written_entries [] entries = none
written_entries (d ∷ ds) entries = some entries

unfoldable pub load_entries : List Value → SourceRegistryLoadResult
unfolding capped_sources over_cap written_entries
load_entries entries =
    let defaults = missing_defaults entries in
    let extended = entries ++ map migrated_entry defaults in
    let enabled = enabled_sources 0 extended in
    record {
      sources = capped_sources enabled;
      created_default_file = false;
      capped_ids = over_cap enabled;
      issues = entry_issues 0 extended;
      migrated_ids = map (λ (d : DefaultSource). d.source.id) defaults;
      written = written_entries defaults extended;
    }

create_default_file : Bool → SourceRegistryLoadResult
create_default_file writable = record {
  sources =
      map (λ (d : DefaultSource). d.source)
        (keep (λ (d : DefaultSource). d.source.enabled) default_sources);
  created_default_file = writable;
  capped_ids = [];
  issues = [];
  migrated_ids = [];
  written =
      some (
        map (λ (d : DefaultSource). Value.object (file_fields d d.source.enabled)) default_sources);
}

file_level_failure : FileProblem → SourceRegistryLoadResult
file_level_failure problem = record {
  sources = [];
  created_default_file = false;
  capped_ids = [];
  issues = file_issue problem ∷ [];
  migrated_ids = [];
  written = none;
}

unfoldable pub load_value : Value → SourceRegistryLoadResult
unfolding load_entries file_level_failure
load_value (Value.array items) = load_entries (values_of items)
load_value _ = file_level_failure not_an_array

-- `loadSourceRegistry`, with whether the file can be written.
unfoldable pub load_source_registry : Bool → RegistryFile → SourceRegistryLoadResult
unfolding load_value create_default_file
load_source_registry writable missing_file = create_default_file writable
load_source_registry writable file_threw = file_level_failure unreadable_file
load_source_registry writable json_threw = file_level_failure invalid_json
load_source_registry writable (parsed v) = load_value v
