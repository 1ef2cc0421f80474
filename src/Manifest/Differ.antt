-- ===== src/Manifest/Differ.antt =====
-- server/src/services/manifest/ManifestDiffer.ts, over the types of manifest/types.ts. JSON objects,
-- their text and the parser of the last synced snapshot are parameters: the differ only compares the
-- texts that they give.
mod Values
pub mod Fields
pub mod Partition
unfoldable pub use Values.*
use depsera.Prelude.{
  ℕ, String, Bool, true, false, not, ◌&&◌, Option, none, some, List, [], ◌∷◌, ◌++◌, map, any, find,
  ◌==◌, if◌then◌else◌, is_some,
}
use depsera.JsMap.{JsMap, get, set, has}
use depsera.Types.{Service, HealthEndpointFormat, default, schema, prometheus, otlp}

-- What one round of the loop over the fields does.
pub data FieldAction : Type 0 where
  skip safe drift keep_local : FieldAction

abbrev pub on_edit : FieldDriftPolicy → FieldAction
on_edit flag = drift
on_edit manifest_wins = safe
on_edit local_wins = keep_local

abbrev pub managed_key : Service → Option String
managed_key service = elim service.manifest_key [
  | none ↦ none
  | some key ↦ if key == "" then none else some key
]

unfoldable pub existing_by_key : JsMap Service → List Service → JsMap Service
existing_by_key m [] = m
existing_by_key m (svc ∷ services) = elim (managed_key svc) [
  | none ↦ existing_by_key m services
  | some key ↦ existing_by_key (set m key svc) services
]

-- A managed service whose key is not in the set.
unfoldable pub is_removed : List String → Service → Bool
is_removed matched svc = elim (managed_key svc) [
  | none ↦ false
  | some key ↦ not (any (λ k. k == key) matched)
]

module _ (json : Json) where
  open json use {Object, stringify, number_text, parse}

  pub record ManifestServiceEntry : Type 0 where
    pub key : String
    pub name : String
    pub health_endpoint : String
    pub description : JsonField String
    pub metrics_endpoint : JsonField String
    pub poll_interval_ms : JsonField ℕ
    pub schema_config : JsonField Object
    pub health_endpoint_format : JsonField HealthEndpointFormat

  pub record ManifestUpdateEntry : Type 0 where
    pub manifest_entry : ManifestServiceEntry
    pub existing_service_id : String
    pub fields_changed : List SyncableField

  pub record ManifestDriftEntry : Type 0 where
    pub manifest_entry : ManifestServiceEntry
    pub existing_service_id : String
    pub field_name : SyncableField
    pub manifest_value : String
    pub current_value : String

  pub record ManifestDiffResult : Type 0 where
    pub to_create : List ManifestServiceEntry
    pub to_update : List ManifestUpdateEntry
    pub to_drift : List ManifestDriftEntry
    pub to_keep_local : List ManifestDriftEntry
    pub unchanged : List String
    pub to_deactivate : List String
    pub to_delete : List String
    pub removal_drift : List String

  abbrev pub optional : {A : Type 0} → (A → Value Object) → JsonField A → Value Object
  optional f missing = undefined
  optional f nulled = null
  optional f (given a) = f a

  abbrev pub nullable : {A : Type 0} → (A → Value Object) → Option A → Value Object
  nullable f none = null
  nullable f (some a) = f a

  unfoldable pub get_manifest_field_value : ManifestServiceEntry → SyncableField → Value Object
  get_manifest_field_value entry name = text entry.name
  get_manifest_field_value entry health_endpoint = text entry.health_endpoint
  get_manifest_field_value entry description = optional text entry.description
  get_manifest_field_value entry metrics_endpoint = optional text entry.metrics_endpoint
  get_manifest_field_value entry poll_interval_ms = optional number entry.poll_interval_ms
  get_manifest_field_value entry schema_config = optional object entry.schema_config
  get_manifest_field_value entry health_endpoint_format =
      optional (λ f. text (format_text f)) entry.health_endpoint_format

  unfoldable pub get_db_field_value : Service → SyncableField → Value Object
  get_db_field_value service name = text service.name
  get_db_field_value service health_endpoint = text service.health_endpoint
  get_db_field_value service description = nullable text service.description
  get_db_field_value service metrics_endpoint = nullable text service.metrics_endpoint
  get_db_field_value service poll_interval_ms = number service.poll_interval_ms
  get_db_field_value service schema_config = nullable text service.schema_config
  get_db_field_value service health_endpoint_format =
      text (format_text service.health_endpoint_format)

  unfoldable pub normalize_to_string : Value Object → String
  normalize_to_string undefined = ""
  normalize_to_string null = ""
  normalize_to_string (text s) = s
  normalize_to_string (number n) = number_text n
  normalize_to_string (object o) = stringify o

  -- `none` is the first sync: no snapshot, or one that does not parse to a value.
  unfoldable pub parse_last_synced_values : Option String → Option (SyncableField → Value Object)
  parse_last_synced_values none = none
  parse_last_synced_values (some raw) = if raw == "" then none else parse raw

  abbrev pub is_specified : Value Object → Bool
  is_specified undefined = false
  is_specified _ = true

  abbrev pub manifest_text : ManifestServiceEntry → SyncableField → String
  manifest_text entry field = normalize_to_string (get_manifest_field_value entry field)

  abbrev pub db_text : Service → SyncableField → String
  db_text existing field = normalize_to_string (get_db_field_value existing field)

  unfoldable pub diff_field :
      ManifestServiceEntry → Service → FieldDriftPolicy → SyncableField → FieldAction
  diff_field entry existing policy field =
      if not (is_specified (get_manifest_field_value entry field))
      then skip
      else if manifest_text entry field == db_text existing field
      then skip
      else elim (parse_last_synced_values existing.manifest_last_synced_values) [
        | none ↦ safe
        | some last_synced ↦
            if db_text existing field == normalize_to_string (last_synced field)
            then safe
            else on_edit policy
      ]

  pub record FieldDiff : Type 0 where
    pub safe_fields : List SyncableField
    pub drift_entries : List ManifestDriftEntry
    pub keep_local_entries : List ManifestDriftEntry

  abbrev pub drift_entry : ManifestServiceEntry → Service → SyncableField → ManifestDriftEntry
  drift_entry entry existing field = record {
    manifest_entry = entry;
    existing_service_id = existing.id;
    field_name = field;
    manifest_value = manifest_text entry field;
    current_value = db_text existing field;
  }

  abbrev pub add_field :
      ManifestServiceEntry → Service → SyncableField → FieldAction → FieldDiff → FieldDiff
  add_field entry existing field skip d = d
  add_field entry existing field safe d = record d { safe_fields = field ∷ d.safe_fields }
  add_field entry existing field drift d = record d {
    drift_entries = drift_entry entry existing field ∷ d.drift_entries;
  }
  add_field entry existing field keep_local d = record d {
    keep_local_entries = drift_entry entry existing field ∷ d.keep_local_entries;
  }

  -- The loop over the fields, in their order.
  unfoldable pub diff_fields :
      ManifestServiceEntry → Service → FieldDriftPolicy → List SyncableField → FieldDiff
  diff_fields entry existing policy [] = record {
    safe_fields = [];
    drift_entries = [];
    keep_local_entries = [];
  }
  diff_fields entry existing policy (field ∷ fields) =
      add_field entry existing field (diff_field entry existing policy field)
        (diff_fields entry existing policy fields)

  abbrev is_empty : {A : Type 0} → List A → Bool
  is_empty [] = true
  is_empty (_ ∷ _) = false

  unfoldable pub diff_existing_service :
      ManifestServiceEntry → Service → ManifestSyncPolicy → ManifestDiffResult → ManifestDiffResult
  unfolding diff_fields
  diff_existing_service entry existing policy result =
      let d = diff_fields entry existing policy.on_field_drift syncable_fields in
      record result {
        to_update =
            if is_empty d.safe_fields
            then result.to_update
            else (result.to_update
                ++ record {
                  manifest_entry = entry;
                  existing_service_id = existing.id;
                  fields_changed = d.safe_fields;
                }
                  ∷ []);
        to_drift = result.to_drift ++ d.drift_entries;
        to_keep_local = result.to_keep_local ++ d.keep_local_entries;
        unchanged =
            if is_empty d.safe_fields && is_empty d.drift_entries && is_empty d.keep_local_entries
            then result.unchanged ++ existing.id ∷ []
            else result.unchanged;
      }

  unfoldable pub apply_removal_policy :
      String → RemovalPolicy → ManifestDiffResult → ManifestDiffResult
  apply_removal_policy id flag result = record result {
    removal_drift = result.removal_drift ++ id ∷ [];
  }
  apply_removal_policy id deactivate result = record result {
    to_deactivate = result.to_deactivate ++ id ∷ [];
  }
  apply_removal_policy id delete result = record result { to_delete = result.to_delete ++ id ∷ [] }

  -- The loop over the manifest; `matched` is the set of matched keys.
  pub record Diffing : Type 0 where
    pub result : ManifestDiffResult
    pub matched : List String

  unfoldable pub diff_entry :
      JsMap Service → ManifestSyncPolicy → Diffing → ManifestServiceEntry → Diffing
  diff_entry by_key policy d entry = elim (get by_key entry.key) [
    | none ↦ record d { result = record d.result { to_create = d.result.to_create ++ entry ∷ [] } }
    | some existing ↦ record {
      result = diff_existing_service entry existing policy d.result;
      matched = entry.key ∷ d.matched;
    }
  ]

  unfoldable pub diff_entries :
      JsMap Service → ManifestSyncPolicy → Diffing → List ManifestServiceEntry → Diffing
  diff_entries by_key policy d [] = d
  diff_entries by_key policy d (entry ∷ entries) =
      diff_entries by_key policy (diff_entry by_key policy d entry) entries

  unfoldable pub remove_services :
      List String → RemovalPolicy → ManifestDiffResult → List Service → ManifestDiffResult
  remove_services matched policy result [] = result
  remove_services matched policy result (svc ∷ services) =
      remove_services matched policy
        (if is_removed matched svc then apply_removal_policy svc.id policy result else result)
        services

  abbrev pub no_changes : ManifestDiffResult
  no_changes = record {
    to_create = [];
    to_update = [];
    to_drift = [];
    to_keep_local = [];
    unchanged = [];
    to_deactivate = [];
    to_delete = [];
    removal_drift = [];
  }

  unfoldable pub diff_manifest :
      List ManifestServiceEntry → List Service → ManifestSyncPolicy → ManifestDiffResult
  diff_manifest entries services policy =
      let by_key = existing_by_key [] services in
      let d = diff_entries by_key policy (record { result = no_changes; matched = [] }) entries in
      remove_services d.matched policy.on_removal d.result services
