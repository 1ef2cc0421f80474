-- ===== src/Manifest/Sync/Apply.antt =====
-- `applyChanges` of server/src/services/manifest/ManifestSyncService.ts over the tables of services and
-- of drift flags, with what it calls of stores/impl/ServiceStore.ts. The transaction is an `Option`:
-- where a call throws, nothing is kept.
pub mod Resync
pub mod Creation
use depsera.Prelude.{
  ℕ, zero, suc, ◌+◌, String, Bool, true, false, not, ◌&&◌, Option, none, some, List, [], ◌∷◌, ◌++◌,
  map, keep, any, find, length, ◌==◌, if◌then◌else◌, or_else, is_some,
}
use depsera.Types.{Service, HealthEndpointFormat, default, is_otlp}
use depsera.Manifest.Differ.{
  SyncableField, name, health_endpoint, description, metrics_endpoint, poll_interval_ms,
  schema_config, health_endpoint_format, field_or, field_or_null, is_nulled, Value, Json,
  ManifestServiceEntry, ManifestUpdateEntry, ManifestDriftEntry, ManifestDiffResult,
  get_manifest_field_value,
}
use depsera.Drift
use depsera.Drift.{
  DriftFlag, Table, service_removal, close, is_active, resolve, resolve_all, for_service,
  upsert_field_drift, upsert_removal_drift,
}
use depsera.Auth.{unique}
use depsera.Manifest.Sync.Result.{
  ServiceCounts, ManifestSyncChange, ChangeAction, created, updated, deactivated, deleted,
  drift_flagged, unchanged,
}

abbrev pub find_service : String → List Service → Option Service
find_service id services = find (λ (s : Service). s.id == id) services

-- `UPDATE services SET ... WHERE id = ?`
unfoldable pub update_service : String → (Service → Service) → List Service → List Service
update_service id f [] = []
update_service id f (s ∷ services) =
    let rest = update_service id f services in if s.id == id then f s ∷ rest else s ∷ rest

abbrev manifest_key_of : Option Service → String
manifest_key_of none = "unknown"
manifest_key_of (some s) = or_else s.manifest_key "unknown"

abbrev name_of : Option Service → String
name_of none = "unknown"
name_of (some s) = s.name

abbrev change :
    ChangeAction → String → String → List SyncableField → List SyncableField → ManifestSyncChange
change action key service_name fields drifts = record {
  manifest_key = key;
  service_name = service_name;
  action = action;
  fields_changed = fields;
  drift_fields = drifts;
}

-- What the transaction changes; `next` is the number of identifiers drawn.
pub record Applying : Type 0 where
  pub services : List Service
  pub flags : Table
  pub counts : ServiceCounts
  pub changes : List ManifestSyncChange
  pub next : ℕ

-- What `applyChanges` is given besides the diff, with the sources of times and identifiers.
pub record Context : Type 0 where
  pub team_id : String
  pub config_id : String
  pub now : String
  pub uuid : ℕ → String
  pub is_safe : String → Bool

abbrev mark_removed : ChangeAction → String → Applying → Applying
mark_removed action id a = record a {
  changes =
      a.changes
      ++ change action (manifest_key_of (find_service id a.services))
          (name_of (find_service id a.services)) [] []
        ∷ [];
}

-- `toDeactivate`
unfoldable pub deactivate_service : Context → Applying → String → Applying
unfolding update_service
deactivate_service c a id = record (mark_removed deactivated id a) {
  services = update_service id (λ s. record s { is_active = 0; updated_at = c.now }) a.services;
  flags = (resolve_all c.now (for_service id) a.flags).0;
  counts = record a.counts { deactivated = a.counts.deactivated + 1 };
}

-- `toDelete`: the flags of the service go with it, by the foreign key of their table.
unfoldable pub delete_service : Context → Applying → String → Applying
delete_service c a id = record (mark_removed deleted id a) {
  services = keep (λ (s : Service). not (s.id == id)) a.services;
  flags = keep (λ (f : DriftFlag). not (f.service_id == id)) a.flags;
  counts = record a.counts { deleted = a.counts.deleted + 1 };
}

abbrev team_id_of : List Service → String → Option String
team_id_of services id = elim (find_service id services) [ none ↦ none | some s ↦ some s.team_id ]

-- `removalDrift`
unfoldable pub flag_removal : Context → Applying → String → Option Applying
flag_removal c a id =
    elim (upsert_removal_drift (team_id_of a.services) c.now (c.uuid a.next) id none
      (some c.config_id) a.flags) [
        | none ↦ none
        | some (flags, action) ↦ some (record (mark_removed drift_flagged id a) {
          flags = flags;
          counts = record a.counts { drift_flagged = a.counts.drift_flagged + 1 };
          next = suc a.next;
        })
      ]

abbrev note_unchanged : Applying → String → Applying
note_unchanged a id = elim (find_service id a.services) [
  | none ↦ a
  | some s ↦ record a {
    changes = a.changes ++ change unchanged (or_else s.manifest_key "unknown") s.name [] [] ∷ [];
  }
]

abbrev is_removal : DriftFlag → Bool
is_removal f = elim f.drift_type [ service_removal ↦ true | _ ↦ false ]

-- The removal flags of a service that is back in the manifest.
unfoldable pub resolve_removals : Context → Table → List DriftFlag → Table
resolve_removals c t [] = t
resolve_removals c t (f ∷ flags) =
    resolve_removals c (if is_removal f then (resolve c.now f.id close none t).0 else t) flags

unfoldable pub resolve_stale : Context → Table → List String → Table
unfolding resolve_removals
resolve_stale c t [] = t
resolve_stale c t (id ∷ ids) =
    resolve_stale c
      (resolve_removals c t (keep (λ (f : DriftFlag). f.service_id == id && is_active f.status) t))
      ids

abbrev for_each {ℓ} : {A : Type ℓ} → (Applying → A → Applying) → Applying → List A → Applying
for_each f a [] = a
for_each f a (x ∷ xs) = for_each f (f a x) xs

-- A loop whose body may throw.
abbrev for_each_or_throw {ℓ} :
    {A : Type ℓ} → (Applying → A → Option Applying) → Option Applying → List A → Option Applying
for_each_or_throw f o [] = o
for_each_or_throw f none (x ∷ xs) = none
for_each_or_throw f (some a) (x ∷ xs) = for_each_or_throw f (f a x) xs

module _ (json : Json) (stringify_values : (SyncableField → Value json.Object) → String) where
  -- `buildSyncedValues`: the fields that the entry has.
  abbrev pub synced_values : ManifestServiceEntry json → SyncableField → Value json.Object
  synced_values entry field = get_manifest_field_value json entry field

  abbrev pub schema_text : ManifestServiceEntry json → Option String
  schema_text entry = elim (field_or_null entry.schema_config) [
    | none ↦ none
    | some o ↦ some (json.stringify o)
  ]

  -- `ServiceStore.create` with what `applyChanges` gives it, and `setManifestColumns`.
  unfoldable pub created_service : Context → ManifestServiceEntry json → String → Service
  created_service c entry id =
      let format = field_or entry.health_endpoint_format default in
      let otlp = is_otlp format in
      record {
        id = id;
        name = entry.name;
        team_id = c.team_id;
        health_endpoint = if otlp then "" else entry.health_endpoint;
        metrics_endpoint = field_or_null entry.metrics_endpoint;
        schema_config = schema_text entry;
        poll_interval_ms = if otlp then 0 else field_or entry.poll_interval_ms 30000;
        is_active = 1;
        is_external = 0;
        description = field_or_null entry.description;
        last_poll_success = none;
        last_poll_error = none;
        poll_warnings = none;
        manifest_key = some entry.key;
        manifest_managed = 1;
        health_endpoint_format = format;
        manifest_config_id = some c.config_id;
        manifest_last_synced_values = some (stringify_values (synced_values entry));
        created_at = c.now;
        updated_at = c.now;
      }

  -- `toCreate`
  unfoldable pub create_entry : Context → Applying → ManifestServiceEntry json → Applying
  unfolding created_service
  create_entry c a entry = if not (c.is_safe entry.key) then a else record a {
    services = a.services ++ created_service c entry (c.uuid a.next) ∷ [];
    counts = record a.counts { created = a.counts.created + 1 };
    changes = a.changes ++ change created entry.key entry.name [] [] ∷ [];
    next = suc a.next;
  }

  -- One column of the update; an interval that the entry does not have is left out, and for one that
  -- is null see `writes_null`.
  abbrev pub write_field : ManifestServiceEntry json → SyncableField → Service → Service
  write_field entry name s = record s { name = entry.name }
  write_field entry health_endpoint s = record s { health_endpoint = entry.health_endpoint }
  write_field entry description s = record s { description = field_or_null entry.description }
  write_field entry metrics_endpoint s = record s {
    metrics_endpoint = field_or_null entry.metrics_endpoint;
  }
  write_field entry poll_interval_ms s = record s {
    poll_interval_ms = field_or entry.poll_interval_ms s.poll_interval_ms;
  }
  write_field entry schema_config s = record s { schema_config = schema_text entry }
  write_field entry health_endpoint_format s = record s {
    health_endpoint_format = field_or entry.health_endpoint_format default;
  }

  -- whether the update has a column for the field
  abbrev is_written : ManifestServiceEntry json → SyncableField → Bool
  is_written entry poll_interval_ms = is_some (field_or_null entry.poll_interval_ms)
  is_written entry _ = true

  unfoldable pub write_fields : ManifestServiceEntry json → List SyncableField → Service → Service
  write_fields entry [] s = s
  write_fields entry (f ∷ fields) s = write_fields entry fields (write_field entry f s)

  -- `ServiceStore.update` and `updateSyncedValues` on the row of an update.
  unfoldable pub updated_service : Context → ManifestUpdateEntry json → Service → Service
  unfolding write_fields
  updated_service c u s = record (write_fields u.manifest_entry u.fields_changed s) {
    manifest_last_synced_values = some (stringify_values (synced_values u.manifest_entry));
    updated_at = if any (is_written u.manifest_entry) u.fields_changed then c.now else s.updated_at;
  }

  -- An interval that is null goes into the update, and its column is NOT NULL.
  abbrev pub writes_null : ManifestUpdateEntry json → Bool
  writes_null u =
      any (λ f. elim f [ poll_interval_ms ↦ true | _ ↦ false ]) u.fields_changed
      && is_nulled u.manifest_entry.poll_interval_ms

  -- `toUpdate`
  unfoldable pub update_entry : Context → Applying → ManifestUpdateEntry json → Option Applying
  unfolding update_service updated_service
  update_entry c a u =
      if writes_null u
      then none
      else some (record a {
        services = update_service u.existing_service_id (updated_service c u) a.services;
        counts = record a.counts { updated = a.counts.updated + 1 };
        changes =
            a.changes
            ++ change updated u.manifest_entry.key u.manifest_entry.name u.fields_changed [] ∷ [];
      })

  abbrev pub field_text : SyncableField → String
  field_text name = "name"
  field_text health_endpoint = "health_endpoint"
  field_text description = "description"
  field_text metrics_endpoint = "metrics_endpoint"
  field_text poll_interval_ms = "poll_interval_ms"
  field_text schema_config = "schema_config"
  field_text health_endpoint_format = "health_endpoint_format"

  -- `toDrift`
  unfoldable pub flag_drift : Context → Applying → ManifestDriftEntry json → Option Applying
  flag_drift c a d =
      elim (upsert_field_drift (team_id_of a.services) c.now (c.uuid a.next) d.existing_service_id
        (field_text d.field_name) d.manifest_value d.current_value none (some c.config_id)
        a.flags) [
          | none ↦ none
          | some (flags, action) ↦ some (record a {
            flags = flags;
            counts = record a.counts { drift_flagged = a.counts.drift_flagged + 1 };
            changes =
                a.changes
                ++ change drift_flagged d.manifest_entry.key d.manifest_entry.name []
                    (d.field_name ∷ [])
                  ∷ [];
            next = suc a.next;
          })
        ]

  -- The loops, in the order of the source.
  unfoldable pub apply_changes : Context → ManifestDiffResult json → Applying → Option Applying
  unfolding resolve_stale create_entry update_entry flag_drift deactivate_service delete_service
      flag_removal
  apply_changes c diff start =
      let a1 =
        for_each_or_throw (update_entry c) (some (for_each (create_entry c) start diff.to_create))
          diff.to_update in
      elim (for_each_or_throw (flag_drift c) a1 diff.to_drift) [
        | none ↦ none
        | some a2 ↦
            let a3 =
              for_each (delete_service c) (for_each (deactivate_service c) a2 diff.to_deactivate)
                diff.to_delete in
            elim (for_each_or_throw (flag_removal c) (some a3) diff.removal_drift) [
              | none ↦ none
              | some a4 ↦
                  let a5 = for_each note_unchanged a4 diff.unchanged in
                  let matched = unique (
                    map (λ (u : ManifestUpdateEntry json). u.existing_service_id) diff.to_update
                    ++ diff.unchanged) in
                  some (record a5 {
                    counts = record a5.counts { unchanged = length diff.unchanged };
                    flags = resolve_stale c a5.flags matched;
                  })
            ]
      ]
