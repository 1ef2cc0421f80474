-- ===== src/Manifest/Sync/Apply/Resync.antt =====
-- What the differ finds in a service that was just updated from the same entry.
use depsera.Prelude.{String, ◌≡◌, false, some, List, []}
use depsera.Types.{Service}
use depsera.Manifest.Differ.{
  FieldDriftPolicy, SyncableField, poll_interval_ms, health_endpoint_format, syncable_fields, Value,
  Json, ManifestServiceEntry, ManifestDriftEntry, FieldAction, skip, safe, is_nulled,
  parse_last_synced_values, manifest_text, FieldDiff, diff_fields,
}
use depsera.Manifest.Sync.Apply.{Context, synced_values, write_field, write_fields, updated_service}

module _ (json : Json) (stringify_values : (SyncableField → Value json.Object) → String)
    (entry : ManifestServiceEntry json) (timed : is_nulled entry.poll_interval_ms ≡ false)
    (formatted : is_nulled entry.health_endpoint_format ≡ false) where
  abbrev write : SyncableField → Service → Service
  write = write_field json stringify_values entry

  abbrev write_all : List SyncableField → Service → Service
  write_all = write_fields json stringify_values entry

  module _ (existing : Service) (policy : FieldDriftPolicy) (c : Context)
      (reads : parse_last_synced_values json
          (some (stringify_values (synced_values json stringify_values entry)))
        ≡ some (synced_values json stringify_values entry)) where
    abbrev pub first_pass : FieldDiff json
    first_pass = diff_fields json entry existing policy syncable_fields

    -- the row after the update that the first pass asks for
    abbrev pub resynced : Service
    resynced =
        updated_service json stringify_values c
          (record {
            manifest_entry = entry;
            existing_service_id = existing.id;
            fields_changed = first_pass.safe_fields;
          })
          existing

    -- What the second pass does with a field for what the first one did.
    abbrev after : FieldAction → FieldAction
    after safe = skip
    after a = a

    abbrev reported : SyncableField → String → String → ManifestDriftEntry json
    reported f id current = record {
      manifest_entry = entry;
      existing_service_id = id;
      field_name = f;
      manifest_value = manifest_text json entry f;
      current_value = current;
    }

    -- The second pass updates nothing and reports what the first one did.
    abbrev SameReports : FieldDiff json → FieldDiff json → Type 0
    SameReports second first =
        (second.safe_fields ≡ [])
        × (second.drift_entries ≡ first.drift_entries)
        × (second.keep_local_entries ≡ first.keep_local_entries)
