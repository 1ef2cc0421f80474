-- ===== src/Examples/Manifests.antt =====
-- A manifest with an entry that was edited locally and an entry that is new.
use depsera.Prelude.{
  String, ◌≡◌, refl, ◌↔◌, ◌⊎◌, inl, true, not, In, some, [], ◌∷◌, any, keep, if◌then◌else◌,
}
use depsera.Types.{Service}
use depsera.Manifest.Differ.{
  flag, manifest_wins, deactivate, ManifestSyncPolicy, SyncableField, name, syncable_fields, text,
  Json, ManifestServiceEntry, missing, drift_entry, diff_field, diff_fields, diff_manifest,
  get_manifest_field_value, get_db_field_value, normalize_to_string, parse_last_synced_values,
}
use depsera.Manifest.Differ.Fields.{Differs, Edited, drift_flagged_iff, updates_keep_edits}
use depsera.Manifest.Differ.Partition.{is_keyed, is_orphan, ids_of, diff_manifest_partition}
use depsera.Examples.Data.{orders}

-- Objects and snapshots that are all alike.
abbrev json : Json
json = record {
  Object = Unit;
  stringify = λ _. "{}";
  number_text = λ _. "30000";
  parse = λ _. some (λ _. text "old");
}

abbrev entry : String → ManifestServiceEntry json
entry key = record {
  key = key;
  name = "Orders";
  health_endpoint = "orders";
  description = missing;
  metrics_endpoint = missing;
  poll_interval_ms = missing;
  schema_config = missing;
  health_endpoint_format = missing;
}

-- Its name in the database is neither the one that was synced nor the one in the manifest.
abbrev edited : Service
edited = record orders { manifest_last_synced_values = some "{}" }

abbrev policy : ManifestSyncPolicy
policy = record { on_field_drift = flag; on_removal = deactivate }

drift_flagged_iff_example :
    In
      (drift_entry json (entry "orders") edited name)
      (diff_fields json (entry "orders") edited flag syncable_fields).drift_entries
    ↔ ((field : SyncableField) × In field syncable_fields
        × (drift_entry json (entry "orders") edited field
            ≡ drift_entry json (entry "orders") edited name)
        × Differs json (entry "orders") edited field
        × Edited json (entry "orders") edited field
        × (policy.on_field_drift ≡ flag))
drift_flagged_iff_example =
    drift_flagged_iff json (entry "orders") edited flag
      (drift_entry json (entry "orders") edited name) syncable_fields

updates_keep_edits_example :
    Differs json (entry "orders") orders name
    × ((flag ≡ manifest_wins) ⊎ (¬ Edited json (entry "orders") orders name))
unfolding diff_fields diff_field get_manifest_field_value get_db_field_value normalize_to_string
    parse_last_synced_values
updates_keep_edits_example =
    updates_keep_edits json (entry "orders") orders flag name syncable_fields (inl refl)

diff_manifest_partition_example :
    let r = diff_manifest json (entry "carts" ∷ []) (orders ∷ []) policy in
    (r.to_create
      ≡ keep
          (λ (e : ManifestServiceEntry json). not (any (is_keyed e.key) (orders ∷ [])))
          (entry "carts" ∷ []))
    × (r.to_deactivate
        ≡ (if true then ids_of json (is_orphan json (entry "carts" ∷ [])) (orders ∷ []) else []))
diff_manifest_partition_example =
    diff_manifest_partition json (entry "carts" ∷ []) (orders ∷ []) policy deactivate
