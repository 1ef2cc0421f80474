-- ===== src/Manifest/Sync/Apply/Creation.antt =====
-- What the differ finds in a service that was just created from the same entry.
use depsera.Prelude.{String, ◌≡◌, ◌≢◌, true, some, arith, eq_iff}
use depsera.Types.{Service, default, is_otlp}
use depsera.Manifest.Differ.{
  FieldDriftPolicy, SyncableField, health_endpoint, health_endpoint_format, Value, Json,
  ManifestServiceEntry, field_or, on_edit, get_manifest_field_value, get_db_field_value,
  normalize_to_string, parse_last_synced_values, diff_field,
}
use depsera.Manifest.Sync.Apply.{Context, synced_values, created_service}

module _ (json : Json) (stringify_values : (SyncableField → Value json.Object) → String)
    (entry : ManifestServiceEntry json) (c : Context) (id : String)
    (policy : FieldDriftPolicy) where
  abbrev pub new_service : Service
  new_service = created_service json stringify_values c entry id

  otlp_edited :
      is_otlp (field_or entry.health_endpoint_format default) ≡ true
      → entry.health_endpoint ≢ ""
      → parse_last_synced_values json
          (some (stringify_values (synced_values json stringify_values entry)))
        ≡ some (synced_values json stringify_values entry)
      → diff_field json entry new_service policy health_endpoint ≡ on_edit policy
  unfolding diff_field created_service get_manifest_field_value get_db_field_value
      normalize_to_string
  otlp_edited otlp filled reads =
      ground (arith, otlp, reads, eq_iff entry.health_endpoint "", eq_iff "" entry.health_endpoint)

-- If the snapshot reads back as it was written, the next sync takes the endpoint of a service that
-- was created from a push-only entry with an endpoint for edited by hand.
pub created_otlp_edited :
    (json : Json) (stringify_values : (SyncableField → Value json.Object) → String)
    (entry : ManifestServiceEntry json) (c : Context) (id : String) (policy : FieldDriftPolicy)
    → is_otlp (field_or entry.health_endpoint_format default) ≡ true
    → entry.health_endpoint ≢ ""
    → parse_last_synced_values json
        (some (stringify_values (synced_values json stringify_values entry)))
      ≡ some (synced_values json stringify_values entry)
    → diff_field json entry
        (new_service json stringify_values entry c id policy)
        policy
        health_endpoint
      ≡ on_edit policy
created_otlp_edited json stringify_values entry c id policy =
    otlp_edited json stringify_values entry c id policy
