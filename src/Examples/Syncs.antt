-- ===== src/Examples/Syncs.antt =====
-- Syncs of one config, the results of two configs, and entries that are synced twice.
use depsera.Prelude.{
  ℕ, String, ◌≡◌, refl, ◌↔◌, true, false, some, List, [], ◌∷◌, any, length, ap, fun_ext, arith,
  eq_iff,
}
use depsera.Types.{HealthEndpointFormat, otlp}
use depsera.Manifest.Differ.{
  flag, SyncableField, name, health_endpoint, description, metrics_endpoint, poll_interval_ms,
  schema_config, health_endpoint_format, Value, undefined, null, nulled, text, Json,
  ManifestServiceEntry, JsonField, missing, given, get_manifest_field_value,
  parse_last_synced_values, diff_field, on_edit,
}
use depsera.Manifest.Sync.Locks.{
  SyncState, manual, scheduled, ConfigRow, started, begin_sync, end_sync,
}
use depsera.Manifest.Sync.Locks.Exclusion.{
  Run, Reach, idle, begin, finish, Apart, syncs-Apart, third_begins,
}
use depsera.Manifest.Sync.Result.{
  ManifestSyncResult, success, failed, empty_summary, fail_result, merge_results,
}
use depsera.Manifest.Sync.Result.Status.{
  total, failed_one, done_one, error_count, merge_results_lem,
}
use depsera.Manifest.Sync.Apply.{Context, synced_values}
use depsera.Manifest.Sync.Apply.Creation.{new_service, created_otlp_edited}

abbrev config : String → ConfigRow
config id = record { id = id; is_enabled = 1 }

abbrev none_running : SyncState
none_running = record { locks = []; last_manual_sync = []; active_syncs = 0 }

abbrev run_at : String → ℕ → Run
run_at id now = record { config_id = id; since = now }

-- Two configs sync, then the first one ends and begins again.
abbrev one : SyncState
one = (begin_sync 100 manual (some (config "shop")) none_running).0

abbrev two : SyncState
two = (begin_sync 200 scheduled (some (config "pay")) one).0

abbrev again : SyncState
again = (begin_sync 300 scheduled (some (config "shop")) (end_sync "shop" two)).0

again_reached : Reach again (run_at "shop" 300 ∷ run_at "pay" 200 ∷ [])
unfolding begin_sync end_sync depsera.JsMap.get depsera.JsMap.set depsera.JsMap.delete
again_reached =
    begin 300 scheduled (config "shop")
      (finish (run_at "pay" 200 ∷ []) (run_at "shop" 100) [] (
        begin 200 scheduled (config "pay")
          (begin 100 manual (config "shop") (idle {s = none_running} refl refl) tt refl)
          (omega arith, tt) refl))
      (omega arith, tt) refl

syncs-Apart_example :
    Apart (run_at "shop" 300 ∷ run_at "pay" 200 ∷ [])
    × (again.active_syncs ≡ length (run_at "shop" 300 ∷ run_at "pay" 200 ∷ []))
syncs-Apart_example = syncs-Apart again_reached

third_begins_example :
    let s2 = begin_sync 300101 scheduled (some (config "shop")) one in
    (s2.1 ≡ started)
    × ((begin_sync 300102 scheduled (some (config "shop")) (end_sync "shop" s2.0)).1 ≡ started)
unfolding begin_sync depsera.JsMap.get depsera.JsMap.set
third_begins_example =
    third_begins one (config "shop") 100 300101 300102 (omega arith) refl (omega arith)

abbrev empty_manifest : ManifestSyncResult
empty_manifest = record {
  status = success;
  summary = empty_summary;
  errors = [];
  warnings = "Manifest contains no services" ∷ [];
  changes = [];
  duration_ms = 5;
}

abbrev results : List ManifestSyncResult
results = empty_manifest ∷ fail_result "Sync already in progress for this config" 0 ∷ []

merge_results_lem_example :
    ((merge_results results 5).status ≡ failed
      ↔ ((any failed_one results ≡ true) × (any done_one results ≡ false)))
    × (((merge_results results 5).status ≡ success)
        ↔ ((any failed_one results ≡ false) × (total error_count results ≡ 0)))
    × (length (merge_results results 5).errors ≡ total error_count results)
    × ((merge_results results 5).summary.services.created
        ≡ total (λ r. r.summary.services.created) results)
merge_results_lem_example = merge_results_lem results 5

-- A service that was pulled, and one that pushes; they have the same snapshot.
abbrev snapshot : JsonField HealthEndpointFormat → SyncableField → Value Unit
snapshot format name = text "Orders"
snapshot format health_endpoint = text "https://orders"
snapshot missing health_endpoint_format = undefined
snapshot (given _) health_endpoint_format = text "otlp"
snapshot nulled health_endpoint_format = null
snapshot format _ = undefined

abbrev json : JsonField HealthEndpointFormat → Json
json format = record {
  Object = Unit;
  stringify = λ _. "{}";
  number_text = λ _. "30000";
  parse = λ _. some (snapshot format);
}

abbrev stringify_values : (SyncableField → Value Unit) → String
stringify_values values = "{}"

abbrev entry : (format : JsonField HealthEndpointFormat) → ManifestServiceEntry (json format)
entry format = record {
  key = "orders";
  name = "Orders";
  health_endpoint = "https://orders";
  description = missing;
  metrics_endpoint = missing;
  poll_interval_ms = missing;
  schema_config = missing;
  health_endpoint_format = format;
}

abbrev context : Context
context = record {
  team_id = "shop";
  config_id = "shop";
  now = "2026-01-01";
  uuid = λ _. "new";
  is_safe = λ _. true;
}

pushed :
    (f : SyncableField)
    → snapshot (given otlp) f
      ≡ synced_values (json (given otlp)) stringify_values (entry (given otlp)) f
unfolding get_manifest_field_value
pushed name = refl
pushed health_endpoint = refl
pushed description = refl
pushed metrics_endpoint = refl
pushed poll_interval_ms = refl
pushed schema_config = refl
pushed health_endpoint_format = refl

pushed_reads :
    parse_last_synced_values (json (given otlp)) (
      some (
        stringify_values (synced_values (json (given otlp)) stringify_values (entry (given otlp)))))
    ≡ some (synced_values (json (given otlp)) stringify_values (entry (given otlp)))
unfolding parse_last_synced_values
pushed_reads = ap some (fun_ext pushed)

created_otlp_edited_example :
    diff_field
      (json (given otlp))
      (entry (given otlp))
      (new_service (json (given otlp)) stringify_values (entry (given otlp)) context "new" flag)
      flag
      health_endpoint
    ≡ on_edit flag
created_otlp_edited_example =
    created_otlp_edited (json (given otlp)) stringify_values (entry (given otlp)) context "new" flag
      refl (λ e. ground (arith, e, eq_iff "https://orders" "")) pushed_reads
