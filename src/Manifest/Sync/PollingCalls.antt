-- ===== src/Manifest/Sync/PollingCalls.antt =====
-- `updatePolling` of server/src/services/manifest/ManifestSyncService.ts: the calls of the polling
-- service that it makes, in order. What such a call throws ends the rest and is only logged.
use Prim.Native.Nat.{Ordering}
use Prim.Native.String.{compare}
use depsera.Prelude.{
  String, Bool, true, false, ◌&&◌, Option, none, some, List, [], ◌∷◌, ◌++◌, map, keep, any, In,
  In-append_right, In-map, ◌==◌, if◌then◌else◌,
}
use depsera.Types.{Service}
use depsera.Drift.{equals}
use depsera.Manifest.Differ.{
  SyncableField, health_endpoint, poll_interval_ms, Json, ManifestServiceEntry, ManifestUpdateEntry,
  ManifestDiffResult,
}
use depsera.Manifest.Sync.Result.{ManifestSyncChange, created}

pub data PollingCall : Type 0 where
  start restart stop : String → PollingCall

abbrev is_later : String → String → Bool
is_later a b = elim (compare a b) [ Ordering.gt ↦ true | _ ↦ false ]

-- The row with the latest `created_at`, the first of those that share it.
unfoldable pub newest : Option Service → List Service → Option Service
newest best [] = best
newest none (s ∷ services) = newest (some s) services
newest (some best) (s ∷ services) =
    newest (some (if is_later s.created_at best.created_at then s else best)) services

-- The query by a manifest key goes over the services of all teams.
abbrev pub find_newest : String → List Service → Option Service
find_newest key services = newest none (keep (λ (s : Service). equals s.manifest_key key) services)

abbrev pub is_creation : String → ManifestSyncChange → Bool
is_creation key c = c.manifest_key == key && elim c.action [ created ↦ true | _ ↦ false ]

abbrev pub is_endpoint_or_interval : SyncableField → Bool
is_endpoint_or_interval health_endpoint = true
is_endpoint_or_interval poll_interval_ms = true
is_endpoint_or_interval _ = false

module _ (json : Json) where
  unfoldable pub start_created :
      List Service → List ManifestSyncChange → List (ManifestServiceEntry json) → List PollingCall
  unfolding newest
  start_created services changes [] = []
  start_created services changes (entry ∷ entries) =
      let rest = start_created services changes entries in
      if any (is_creation entry.key) changes
      then elim (find_newest entry.key services) [ none ↦ rest | some s ↦ start s.id ∷ rest ]
      else rest

  unfoldable pub restart_updated : List (ManifestUpdateEntry json) → List PollingCall
  restart_updated [] = []
  restart_updated (u ∷ updates) =
      let rest = restart_updated updates in
      if any is_endpoint_or_interval u.fields_changed
      then restart u.existing_service_id ∷ rest
      else rest

  unfoldable pub update_polling :
      List Service → List ManifestSyncChange → ManifestDiffResult json → List PollingCall
  unfolding start_created restart_updated
  update_polling services changes diff =
      start_created services changes diff.to_create
      ++ (restart_updated diff.to_update
          ++ (map stop diff.to_deactivate ++ map stop diff.to_delete))

  -- Each service that the sync deletes is stopped.
  deleted_stopped :
      (services : List Service) (changes : List ManifestSyncChange) (diff : ManifestDiffResult json)
      (id : String)
      → In id diff.to_delete
      → In (stop id) (update_polling services changes diff)
  unfolding update_polling
  deleted_stopped services changes diff id i =
      In-append_right _ (start_created services changes diff.to_create) _ (
        In-append_right _ (restart_updated diff.to_update) _
          (In-append_right _ (map stop diff.to_deactivate) _ (In-map stop id diff.to_delete i)))
