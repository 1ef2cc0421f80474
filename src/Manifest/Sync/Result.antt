-- ===== src/Manifest/Sync/Result.antt =====
-- The results of a sync: types of server/src/services/manifest/types.ts, and `mergeResults` and
-- `failResult` of ManifestSyncService.ts. A duration is computed by the caller.
pub mod Status
use depsera.Prelude.{
  ℕ, zero, suc, ◌+◌, String, Bool, true, false, ◌&&◌, ◌||◌, Option, none, some, List, [], ◌∷◌, ◌++◌,
  ltb, length, if◌then◌else◌,
}
use depsera.Manifest.Differ.{SyncableField}

pub record ServiceCounts : Type 0 where
  pub created : ℕ
  pub updated : ℕ
  pub deactivated : ℕ
  pub deleted : ℕ
  pub drift_flagged : ℕ
  pub unchanged : ℕ

-- also the counts of overrides
pub record AliasCounts : Type 0 where
  pub created : ℕ
  pub updated : ℕ
  pub removed : ℕ
  pub unchanged : ℕ

pub record AssociationCounts : Type 0 where
  pub created : ℕ
  pub removed : ℕ
  pub unchanged : ℕ

pub record ManifestSyncSummary : Type 0 where
  pub services : ServiceCounts
  pub aliases : AliasCounts
  pub overrides : AliasCounts
  pub associations : AssociationCounts

pub data ChangeAction : Type 0 where
  created updated deactivated deleted drift_flagged unchanged : ChangeAction

pub record ManifestSyncChange : Type 0 where
  pub manifest_key : String
  pub service_name : String
  pub action : ChangeAction
  pub fields_changed : List SyncableField
  pub drift_fields : List SyncableField

pub data SyncStatus : Type 0 where
  success partial failed : SyncStatus

pub record ManifestSyncResult : Type 0 where
  pub status : SyncStatus
  pub summary : ManifestSyncSummary
  pub errors : List String
  pub warnings : List String
  pub changes : List ManifestSyncChange
  pub duration_ms : ℕ

abbrev no_aliases : AliasCounts
no_aliases = record { created = 0; updated = 0; removed = 0; unchanged = 0 }

abbrev pub empty_summary : ManifestSyncSummary
empty_summary = record {
  services = record {
    created = 0;
    updated = 0;
    deactivated = 0;
    deleted = 0;
    drift_flagged = 0;
    unchanged = 0;
  };
  aliases = no_aliases;
  overrides = no_aliases;
  associations = record { created = 0; removed = 0; unchanged = 0 };
}

unfoldable pub fail_result : String → ℕ → ManifestSyncResult
fail_result error duration = record {
  status = failed;
  summary = empty_summary;
  errors = error ∷ [];
  warnings = [];
  changes = [];
  duration_ms = duration;
}

abbrev add_services : ServiceCounts → ServiceCounts → ServiceCounts
add_services a b = record {
  created = a.created + b.created;
  updated = a.updated + b.updated;
  deactivated = a.deactivated + b.deactivated;
  deleted = a.deleted + b.deleted;
  drift_flagged = a.drift_flagged + b.drift_flagged;
  unchanged = a.unchanged + b.unchanged;
}

abbrev add_aliases : AliasCounts → AliasCounts → AliasCounts
add_aliases a b = record {
  created = a.created + b.created;
  updated = a.updated + b.updated;
  removed = a.removed + b.removed;
  unchanged = a.unchanged + b.unchanged;
}

abbrev pub add_summary : ManifestSyncSummary → ManifestSyncSummary → ManifestSyncSummary
add_summary a b = record {
  services = add_services a.services b.services;
  aliases = add_aliases a.aliases b.aliases;
  overrides = add_aliases a.overrides b.overrides;
  associations = record {
    created = a.associations.created + b.associations.created;
    removed = a.associations.removed + b.associations.removed;
    unchanged = a.associations.unchanged + b.associations.unchanged;
  };
}

-- The variables of the loop of `mergeResults`.
pub record Merging : Type 0 where
  pub summary : ManifestSyncSummary
  pub errors : List String
  pub warnings : List String
  pub changes : List ManifestSyncChange
  pub has_failure : Bool
  pub has_success : Bool

abbrev pub is_failed : SyncStatus → Bool
is_failed failed = true
is_failed _ = false

abbrev not_failed : SyncStatus → Bool
not_failed failed = false
not_failed _ = true

unfoldable pub merge_loop : Merging → List ManifestSyncResult → Merging
merge_loop m [] = m
merge_loop m (r ∷ results) =
    merge_loop
      (record {
        summary = add_summary m.summary r.summary;
        errors = m.errors ++ r.errors;
        warnings = m.warnings ++ r.warnings;
        changes = m.changes ++ r.changes;
        has_failure = m.has_failure || is_failed r.status;
        has_success = m.has_success || not_failed r.status;
      })
      results

abbrev pub nothing_merged : Merging
nothing_merged = record {
  summary = empty_summary;
  errors = [];
  warnings = [];
  changes = [];
  has_failure = false;
  has_success = false;
}

unfoldable pub merge_results : List ManifestSyncResult → ℕ → ManifestSyncResult
unfolding merge_loop
merge_results results duration =
    let m = merge_loop nothing_merged results in
    record {
      status =
          if m.has_failure && m.has_success
          then partial
          else if m.has_failure
          then failed
          else if ltb 0 (length m.errors)
          then partial
          else success;
      summary = m.summary;
      errors = m.errors;
      warnings = m.warnings;
      changes = m.changes;
      duration_ms = duration;
    }
