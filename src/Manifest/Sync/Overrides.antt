-- ===== src/Manifest/Sync/Overrides.antt =====
-- `syncCanonicalOverrides` of server/src/services/manifest/ManifestSyncService.ts over the table
-- dependency_canonical_overrides, with what it calls of stores/impl/CanonicalOverrideStore.ts. The
-- table refers to the teams and, by `updated_by`, to the users; a write that would break a reference
-- throws. An error is the constructor of its message.
mod Table
pub mod Rows
pub mod Index
pub mod Entries
pub mod Refinement
unfoldable pub use Table.*
use depsera.Prelude.{
  ℕ, suc, ◌+◌, String, Bool, true, false, not, ◌&&◌, ◌||◌, Option, none, some, List, [], ◌∷◌, ◌++◌,
  keep, any, ◌==◌, nat_eq, or_else, if◌then◌else◌,
}
use depsera.Types.{DependencyCanonicalOverride}
use depsera.JsMap.{JsMap, get, set, has}
use depsera.Drift.{equals}
use depsera.Manifest.Sync.Result.{AliasCounts}

module _ {Object : Type 0} where
  -- `triggeredBy ?? 'system'`
  abbrev pub updated_by : OverrideContext Object → String
  updated_by c = or_else c.triggered_by "system"

  -- whether the references of a row to write are there
  abbrev pub is_writable : OverrideContext Object → Bool
  is_writable c = c.team_exists && c.user_exists (updated_by c)

  abbrev pub contact_text :
      OverrideContext Object → ManifestCanonicalOverrideEntry Object → Option String
  contact_text c entry = elim entry.contact [ none ↦ none | some o ↦ some (c.stringify o) ]

  -- the columns that an upsert writes in a row that is there
  abbrev pub written :
      OverrideContext Object
      → ManifestCanonicalOverrideEntry Object
      → DependencyCanonicalOverride
      → DependencyCanonicalOverride
  written c entry o = record o {
    contact_override = contact_text c entry;
    impact_override = entry.impact;
    manifest_managed = 1;
    updated_at = c.now;
    updated_by = some (updated_by c);
  }

  abbrev pub new_override :
      OverrideContext Object
      → String
      → ManifestCanonicalOverrideEntry Object
      → ℕ
      → DependencyCanonicalOverride
  new_override c k entry n = record {
    id = c.uuid n;
    canonical_name = k;
    team_id = some c.team_id;
    contact_override = contact_text c entry;
    impact_override = entry.impact;
    manifest_managed = 1;
    created_at = c.now;
    updated_at = c.now;
    updated_by = some (updated_by c);
  }

  -- `CanonicalOverrideStore.upsert` where the references are there.
  unfoldable pub upsert :
      OverrideContext Object
      → String
      → ManifestCanonicalOverrideEntry Object
      → ℕ
      → List DependencyCanonicalOverride
      → List DependencyCanonicalOverride
  unfolding update_at
  upsert c k entry n overrides =
      if any (is_at c.team_id k) overrides
      then update_at c.team_id k (written c entry) overrides
      else overrides ++ new_override c k entry n ∷ []

  -- `new Map(manifest.canonical_overrides.map(o => [o.canonical_name, o]))`
  unfoldable pub manifest_overrides :
      JsMap (ManifestCanonicalOverrideEntry Object)
      → List (ManifestCanonicalOverrideEntry Object)
      → JsMap (ManifestCanonicalOverrideEntry Object)
  manifest_overrides m [] = m
  manifest_overrides m (entry ∷ entries) =
      manifest_overrides (set m entry.canonical_name entry) entries

  abbrev pub is_as_wanted :
      OverrideContext Object
      → ManifestCanonicalOverrideEntry Object
      → DependencyCanonicalOverride
      → Bool
  is_as_wanted c entry o =
      same_text o.contact_override (contact_text c entry)
      && same_text o.impact_override entry.impact

  unfoldable pub sync_override :
      OverrideContext Object
      → JsMap DependencyCanonicalOverride
      → String
      → ManifestCanonicalOverrideEntry Object
      → OverrideSync
      → OverrideSync
  unfolding upsert
  sync_override c existing_by_name k entry s = elim (get existing_by_name k) [
    | none ↦
        if is_writable c
        then record s {
          overrides = upsert c k entry s.next s.overrides;
          counts = record s.counts { created = s.counts.created + 1 };
          next = suc s.next;
        }
        else record s { errors = s.errors ++ create_failed k ∷ []; next = suc s.next }
    | some existing ↦
        if is_as_wanted c entry existing
        then record s { counts = record s.counts { unchanged = s.counts.unchanged + 1 } }
        else if is_writable c
        then record s {
          overrides = upsert c k entry s.next s.overrides;
          counts = record s.counts { updated = s.counts.updated + 1 };
          next = suc s.next;
        }
        else record s { errors = s.errors ++ update_failed k ∷ []; next = suc s.next }
  ]

  unfoldable pub sync_each_override :
      OverrideContext Object
      → JsMap DependencyCanonicalOverride
      → OverrideSync
      → JsMap (ManifestCanonicalOverrideEntry Object)
      → OverrideSync
  sync_each_override c existing_by_name s [] = s
  sync_each_override c existing_by_name s ((k, entry) ∷ entries) =
      sync_each_override c existing_by_name (sync_override c existing_by_name k entry s) entries

  abbrev pub delete_override :
      OverrideContext Object → OverrideSync → DependencyCanonicalOverride → OverrideSync
  delete_override c s existing = record s {
    overrides = delete_by_team existing.canonical_name c.team_id s.overrides;
    counts = record s.counts { removed = s.counts.removed + 1 };
  }

  -- One of the overrides that the team had.
  unfoldable pub delete_if_stale :
      OverrideContext Object
      → JsMap (ManifestCanonicalOverrideEntry Object)
      → OverrideSync
      → DependencyCanonicalOverride
      → OverrideSync
  delete_if_stale c manifest s existing =
      if has manifest existing.canonical_name
      then s
      else if c.removes
      then delete_override c s existing
      else record s { counts = record s.counts { unchanged = s.counts.unchanged + 1 } }

  unfoldable pub delete_stale :
      OverrideContext Object
      → JsMap (ManifestCanonicalOverrideEntry Object)
      → OverrideSync
      → List DependencyCanonicalOverride
      → OverrideSync
  unfolding delete_if_stale
  delete_stale c manifest s [] = s
  delete_stale c manifest s (existing ∷ overrides) =
      delete_stale c manifest (delete_if_stale c manifest s existing) overrides

  unfoldable pub remove_team_overrides :
      OverrideContext Object → OverrideSync → List DependencyCanonicalOverride → OverrideSync
  remove_team_overrides c s [] = s
  remove_team_overrides c s (existing ∷ overrides) =
      remove_team_overrides c (delete_override c s existing) overrides

  abbrev pub managed_overrides :
      OverrideContext Object → List DependencyCanonicalOverride → List DependencyCanonicalOverride
  managed_overrides c overrides = keep (is_managed_by c.team_id) overrides

  -- `entries` is empty also where the manifest has no overrides.
  unfoldable pub sync_canonical_overrides :
      OverrideContext Object
      → List (ManifestCanonicalOverrideEntry Object)
      → OverrideSync
      → OverrideSync
  unfolding sync_each_override delete_stale remove_team_overrides
  sync_canonical_overrides c [] s =
      if c.removes then remove_team_overrides c s (managed_overrides c s.overrides) else s
  sync_canonical_overrides c (entry ∷ entries) s =
      let manifest = manifest_overrides [] (entry ∷ entries) in
      let existing = managed_overrides c s.overrides in
      delete_stale c manifest (sync_each_override c (index_by_name [] existing) s manifest) existing
