-- ===== src/Manifest/Sync/Overrides/Table.antt =====
-- The rows of dependency_canonical_overrides for the sync of
-- server/src/services/manifest/ManifestSyncService.ts, and their updates and deletions of
-- stores/impl/CanonicalOverrideStore.ts.
use depsera.Prelude.{
  ℕ, String, Bool, true, false, not, ◌&&◌, Option, none, some, List, [], ◌∷◌, keep, ◌==◌, nat_eq,
  if◌then◌else◌,
}
use depsera.Types.{DependencyCanonicalOverride}
use depsera.JsMap.{JsMap, set}
use depsera.Drift.{equals}
use depsera.Manifest.Sync.Result.{AliasCounts}

pub record ManifestCanonicalOverrideEntry (Object : Type 0) : Type 0 where
  pub canonical_name : String
  pub contact : Option Object
  pub impact : Option String

-- What `syncCanonicalOverrides` is given besides the manifest, with the rows that the references ask
-- for, JSON, and the sources of times and identifiers.
pub record OverrideContext (Object : Type 0) : Type 0 where
  pub team_id : String
  pub removes : Bool
  pub triggered_by : Option String
  pub team_exists : Bool
  pub user_exists : String → Bool
  pub stringify : Object → String
  pub now : String
  pub uuid : ℕ → String

pub data OverrideError : Type 0 where
  create_failed update_failed : String → OverrideError

pub record OverrideSync : Type 0 where
  pub overrides : List DependencyCanonicalOverride
  pub counts : AliasCounts
  pub errors : List OverrideError
  pub next : ℕ

-- The row of a team for a canonical name.
abbrev pub is_at : String → String → DependencyCanonicalOverride → Bool
is_at team k o = (o.canonical_name == k) && equals o.team_id team

abbrev pub is_managed_by : String → DependencyCanonicalOverride → Bool
is_managed_by team o = equals o.team_id team && nat_eq o.manifest_managed 1

-- Equality of texts that may be null.
abbrev pub same_text : Option String → Option String → Bool
same_text none none = true
same_text (some a) (some b) = a == b
same_text _ _ = false

-- `new Map(existingOverrides.map(o => [o.canonical_name, o]))`
unfoldable pub index_by_name :
    JsMap DependencyCanonicalOverride
    → List DependencyCanonicalOverride
    → JsMap DependencyCanonicalOverride
index_by_name m [] = m
index_by_name m (o ∷ overrides) = index_by_name (set m o.canonical_name o) overrides

-- `DO UPDATE SET`, on the row of the team for the name.
unfoldable pub update_at :
    String
    → String
    → (DependencyCanonicalOverride → DependencyCanonicalOverride)
    → List DependencyCanonicalOverride
    → List DependencyCanonicalOverride
update_at team k f [] = []
update_at team k f (o ∷ overrides) =
    let rest = update_at team k f overrides in if is_at team k o then f o ∷ rest else o ∷ rest

-- `CanonicalOverrideStore.deleteByTeam`
abbrev pub delete_by_team :
    String → String → List DependencyCanonicalOverride → List DependencyCanonicalOverride
delete_by_team k team overrides = keep (λ o. not (is_at team k o)) overrides
