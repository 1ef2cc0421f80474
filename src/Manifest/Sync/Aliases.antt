-- ===== src/Manifest/Sync/Aliases.antt =====
-- `syncAliases` of server/src/services/manifest/ManifestSyncService.ts over the table
-- dependency_aliases, with what it calls of stores/impl/DependencyAliasStore.ts. The column alias is
-- unique over all teams; the order in which `findAll` lists the rows is that of the table here. An
-- error is the constructor of its message, and an UPDATE of the name alone breaks no constraint.
pub mod View
pub mod Step
pub mod Entries
pub mod Stale
pub mod Refinement
use depsera.Prelude.{
  ℕ, suc, ◌+◌, String, Bool, true, false, not, ◌&&◌, Option, none, some, List, [], ◌∷◌, ◌++◌, keep,
  ◌==◌, if◌then◌else◌,
}
use depsera.JsMap.{JsMap, get, set, has}
use depsera.Rows.{has_key, update, remove}
use depsera.Drift.{equals}
use depsera.Manifest.Sync.Result.{AliasCounts}

pub record DependencyAlias : Type 0 where
  pub id : String
  pub alias : String
  pub canonical_name : String
  pub manifest_team_id : Option String
  pub created_at : String

-- The alias and its canonical name.
pub data AliasError : Type 0 where
  conflicts no_team : String → String → AliasError

-- What `syncAliases` is given besides the manifest, with the sources of times and identifiers, and
-- whether the row of the team exists.
pub record AliasContext : Type 0 where
  pub team_id : String
  pub removes : Bool
  pub now : String
  pub uuid : ℕ → String
  pub team_exists : Bool

pub record AliasSync : Type 0 where
  pub rows : List DependencyAlias
  pub counts : AliasCounts
  pub errors : List AliasError
  pub next : ℕ

abbrev pub alias_of : DependencyAlias → String
alias_of r = r.alias

abbrev pub id_of : DependencyAlias → String
id_of r = r.id

abbrev pub of_team : String → DependencyAlias → Bool
of_team team r = equals r.manifest_team_id team

abbrev pub new_alias : AliasContext → ℕ → String → String → DependencyAlias
new_alias c n alias canonical = record {
  id = c.uuid n;
  alias = alias;
  canonical_name = canonical;
  manifest_team_id = some c.team_id;
  created_at = c.now;
}

-- `createTeamAlias`, and the branches that count it or name its error.
unfoldable pub create_team_alias : AliasContext → String → String → AliasSync → AliasSync
create_team_alias c alias canonical s =
    if has_key alias_of alias s.rows
    then record s { errors = s.errors ++ conflicts alias canonical ∷ []; next = suc s.next }
    else if c.team_exists
    then record s {
      rows = s.rows ++ new_alias c s.next alias canonical ∷ [];
      counts = record s.counts { created = s.counts.created + 1 };
      next = suc s.next;
    }
    else record s { errors = s.errors ++ no_team alias canonical ∷ []; next = suc s.next }

-- `new Map(existingAliases.map(a => [a.alias, a]))`
unfoldable pub index : JsMap DependencyAlias → List DependencyAlias → JsMap DependencyAlias
index m [] = m
index m (r ∷ rows) = index (set m r.alias r) rows

-- `new Map(manifest.aliases.map(a => [a.alias, a.canonical_name]))`
unfoldable pub manifest_aliases : JsMap String → List (String × String) → JsMap String
manifest_aliases m [] = m
manifest_aliases m ((alias, canonical) ∷ entries) = manifest_aliases (set m alias canonical) entries

unfoldable pub sync_alias :
    AliasContext → JsMap DependencyAlias → String → String → AliasSync → AliasSync
unfolding create_team_alias
sync_alias c existing_by_alias alias canonical s = elim (get existing_by_alias alias) [
  | none ↦ create_team_alias c alias canonical s
  | some existing ↦
      if not (existing.canonical_name == canonical)
      then record s {
        rows = update id_of existing.id (λ r. record r { canonical_name = canonical }) s.rows;
        counts = record s.counts { updated = s.counts.updated + 1 };
      }
      else record s { counts = record s.counts { unchanged = s.counts.unchanged + 1 } }
]

unfoldable pub sync_each :
    AliasContext → JsMap DependencyAlias → AliasSync → JsMap String → AliasSync
sync_each c existing_by_alias s [] = s
sync_each c existing_by_alias s ((alias, canonical) ∷ entries) =
    sync_each c existing_by_alias (sync_alias c existing_by_alias alias canonical s) entries

abbrev pub delete_alias : AliasSync → DependencyAlias → AliasSync
delete_alias s existing = record s {
  rows = remove id_of existing.id s.rows;
  counts = record s.counts { removed = s.counts.removed + 1 };
}

-- One of the aliases that the team had.
unfoldable pub remove_if_stale :
    AliasContext → JsMap String → AliasSync → DependencyAlias → AliasSync
remove_if_stale c manifest s existing =
    if has manifest existing.alias
    then s
    else if c.removes
    then delete_alias s existing
    else record s { counts = record s.counts { unchanged = s.counts.unchanged + 1 } }

unfoldable pub remove_stale :
    AliasContext → JsMap String → AliasSync → List DependencyAlias → AliasSync
unfolding remove_if_stale
remove_stale c manifest s [] = s
remove_stale c manifest s (existing ∷ rows) =
    remove_stale c manifest (remove_if_stale c manifest s existing) rows

unfoldable pub remove_all : AliasSync → List DependencyAlias → AliasSync
remove_all s [] = s
remove_all s (existing ∷ rows) = remove_all (delete_alias s existing) rows

abbrev pub team_aliases : String → List DependencyAlias → List DependencyAlias
team_aliases team rows = keep (of_team team) rows

-- `entries` is empty also where the manifest has no aliases.
unfoldable pub sync_aliases : AliasContext → List (String × String) → AliasSync → AliasSync
unfolding sync_each remove_stale remove_all
sync_aliases c [] s = if c.removes then remove_all s (team_aliases c.team_id s.rows) else s
sync_aliases c (entry ∷ entries) s =
    let manifest = manifest_aliases [] (entry ∷ entries) in
    let existing = team_aliases c.team_id s.rows in
    remove_stale c manifest (sync_each c (index [] existing) s manifest) existing
