-- ===== src/Manifest/Sync/Associations.antt =====
-- `syncAssociations` of server/src/services/manifest/ManifestSyncService.ts over the table
-- dependency_associations, with what it calls of stores/impl/AssociationStore.ts. It runs on one
-- connection without an await, so what it has read of services and dependencies is still there when it
-- writes, and a pair without a row takes an INSERT: the branches for a failed write are not modelled.
pub mod Stale
use Prim.Native.String.{◌++◌ as ◌^^◌}
use depsera.Prelude.{
  ℕ, suc, ◌+◌, String, Bool, true, false, not, ◌&&◌, ◌||◌, Option, none, some, List, [], ◌∷◌, ◌++◌,
  map, keep, any, find, nat_eq, ◌==◌, or_else, if◌then◌else◌,
}
use depsera.JsMap.{JsMap, get, set}
use depsera.Rows.{remove, update}
use depsera.Types.{Service, Dependency}
use depsera.Overrides.{truthy_text, first_of}
use depsera.Manifest.Sync.Result.{AssociationCounts}

pub record DependencyAssociation : Type 0 where
  pub id : String
  pub dependency_id : String
  pub linked_service_id : String
  pub association_type : String
  pub is_auto_suggested : ℕ
  pub is_dismissed : ℕ
  pub manifest_managed : ℕ
  pub created_at : String

pub record ManifestAssociationEntry : Type 0 where
  pub service_key : String
  pub dependency_name : String
  pub linked_service_key : String
  pub association_type : String

-- A team with the columns that are read.
pub record Team : Type 0 where
  pub id : String
  pub key : Option String

-- What the sync is given besides the manifest, and what it reads.
pub record AssociationContext : Type 0 where
  pub team_id : String
  pub removes : Bool
  pub now : String
  pub uuid : ℕ → String
  pub teams : List Team
  pub services : List Service
  pub dependencies : List Dependency

pub record AssociationSync : Type 0 where
  pub rows : List DependencyAssociation
  pub counts : AssociationCounts
  pub next : ℕ

abbrev pub association_id_of : DependencyAssociation → String
association_id_of a = a.id

-- `findByTeamId`
abbrev pub team_services : AssociationContext → List Service
team_services c = keep (λ (s : Service). s.team_id == c.team_id) c.services

-- `findByServiceId`
abbrev pub dependencies_of : AssociationContext → Service → List Dependency
dependencies_of c s = keep (λ (d : Dependency). d.service_id == s.id) c.dependencies

abbrev pub find_by_dependency_id : String → List DependencyAssociation → List DependencyAssociation
find_by_dependency_id id rows = keep (λ a. a.dependency_id == id) rows

-- The key of a service, if it has one that is not empty.
unfoldable pub own_key : Service → Option String
own_key s = truthy_text s.manifest_key

-- `teamKeyById`
unfoldable pub team_key_by_id : JsMap String → List Team → JsMap String
team_key_by_id m [] = m
team_key_by_id m (t ∷ teams) =
    team_key_by_id (elim (truthy_text t.key) [ none ↦ m | some key ↦ set m t.id key ]) teams

-- `team_key/manifest_key`
abbrev pub namespaced_key : AssociationContext → Service → Option String
namespaced_key c s = elim (own_key s) [
  | none ↦ none
  | some key ↦ elim (truthy_text (get (team_key_by_id [] c.teams) s.team_id)) [
    | none ↦ none
    | some team ↦ some (team ^^ ("/" ^^ key))
  ]
]

-- `new Map(services.filter(...).map(...))` for the key that a service has.
unfoldable pub index_services :
    (Service → Option String) → JsMap Service → List Service → JsMap Service
index_services key m [] = m
index_services key m (s ∷ services) =
    index_services key (elim (key s) [ none ↦ m | some k ↦ set m k s ]) services

-- `manifestKeyByServiceId`
unfoldable pub key_by_service_id : AssociationContext → JsMap String → List Service → JsMap String
key_by_service_id c m [] = m
key_by_service_id c m (s ∷ services) =
    key_by_service_id c (elim (namespaced_key c s) [ none ↦ m | some k ↦ set m s.id k ]) services

abbrev pub association_tuple : String → String → String → String
association_tuple service_key dependency_name linked =
    service_key ^^ ("|" ^^ (dependency_name ^^ ("|" ^^ linked)))

abbrev pub manifest_tuples : List ManifestAssociationEntry → List String
manifest_tuples entries =
    map
      (λ (e : ManifestAssociationEntry).
        association_tuple e.service_key e.dependency_name e.linked_service_key)
      entries

abbrev pub resolved_name : Dependency → String
resolved_name d = or_else (truthy_text d.canonical_name) d.name

abbrev pub is_named : String → Dependency → Bool
is_named name d = (resolved_name d == name) || (d.name == name)

abbrev pub adopt : String → DependencyAssociation → DependencyAssociation
adopt type a = record a { manifest_managed = 1; association_type = type }

-- `create`, and the UPDATE that marks the row
abbrev pub new_association :
    AssociationContext → ℕ → String → String → String → DependencyAssociation
new_association c n dependency_id linked_service_id type = record {
  id = c.uuid n;
  dependency_id = dependency_id;
  linked_service_id = linked_service_id;
  association_type = type;
  is_auto_suggested = 0;
  is_dismissed = 0;
  manifest_managed = 1;
  created_at = c.now;
}

abbrev pub count_created : AssociationCounts → AssociationCounts
count_created n = record n { created = suc n.created }

-- The row for a dependency and the service that it is linked to.
unfoldable pub link :
    AssociationContext → String → Dependency → Service → AssociationSync → AssociationSync
link c type dep linked s =
    elim (find (λ a. a.linked_service_id == linked.id) (find_by_dependency_id dep.id s.rows)) [
      | some existing ↦
          if nat_eq existing.manifest_managed 1
          then record s { counts = record s.counts { unchanged = suc s.counts.unchanged } }
          else record s {
            rows = update association_id_of existing.id (adopt type) s.rows;
            counts = count_created s.counts;
          }
      | none ↦ record s {
        rows = s.rows ++ new_association c s.next dep.id linked.id type ∷ [];
        counts = count_created s.counts;
        next = suc s.next;
      }
    ]

-- What is not found is skipped.
unfoldable pub sync_association :
    AssociationContext → ManifestAssociationEntry → AssociationSync → AssociationSync
unfolding index_services link team_key_by_id
sync_association c entry s =
    elim (get (index_services own_key [] (team_services c)) entry.service_key) [
      | none ↦ s
      | some service ↦ elim (find (is_named entry.dependency_name) (dependencies_of c service)) [
        | none ↦ s
        | some dep ↦
            elim (get (index_services (namespaced_key c) [] c.services) entry.linked_service_key) [
              | none ↦ s
              | some linked ↦ link c entry.association_type dep linked s
            ]
      ]
    ]

unfoldable pub sync_each_association :
    AssociationContext → List ManifestAssociationEntry → AssociationSync → AssociationSync
unfolding sync_association
sync_each_association c [] s = s
sync_each_association c (entry ∷ entries) s =
    sync_each_association c entries (sync_association c entry s)

-- The managed ones that the test does not spare are deleted.
unfoldable pub delete_unless :
    (DependencyAssociation → Bool) → List DependencyAssociation → AssociationSync → AssociationSync
delete_unless spared [] s = s
delete_unless spared (a ∷ assocs) s = delete_unless spared assocs (
    if not (nat_eq a.manifest_managed 1) || spared a then s else record s {
      rows = remove association_id_of a.id s.rows;
      counts = record s.counts { removed = suc s.counts.removed };
    })

-- For each dependency of a service; the test is given the dependency.
unfoldable pub delete_of_dependencies :
    (Dependency → DependencyAssociation → Bool)
    → List Dependency
    → AssociationSync
    → AssociationSync
unfolding delete_unless
delete_of_dependencies spared [] s = s
delete_of_dependencies spared (d ∷ deps) s =
    delete_of_dependencies spared deps
      (delete_unless (spared d) (find_by_dependency_id d.id s.rows) s)

abbrev pub still_listed :
    AssociationContext → List String → String → Dependency → DependencyAssociation → Bool
still_listed c tuples key d a =
    any
      (λ (t : String).
        t
        == association_tuple key (resolved_name d)
            (or_else (get (key_by_service_id c [] c.services) a.linked_service_id) ""))
      tuples

-- The services that the manifest manages, each with its key.
unfoldable pub remove_stale_associations :
    AssociationContext → List String → List Service → AssociationSync → AssociationSync
unfolding delete_of_dependencies key_by_service_id team_key_by_id
remove_stale_associations c tuples [] st = st
remove_stale_associations c tuples (s ∷ services) st =
    remove_stale_associations c tuples services (elim (own_key s) [
      | none ↦ st
      | some key ↦
          if nat_eq s.manifest_managed 1
          then delete_of_dependencies (still_listed c tuples key) (dependencies_of c s) st
          else st
    ])

-- `removeTeamAssociations`
unfoldable pub remove_team_associations :
    AssociationContext → List Service → AssociationSync → AssociationSync
unfolding delete_of_dependencies
remove_team_associations c [] st = st
remove_team_associations c (s ∷ services) st = remove_team_associations c services (
    if nat_eq s.manifest_managed 1
    then delete_of_dependencies (λ d a. false) (dependencies_of c s) st
    else st)

-- A manifest without associations is the empty list.
unfoldable pub sync_associations :
    AssociationContext → List ManifestAssociationEntry → AssociationSync → AssociationSync
unfolding sync_each_association remove_stale_associations remove_team_associations
sync_associations c [] s = if c.removes then remove_team_associations c (team_services c) s else s
sync_associations c (entry ∷ entries) s =
    let synced = sync_each_association c (entry ∷ entries) s in
    if c.removes
    then remove_stale_associations c (manifest_tuples (entry ∷ entries)) (team_services c) synced
    else synced
