-- ===== src/Manifest/Sync/Associations/Stale.antt =====
-- What a sync that removes leaves of the managed associations.
use depsera.Prelude.{String, false, none, some, List, nat_eq, In, if◌then◌else◌}
use depsera.Types.{Service}
use depsera.Manifest.Sync.Associations.{
  DependencyAssociation, AssociationContext, AssociationSync, dependencies_of, own_key,
  delete_of_dependencies, still_listed,
}

-- The rows of `next` are rows of `st`.
abbrev Fewer : AssociationSync → AssociationSync → Type 0
Fewer st next = (a : DependencyAssociation) → In a next.rows → In a st.rows

module _ (c : AssociationContext) (tuples : List String) where
  abbrev after_service : Service → AssociationSync → AssociationSync
  after_service s st = elim (own_key s) [
    | none ↦ st
    | some key ↦
        if nat_eq s.manifest_managed 1
        then delete_of_dependencies (still_listed c tuples key) (dependencies_of c s) st
        else st
  ]

module _ (c : AssociationContext) where
  abbrev after_managed : Service → AssociationSync → AssociationSync
  after_managed s st =
      if nat_eq s.manifest_managed 1
      then delete_of_dependencies (λ d a. false) (dependencies_of c s) st
      else st
