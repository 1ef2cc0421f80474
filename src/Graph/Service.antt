-- ===== src/Graph/Service.antt =====
-- The graphs of server/src/services/graph/GraphService.ts, from the rows of the database.
pub mod WellFormed
use depsera.Prelude.{
  ℕ, suc, String, Bool, true, false, not, ◌&&◌, Option, none, some, List, [], ◌∷◌, ◌++◌, map, keep,
  find, length, nat_eq, ◌==◌, if◌then◌else◌, is_some,
}
use depsera.JsMap.{JsMap, get, set}
use depsera.Types.{DependencyCanonicalOverride}
use depsera.Grouping.{group_of, group_by_key}
use depsera.Drift.{equals}
use depsera.Overrides.Contact.{ContactJson}
use depsera.Graph.Row.{
  ServiceWithTeam, DependencyWithTarget, GraphRows, includes, owner_of, target_of,
  find_by_ids_with_team, find_by_service_ids,
}
use depsera.Graph.Traverse.{Traversal, traverse_upstream, not_visited}
use depsera.Graph.Inference.{infer_service_types}
use depsera.Graph.External.{
  Text, ExternalGroup, ExternalNodeEnrichment, normalize_dep_name, group_unassociated_deps,
  build_node_data, apply_enrichment, build_name_to_id_map,
}
use depsera.Graph.Builder.{
  GraphNode, GraphResponse, DependencyGraphBuilder, empty_builder, add_service_node,
  add_external_node, has_node, build, add_edge,
}

-- What the service reads; an absent team is not in `team_ids`.
pub record Stores : Type 0 where
  pub rows : GraphRows
  pub team_ids : List String
  pub canonical_overrides : List DependencyCanonicalOverride
  pub enrichments : List ExternalNodeEnrichment

-- `getCanonicalOverrideMap`
unfoldable pub canonical_override_map :
    JsMap DependencyCanonicalOverride
    → List DependencyCanonicalOverride
    → JsMap DependencyCanonicalOverride
canonical_override_map m [] = m
canonical_override_map m (o ∷ overrides) =
    canonical_override_map (set m o.canonical_name o) overrides

module _ (js : Text) (json : ContactJson) where
  abbrev pub Builder : Type 0
  Builder = DependencyGraphBuilder json.Any

  abbrev pub new_builder : Stores → Builder
  new_builder stores = record empty_builder {
    canonical_override_map = some (canonical_override_map [] stores.canonical_overrides);
  }

  unfoldable pub add_services :
      JsMap String → List (ServiceWithTeam × List DependencyWithTarget) → Builder → Builder
  add_services types [] b = b
  add_services types ((s, deps) ∷ services) b =
      add_services types services (add_service_node s deps (get types s.service.id) b)

  unfoldable pub enrichment_map :
      JsMap ExternalNodeEnrichment → List ExternalNodeEnrichment → JsMap ExternalNodeEnrichment
  enrichment_map m [] = m
  enrichment_map m (e ∷ enrichments) =
      enrichment_map (set m (normalize_dep_name js e.canonical_name) e) enrichments

  unfoldable pub add_groups : JsMap ExternalNodeEnrichment → JsMap ExternalGroup → Builder → Builder
  add_groups enrichments [] b = b
  add_groups enrichments ((name, group) ∷ groups) b =
      let plain = build_node_data group.name group.deps in
      add_groups enrichments groups (
        add_external_node group.id
          (elim (get enrichments name) [
            | none ↦ plain
            | some enrichment ↦ apply_enrichment plain enrichment
          ])
          b)

  unfoldable pub add_external_nodes : Stores → List DependencyWithTarget → Builder → Builder
  unfolding add_groups enrichment_map
  add_external_nodes stores dependencies b = elim (group_unassociated_deps js dependencies) [
    | [] ↦ b
    | group ∷ groups ↦
        record (add_groups (enrichment_map [] stores.enrichments) (group ∷ groups) b) {
          external_node_map = some (build_name_to_id_map (group ∷ groups));
        }
  ]

  unfoldable pub add_edges : List DependencyWithTarget → Builder → Builder
  add_edges [] b = b
  add_edges (d ∷ dependencies) b = add_edges dependencies (add_edge js json d b)

  -- The targets that are no nodes, each once; `seen` holds those found before.
  unfoldable pub find_external_service_ids :
      List String → List DependencyWithTarget → Builder → List String
  find_external_service_ids seen [] b = []
  find_external_service_ids seen (d ∷ dependencies) b = elim (target_of d) [
    | none ↦ find_external_service_ids seen dependencies b
    | some target ↦
        if not (has_node b target) && not (includes seen target)
        then target ∷ find_external_service_ids (target ∷ seen) dependencies b
        else find_external_service_ids seen dependencies b
  ]

  -- `addExternalServices`: a service with the dependencies that point to it.
  unfoldable pub add_external_services :
      Stores → List String → JsMap String → List DependencyWithTarget → Builder → Builder
  unfolding add_services
  add_external_services stores ids types dependencies b =
      add_services types
        (map
          (λ (s : ServiceWithTeam). (
            s,
            keep (λ (d : DependencyWithTarget). equals d.target_service_id s.service.id)
                dependencies,
          ))
          (find_by_ids_with_team ids stores.rows))
        b

  abbrev pub pair_with_deps :
      List DependencyWithTarget
      → List ServiceWithTeam
      → List (ServiceWithTeam × List DependencyWithTarget)
  pair_with_deps dependencies services =
      map (λ (s : ServiceWithTeam). (s, group_of (group_by_key dependencies owner_of) s.service.id))
        services

  -- `buildGraph`, and the rest of `getTeamGraph` after its queries
  unfoldable pub build_graph :
      Stores → List ServiceWithTeam → List DependencyWithTarget → GraphResponse json.Any
  unfolding add_services find_external_service_ids add_external_services add_external_nodes
      add_edges
  build_graph stores services dependencies =
      let types = infer_service_types dependencies in
      let owned = add_services types (pair_with_deps dependencies services) (new_builder stores) in
      let linked =
        add_external_services stores (find_external_service_ids [] dependencies owned) types
          dependencies owned in
      build (add_edges dependencies (add_external_nodes stores dependencies linked))

  abbrev pub is_active_service : ServiceWithTeam → Bool
  is_active_service s = nat_eq s.service.is_active 1

  -- The dependencies are those of active services, the services also not external.
  unfoldable pub get_full_graph : Stores → GraphResponse json.Any
  unfolding build_graph
  get_full_graph stores =
      build_graph stores
        (keep (λ (s : ServiceWithTeam). is_active_service s && nat_eq s.service.is_external 0)
          stores.rows.services)
        (find_by_service_ids
          (map (λ (s : ServiceWithTeam). s.service.id)
            (keep is_active_service stores.rows.services))
          stores.rows)

  abbrev pub services_of_team : Stores → String → List ServiceWithTeam
  services_of_team stores team_id =
      keep (λ (s : ServiceWithTeam). s.service.team_id == team_id && is_active_service s)
        stores.rows.services

  unfoldable pub get_team_graph : Stores → String → GraphResponse json.Any
  unfolding build_graph
  get_team_graph stores team_id =
      if not (includes stores.team_ids team_id)
      then record { nodes = []; edges = [] }
      else elim (services_of_team stores team_id) [
        | [] ↦ record { nodes = []; edges = [] }
        | s ∷ services ↦ build_graph stores (s ∷ services) (
            find_by_service_ids (map (λ (x : ServiceWithTeam). x.service.id) (s ∷ services))
              stores.rows)
      ]

  -- The edges of the dependencies of each service, in turn.
  unfoldable pub add_edges_of_services :
      List (ServiceWithTeam × List DependencyWithTarget) → Builder → Builder
  unfolding add_edges
  add_edges_of_services [] b = b
  add_edges_of_services ((s, deps) ∷ services) b = add_edges_of_services services (add_edges deps b)

  -- `getServiceSubgraph` after the traversal
  unfoldable pub build_subgraph : Stores → Traversal → GraphResponse json.Any
  unfolding add_services add_external_nodes add_edges_of_services
  build_subgraph stores t =
      let types = infer_service_types t.all_dependencies in
      build (
        add_edges_of_services t.service_data (
          add_external_nodes stores t.all_dependencies
            (add_services types t.service_data (new_builder stores))))

  -- `none` is out of fuel.
  unfoldable pub get_service_subgraph : Stores → String → Option (GraphResponse json.Any)
  unfolding build_subgraph
  get_service_subgraph stores service_id =
      elim (traverse_upstream stores.rows (suc (length stores.rows.dependencies)) not_visited
        (service_id ∷ [])) [ none ↦ none | some t ↦ some (build_subgraph stores t) ]

  unfoldable pub get_dependency_subgraph : Stores → String → Option (GraphResponse json.Any)
  unfolding get_service_subgraph
  get_dependency_subgraph stores dependency_id =
      elim (find (λ (d : DependencyWithTarget). d.dependency.id == dependency_id)
        stores.rows.dependencies) [
          | none ↦ some (record { nodes = []; edges = [] })
          | some d ↦ get_service_subgraph stores (owner_of d)
        ]
