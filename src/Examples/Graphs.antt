-- ===== src/Examples/Graphs.antt =====
-- A shop that depends on orders, which depends on the shop and on a database that is no service.
use depsera.Prelude.{suc, ◌≡◌, refl, ◌↔◌, String, Option, none, some, [], ◌∷◌, length, In}
use depsera.Types.{default}
use depsera.Graph.Row.{ServiceWithTeam, DependencyWithTarget, GraphRows}
use depsera.Graph.External.{Text}
use depsera.Graph.Builder.{GraphResponse}
use depsera.Graph.Service.{Stores, get_team_graph, get_service_subgraph}
use depsera.Graph.Service.WellFormed.{
  WellFormed, get_team_graph-WellFormed, get_service_subgraph-WellFormed,
}
use depsera.Graph.Traverse.{Traversal, traverse_upstream, not_visited}
use depsera.Graph.Traverse.Reachable.{Upstream, traverse_upstream_lem}
use depsera.Overrides.Contact.{ContactJson}
use depsera.Examples.Data.{service, db}

abbrev text : Text
text = record { to_lower_case = λ s. s; trim = λ s. s; sha256_12 = λ s. s }

abbrev json : ContactJson
json = record { Any = String; parse = λ s. some s; as_object = λ v. none; stringify = λ o. "" }

abbrev shown : String → ServiceWithTeam
shown id = record { service = service id default; team_name = "Shop" }

abbrev linked : String → String → Option String → DependencyWithTarget
linked id owner target = record {
  dependency = record db { id = id; service_id = owner };
  service_name = owner;
  target_service_id = target;
  association_id = target;
  association_type = none;
  avg_latency_24h = none;
  is_auto_suggested = none;
}

abbrev rows : GraphRows
rows = record {
  services = shown "shop" ∷ shown "orders" ∷ [];
  dependencies =
      linked "d1" "shop" (some "orders")
      ∷ linked "d2" "orders" (some "shop")
      ∷ linked "d3" "orders" none
      ∷ linked "d4" "orders" (some "unknown")
      ∷ [];
}

abbrev stores : Stores
stores = record { rows = rows; team_ids = "shop" ∷ []; canonical_overrides = []; enrichments = [] }

-- The round trip between the two services ends; the database is a node, and the unknown is none.
graph_of_shop :
    (length (get_team_graph text json stores "shop").nodes ≡ 3)
    × (length (get_team_graph text json stores "shop").edges ≡ 3)
unfolding get_team_graph depsera.Graph.Row.find_by_service_ids depsera.Graph.Builder.add_edge
    depsera.Graph.External.group_unassociated depsera.JsMap.get depsera.JsMap.set
    depsera.Graph.Builder.add_node depsera.Graph.Row.find_by_ids_with_team
    depsera.Graph.Builder.service_node depsera.Graph.External.build_name_to_id_map
graph_of_shop = (refl, refl)

traverse_upstream_lem_example :
    (final : Traversal) × (traverse_upstream rows
        (suc (length rows.dependencies))
        not_visited
        ("shop" ∷ [])
      ≡ some final)
    × ((v : String) → In v final.visited_services ↔ Upstream rows "shop" v)
traverse_upstream_lem_example = traverse_upstream_lem rows "shop"

get_team_graph-WellFormed_example : WellFormed (get_team_graph text json stores "shop")
get_team_graph-WellFormed_example = get_team_graph-WellFormed text json stores "shop"

get_service_subgraph-WellFormed_example :
    (g : GraphResponse String) × (get_service_subgraph text json stores "shop" ≡ some g)
    × WellFormed g
get_service_subgraph-WellFormed_example = get_service_subgraph-WellFormed text json stores "shop"
