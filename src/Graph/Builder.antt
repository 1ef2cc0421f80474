-- ===== src/Graph/Builder.antt =====
-- server/src/services/graph/DependencyGraphBuilder.ts. JSON is a parameter.
pub mod Invariant
use Prim.Native.String.{◌++◌ as ◌^^◌}
use depsera.Prelude.{
  ℕ, String, Bool, true, false, not, ◌&&◌, Option, none, some, List, [], ◌∷◌, ◌++◌, map, keep,
  length, ltb, nat_eq, or_else, if◌then◌else◌,
}
use depsera.JsMap.{JsMap, get}
use depsera.Types.{DiscoverySource, otlp_trace, DependencyCanonicalOverride}
use depsera.Grouping.{deduplicate_by_key}
use depsera.Overrides.{truthy_text}
use depsera.Overrides.Contact.{ContactJson, resolve_contact}
use depsera.Graph.Row.{ServiceWithTeam, DependencyWithTarget, includes, target_of, owner_of}
use depsera.Graph.External.{Text, ServiceNodeData, holds, normalize_dep_name, display_name_of}

pub record GraphNode : Type 0 where
  pub id : String
  pub node_data : ServiceNodeData

pub record GraphEdgeData (Any : Type 0) : Type 0 where
  pub dependency_type : String
  pub dependency_name : String
  pub canonical_name : Option String
  pub dependency_id : String
  pub healthy : Option Bool
  pub latency_ms : Option ℕ
  pub avg_latency_ms_24h : Option ℕ
  pub association_type : Option String
  pub check_details : Option Any
  pub error : Option Any
  pub error_message : Option String
  pub impact : Option String
  pub effective_contact : Option String
  pub skipped : Bool
  pub discovery_source : DiscoverySource
  pub is_auto_suggested : Bool
  pub association_id : Option String

pub record GraphEdge (Any : Type 0) : Type 0 where
  pub id : String
  pub source : String
  pub target : String
  pub edge_data : GraphEdgeData Any

pub record GraphResponse (Any : Type 0) : Type 0 where
  pub nodes : List GraphNode
  pub edges : List (GraphEdge Any)

pub record DependencyGraphBuilder (Any : Type 0) : Type 0 where
  pub nodes : List GraphNode
  pub edges : List (GraphEdge Any)
  pub node_ids : List String
  pub edge_ids : List String
  pub external_node_map : Option (JsMap String)
  pub canonical_override_map : Option (JsMap DependencyCanonicalOverride)

abbrev pub empty_builder : {Any : Type 0} → DependencyGraphBuilder Any
empty_builder = record {
  nodes = [];
  edges = [];
  node_ids = [];
  edge_ids = [];
  external_node_map = none;
  canonical_override_map = none;
}

abbrev pub id_of : DependencyWithTarget → String
id_of d = d.dependency.id

-- The number of dependencies that the test picks, of those that are not skipped.
abbrev pub count_unskipped : ℕ → List DependencyWithTarget → ℕ
count_unskipped n deps =
    length (keep (λ d. holds d.dependency.healthy n && not (nat_eq d.dependency.skipped 1)) deps)

abbrev pub is_traced : DependencyWithTarget → Bool
is_traced d = elim d.dependency.discovery_source [ otlp_trace ↦ true | _ ↦ false ]

abbrev pub to_bool : Option ℕ → Option Bool
to_bool none = none
to_bool (some n) = some (nat_eq n 1)

unfoldable pub service_node :
    ServiceWithTeam → List DependencyWithTarget → Option String → GraphNode
service_node s dependencies service_type =
    let unique_deps = deduplicate_by_key dependencies id_of in
    let discovered = length (keep is_traced unique_deps) in
    record {
      id = s.service.id;
      node_data = record {
        name = s.service.name;
        team_id = s.service.team_id;
        team_name = s.team_name;
        health_endpoint = s.service.health_endpoint;
        is_active = nat_eq s.service.is_active 1;
        dependency_count = length unique_deps;
        healthy_count = count_unskipped 1 unique_deps;
        unhealthy_count = count_unskipped 0 unique_deps;
        last_poll_success = to_bool s.service.last_poll_success;
        last_poll_error = s.service.last_poll_error;
        skipped_count = length (keep (λ d. nat_eq d.dependency.skipped 1) unique_deps);
        service_type = service_type;
        is_external = nat_eq s.service.is_external 1;
        discovered_dependency_count = if ltb 0 discovered then some discovered else none;
        enriched_description = none;
        enriched_impact = none;
        enriched_contact = none;
      };
    }

module _ {Any : Type 0} where
  unfoldable pub add_node : GraphNode → DependencyGraphBuilder Any → DependencyGraphBuilder Any
  add_node node b =
      if includes b.node_ids node.id
      then b
      else record b { nodes = b.nodes ++ node ∷ []; node_ids = node.id ∷ b.node_ids }

  -- `addServiceNode`
  abbrev pub add_service_node :
      ServiceWithTeam
      → List DependencyWithTarget
      → Option String
      → DependencyGraphBuilder Any
      → DependencyGraphBuilder Any
  add_service_node s dependencies service_type b =
      add_node (service_node s dependencies service_type) b

  -- `addExternalNode`
  abbrev pub add_external_node :
      String → ServiceNodeData → DependencyGraphBuilder Any → DependencyGraphBuilder Any
  add_external_node id given b = add_node (record { id = id; node_data = given }) b

  abbrev pub has_node : DependencyGraphBuilder Any → String → Bool
  has_node b id = includes b.node_ids id

  abbrev pub build : DependencyGraphBuilder Any → GraphResponse Any
  build b = record { nodes = b.nodes; edges = b.edges }

module _ (js : Text) (json : ContactJson) where
  -- a column of JSON text; what does not parse is left out
  abbrev pub parse_column : Option String → Option json.Any
  parse_column column = elim (truthy_text column) [ none ↦ none | some text ↦ json.parse text ]

  abbrev pub canonical_contact :
      DependencyGraphBuilder json.Any → DependencyWithTarget → Option String
  canonical_contact b d = elim b.canonical_override_map [
    | none ↦ none
    | some overrides ↦ elim (truthy_text d.dependency.canonical_name) [
      | none ↦ none
      | some name ↦ elim (get overrides name) [ none ↦ none | some o ↦ o.contact_override ]
    ]
  ]

  unfoldable pub create_edge_data :
      DependencyGraphBuilder json.Any → DependencyWithTarget → GraphEdgeData json.Any
  create_edge_data b d = record {
    dependency_type = d.dependency.type;
    dependency_name = d.dependency.name;
    canonical_name = d.dependency.canonical_name;
    dependency_id = d.dependency.id;
    healthy = to_bool d.dependency.healthy;
    latency_ms = d.dependency.latency_ms;
    avg_latency_ms_24h = d.avg_latency_24h;
    association_type = d.association_type;
    check_details = parse_column d.dependency.check_details;
    error = parse_column d.dependency.error;
    error_message = d.dependency.error_message;
    impact = d.dependency.impact;
    effective_contact =
        resolve_contact json d.dependency.contact (canonical_contact b d)
          d.dependency.contact_override;
    skipped = nat_eq d.dependency.skipped 1;
    discovery_source = d.dependency.discovery_source;
    is_auto_suggested = holds d.is_auto_suggested 1;
    association_id = truthy_text d.association_id;
  }

  -- The node from which the edge of a dependency comes.
  unfoldable pub source_of : DependencyGraphBuilder json.Any → DependencyWithTarget → Option String
  source_of b d = elim (target_of d) [
    | some target ↦ some target
    | none ↦ elim b.external_node_map [
      | none ↦ none
      | some external ↦ truthy_text (get external (normalize_dep_name js (display_name_of js d)))
    ]
  ]

  abbrev pub edge_id : String → DependencyWithTarget → String
  edge_id source d = source ^^ ("-" ^^ (owner_of d ^^ ("-" ^^ d.dependency.type)))

  unfoldable pub add_edge :
      DependencyWithTarget → DependencyGraphBuilder json.Any → DependencyGraphBuilder json.Any
  unfolding source_of create_edge_data
  add_edge d b = elim (source_of b d) [
    | none ↦ b
    | some source ↦
        if not (has_node b source)
        then b
        else if includes b.edge_ids (edge_id source d)
        then b
        else record b {
          edge_ids = edge_id source d ∷ b.edge_ids;
          edges =
              b.edges
              ++ record {
                id = edge_id source d;
                source = source;
                target = owner_of d;
                edge_data = create_edge_data b d;
              }
                ∷ [];
        }
  ]
