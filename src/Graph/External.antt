-- ===== src/Graph/External.antt =====
-- server/src/services/graph/ExternalNodeBuilder.ts. Lower case, trimming and the hash are parameters.
use Prim.Native.String.{◌++◌ as ◌^^◌}
use depsera.Prelude.{
  ℕ, ◌+◌, String, Bool, true, false, Option, none, some, List, [], ◌∷◌, ◌++◌, length, nat_eq,
  or_else, if◌then◌else◌,
}
use depsera.JsMap.{JsMap, get, set}
use depsera.Overrides.{truthy_text, first_of}
use depsera.Graph.Row.{DependencyWithTarget}
use depsera.Graph.Inference.{count_type, most_common}

-- What the nodes need of the language and of the crypto module.
pub record Text : Type 0 where
  pub to_lower_case : String → String
  pub trim : String → String
  pub sha256_12 : String → String

pub record ServiceNodeData : Type 0 where
  pub name : String
  pub team_id : String
  pub team_name : String
  pub health_endpoint : String
  pub is_active : Bool
  pub dependency_count : ℕ
  pub healthy_count : ℕ
  pub unhealthy_count : ℕ
  pub last_poll_success : Option Bool
  pub last_poll_error : Option String
  pub skipped_count : ℕ
  pub service_type : Option String
  pub is_external : Bool
  pub discovered_dependency_count : Option ℕ
  pub enriched_description : Option String
  pub enriched_impact : Option String
  pub enriched_contact : Option String

pub record ExternalGroup : Type 0 where
  pub id : String
  pub name : String
  pub deps : List DependencyWithTarget

pub record ExternalNodeEnrichment : Type 0 where
  pub canonical_name : String
  pub display_name : Option String
  pub description : Option String
  pub impact : Option String
  pub contact : Option String
  pub service_type : Option String

-- A nullable SQLite boolean that is the number given.
abbrev pub holds : Option ℕ → ℕ → Bool
holds none n = false
holds (some m) n = nat_eq m n

module _ (js : Text) where
  abbrev pub normalize_dep_name : String → String
  normalize_dep_name name = js.trim (js.to_lower_case name)

  abbrev pub generate_external_id : String → String
  generate_external_id normalized_name = "external-" ^^ js.sha256_12 normalized_name

  abbrev pub display_name_of : DependencyWithTarget → String
  display_name_of d = or_else d.dependency.canonical_name d.dependency.name

  -- one round of the loop, for a dependency without a target
  abbrev pub add_to_group : JsMap ExternalGroup → DependencyWithTarget → JsMap ExternalGroup
  add_to_group groups d =
      let normalized = normalize_dep_name (display_name_of d) in
      elim (get groups normalized) [
        | some existing ↦ set groups normalized (record existing { deps = existing.deps ++ d ∷ [] })
        | none ↦ set groups normalized (record {
          id = generate_external_id normalized;
          name = display_name_of d;
          deps = d ∷ [];
        })
      ]

  unfoldable pub group_unassociated :
      JsMap ExternalGroup → List DependencyWithTarget → JsMap ExternalGroup
  group_unassociated groups [] = groups
  group_unassociated groups (d ∷ deps) =
      group_unassociated
        (elim d.target_service_id [ some _ ↦ groups | none ↦ add_to_group groups d ]) deps

  -- `groupUnassociatedDeps`
  abbrev pub group_unassociated_deps : List DependencyWithTarget → JsMap ExternalGroup
  group_unassociated_deps deps = group_unassociated [] deps

-- The counts of healthy, unhealthy and skipped dependencies.
unfoldable pub count_health : ℕ × ℕ × ℕ → List DependencyWithTarget → ℕ × ℕ × ℕ
count_health counts [] = counts
count_health (healthy, unhealthy, skipped) (d ∷ deps) =
    count_health
      (if nat_eq d.dependency.skipped 1
        then (healthy, unhealthy, skipped + 1)
        else if holds d.dependency.healthy 1
        then (healthy + 1, unhealthy, skipped)
        else if holds d.dependency.healthy 0
        then (healthy, unhealthy + 1, skipped)
        else (healthy, unhealthy, skipped))
      deps

unfoldable pub count_types : JsMap ℕ → List DependencyWithTarget → JsMap ℕ
count_types counts [] = counts
count_types counts (d ∷ deps) = count_types (count_type counts d.dependency.type) deps

unfoldable pub build_node_data : String → List DependencyWithTarget → ServiceNodeData
unfolding count_health count_types most_common
build_node_data name deps =
    let (healthy, unhealthy, skipped) = count_health (0, 0, 0) deps in
    record {
      name = name;
      team_id = "external";
      team_name = "External";
      health_endpoint = "";
      is_active = true;
      dependency_count = length deps;
      healthy_count = healthy;
      unhealthy_count = unhealthy;
      last_poll_success = none;
      last_poll_error = none;
      skipped_count = skipped;
      service_type = most_common none 0 (count_types [] deps);
      is_external = true;
      discovered_dependency_count = none;
      enriched_description = none;
      enriched_impact = none;
      enriched_contact = none;
    }

unfoldable pub apply_enrichment : ServiceNodeData → ExternalNodeEnrichment → ServiceNodeData
apply_enrichment node enrichment = record node {
  name = or_else (truthy_text enrichment.display_name) node.name;
  service_type = first_of (truthy_text enrichment.service_type) node.service_type;
  enriched_description = first_of (truthy_text enrichment.description) node.enriched_description;
  enriched_impact = first_of (truthy_text enrichment.impact) node.enriched_impact;
  enriched_contact = first_of (truthy_text enrichment.contact) node.enriched_contact;
}

unfoldable pub build_name_to_id_map : JsMap ExternalGroup → JsMap String
build_name_to_id_map [] = []
build_name_to_id_map ((name, group) ∷ groups) = (name, group.id) ∷ build_name_to_id_map groups
