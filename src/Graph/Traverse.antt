-- ===== src/Graph/Traverse.antt =====
-- `traverseUpstream` of server/src/services/graph/GraphService.ts. The loop is recursion on fuel, and
-- `none` means that the fuel ran out.
pub mod Sets
pub mod Ends
pub mod Reachable
pub mod Data
use depsera.Prelude.{
  ℕ, zero, suc, String, Bool, true, false, not, Option, none, some, List, [], ◌∷◌, ◌++◌, map, keep,
  if◌then◌else◌,
}
use depsera.Auth.{unique}
use depsera.Grouping.{group_of, group_by_key}
use depsera.Graph.Row.{
  ServiceWithTeam, DependencyWithTarget, GraphRows, includes, owner_of, target_of,
  find_by_ids_with_team, find_by_service_ids,
}

pub record Traversal : Type 0 where
  pub visited_services : List String
  pub all_dependencies : List DependencyWithTarget
  pub service_data : List (ServiceWithTeam × List DependencyWithTarget)

-- `nextFrontier`, before its duplicates are dropped
unfoldable pub next_frontier : List String → List DependencyWithTarget → List String
next_frontier visited [] = []
next_frontier visited (d ∷ dependencies) =
    let rest = next_frontier visited dependencies in
    elim (target_of d) [
      | none ↦ rest
      | some target ↦ if not (includes visited target) then target ∷ rest else rest
    ]

abbrev pub unvisited_of : Traversal → List String → List String
unvisited_of t frontier = keep (λ id. not (includes t.visited_services id)) frontier

abbrev pub pair_up :
    List DependencyWithTarget
    → List ServiceWithTeam
    → List (ServiceWithTeam × List DependencyWithTarget)
pair_up dependencies services =
    map (λ (s : ServiceWithTeam). (s, group_of (group_by_key dependencies owner_of) s.service.id))
      services

-- One round, after the test of the loop.
unfoldable pub expand : GraphRows → Traversal → List String → Traversal
expand rows t unvisited = record {
  visited_services = t.visited_services ++ unvisited;
  all_dependencies = t.all_dependencies ++ find_by_service_ids unvisited rows;
  service_data =
      t.service_data
      ++ pair_up (find_by_service_ids unvisited rows) (find_by_ids_with_team unvisited rows);
}

abbrev pub frontier_after : GraphRows → Traversal → List String → List String
frontier_after rows t unvisited =
    unique (next_frontier (t.visited_services ++ unvisited) (find_by_service_ids unvisited rows))

-- An empty frontier has nothing unvisited, so the two exits of the loop are one.
unfoldable pub traverse_upstream : GraphRows → ℕ → Traversal → List String → Option Traversal
unfolding next_frontier expand
traverse_upstream rows zero t frontier = elim (unvisited_of t frontier) [
  | [] ↦ some t
  | _ ∷ _ ↦ none
]
traverse_upstream rows (suc fuel) t frontier = elim (unvisited_of t frontier) [
  | [] ↦ some t
  | id ∷ ids ↦
      traverse_upstream rows fuel (expand rows t (id ∷ ids)) (frontier_after rows t (id ∷ ids))
]

abbrev pub not_visited : Traversal
not_visited = record { visited_services = []; all_dependencies = []; service_data = [] }
