-- ===== src/Graph/Row.antt =====
-- The rows of server/src/services/graph/types.ts, and the queries of stores/impl/ServiceStore.ts and
-- DependencyStore.ts that fetch them, over the rows that the joins give.
use depsera.Prelude.{ℕ, String, Bool, Option, List, keep, any, ◌==◌}
use depsera.Types.{Service, Dependency}
use depsera.Overrides.{truthy_text}

pub record ServiceWithTeam : Type 0 where
  pub service : Service
  pub team_name : String

-- A dependency has a row for each of its associations, or one without a target.
pub record DependencyWithTarget : Type 0 where
  pub dependency : Dependency
  pub service_name : String
  pub target_service_id : Option String
  pub association_id : Option String
  pub association_type : Option String
  pub avg_latency_24h : Option ℕ
  pub is_auto_suggested : Option ℕ

pub record GraphRows : Type 0 where
  pub services : List ServiceWithTeam
  pub dependencies : List DependencyWithTarget

abbrev pub includes : List String → String → Bool
includes ids id = any (λ (i : String). i == id) ids

abbrev pub owner_of : DependencyWithTarget → String
owner_of d = d.dependency.service_id

-- A target that is not falsy.
abbrev pub target_of : DependencyWithTarget → Option String
target_of d = truthy_text d.target_service_id

-- `findByIdsWithTeam`
unfoldable pub find_by_ids_with_team : List String → GraphRows → List ServiceWithTeam
find_by_ids_with_team ids rows =
    keep (λ (s : ServiceWithTeam). includes ids s.service.id) rows.services

-- `findByServiceIdsWithAssociationsAndLatency`
unfoldable pub find_by_service_ids : List String → GraphRows → List DependencyWithTarget
find_by_service_ids ids rows = keep (λ d. includes ids (owner_of d)) rows.dependencies
