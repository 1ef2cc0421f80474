-- ===== src/Auth.antt =====
-- server/src/auth/authorizationService.ts. The database is a record of functions; an error message
-- is a constructor of `Denial`, with its status code.
pub mod Rights
use depsera.Prelude.{
  ℕ, String, Bool, true, false, Option, none, some, List, [], ◌∷◌, map, keep, any, ◌==◌, not,
  if◌then◌else◌,
}
use depsera.Types.{
  User, UserRole, admin, user, TeamMember, TeamMemberRole, lead, member, Service, Dependency,
}

pub data Denial : Type 0 where
  team_access_required team_lead_access_required service_not_found dependency_not_found : Denial
  canonical_lead_required alias_lead_required admin_access_required : Denial

abbrev pub status_code : Denial → ℕ
status_code service_not_found = 404
status_code dependency_not_found = 404
status_code _ = 403

-- `{ authorized: true, membership? }` or `{ authorized: false, error, statusCode }`
pub data AuthorizationResult : Type 0 where
  granted : Option TeamMember → AuthorizationResult
  denied : Denial → AuthorizationResult

abbrev pub authorized : AuthorizationResult → Bool
authorized (granted _) = true
authorized (denied _) = false

pub record Stores : Type 0 where
  pub get_membership : String → String → Option TeamMember
  pub find_service : String → Option Service
  pub find_dependency : String → Option Dependency
  pub all_dependencies : List Dependency

abbrev pub is_admin : UserRole → Bool
is_admin admin = true
is_admin user = false

abbrev pub is_lead : TeamMemberRole → Bool
is_lead lead = true
is_lead member = false

-- `[...new Set(ids)]`: the first occurrence of each
unfoldable pub unique : List String → List String
unique [] = []
unique (id ∷ ids) = id ∷ keep (λ j. not (j == id)) (unique ids)

abbrev pub named : Option String → String → Bool
named none name = false
named (some n) name = n == name

module _ (stores : Stores) where
  open stores use {get_membership, find_service, find_dependency, all_dependencies}

  unfoldable pub check_team_access : User → String → AuthorizationResult
  check_team_access u team_id =
      if is_admin u.role then granted none else elim (get_membership team_id u.id) [
        | none ↦ denied team_access_required
        | some membership ↦ granted (some membership)
      ]

  unfoldable pub check_team_lead_access : User → String → AuthorizationResult
  check_team_lead_access u team_id =
      if is_admin u.role then granted none else elim (get_membership team_id u.id) [
        | none ↦ denied team_lead_access_required
        | some membership ↦
            if is_lead membership.role
            then granted (some membership)
            else denied team_lead_access_required
      ]

  unfoldable pub check_service_team_lead_access : User → String → AuthorizationResult
  check_service_team_lead_access u service_id =
      if is_admin u.role then granted none else elim (find_service service_id) [
        | none ↦ denied service_not_found
        | some service ↦ check_team_lead_access u service.team_id
      ]

  unfoldable pub check_service_team_access : User → String → AuthorizationResult
  check_service_team_access u service_id =
      if is_admin u.role then granted none else elim (find_service service_id) [
        | none ↦ denied service_not_found
        | some service ↦ check_team_access u service.team_id
      ]

  unfoldable pub check_dependency_team_access : User → String → AuthorizationResult
  check_dependency_team_access u dependency_id =
      if is_admin u.role then granted none else elim (find_dependency dependency_id) [
        | none ↦ denied dependency_not_found
        | some dependency ↦ elim (find_service dependency.service_id) [
          | none ↦ denied service_not_found
          | some service ↦ check_team_access u service.team_id
        ]
      ]

  unfoldable pub check_dependency_team_lead_access : User → String → AuthorizationResult
  check_dependency_team_lead_access u dependency_id =
      if is_admin u.role then granted none else elim (find_dependency dependency_id) [
        | none ↦ denied dependency_not_found
        | some dependency ↦ elim (find_service dependency.service_id) [
          | none ↦ denied service_not_found
          | some service ↦ check_team_lead_access u service.team_id
        ]
      ]

  -- The loop over the services that own a matching dependency.
  unfoldable pub first_lead_access : Denial → User → List String → AuthorizationResult
  first_lead_access otherwise u [] = denied otherwise
  first_lead_access otherwise u (service_id ∷ ids) =
      let rest = first_lead_access otherwise u ids in
      elim (check_service_team_lead_access u service_id) [
        | granted membership ↦ granted membership
        | denied _ ↦ rest
      ]

  unfoldable pub lead_of_any : Denial → (Dependency → Bool) → User → AuthorizationResult
  unfolding unique first_lead_access
  lead_of_any otherwise matches u =
      if is_admin u.role
      then granted none
      else first_lead_access otherwise u
          (unique (map (λ (d : Dependency). d.service_id) (keep matches all_dependencies)))

  unfoldable pub check_canonical_override_access : User → String → AuthorizationResult
  unfolding lead_of_any
  check_canonical_override_access u canonical_name =
      lead_of_any canonical_lead_required (λ d. named d.canonical_name canonical_name) u

  unfoldable pub check_alias_access : User → String → AuthorizationResult
  unfolding lead_of_any
  check_alias_access u alias_name = lead_of_any alias_lead_required (λ d. d.name == alias_name) u

unfoldable pub check_admin_access : User → AuthorizationResult
check_admin_access u = if is_admin u.role then granted none else denied admin_access_required
