-- ===== src/Examples/Access.antt =====
-- Authorisation.
use depsera.Prelude.{◌≡◌, refl, ◌↔◌, true, In, none, some, [], ◌∷◌, ◌==◌, if◌then◌else◌}
use depsera.Types.{User, UserRole, user, lead, TeamMember, Dependency}
use depsera.Auth.{
  Stores, authorized, check_dependency_team_access, check_dependency_team_lead_access,
  check_canonical_override_access, check_alias_access,
}
use depsera.Auth.Rights.{
  LeadsService, shared_name_rights, dependency_rights, MemberOfService, dependency_access_rights,
}
use depsera.Examples.Data.{orders, db}

abbrev person : UserRole → User
person role = record {
  id = "ann";
  email = "";
  name = "Ann";
  oidc_subject = none;
  password_hash = none;
  role = role;
  is_active = 1;
  created_at = "";
  updated_at = "";
}

abbrev team_lead : TeamMember
team_lead = record { team_id = "shop"; user_id = "ann"; role = lead; created_at = "" }

abbrev stores : Stores
stores = record {
  get_membership = λ team_id user_id. if team_id == "shop" then some team_lead else none;
  find_service = λ id. if id == "orders" then some orders else none;
  find_dependency = λ id. if id == "d1" then some db else none;
  all_dependencies = db ∷ [];
}

shared_name_rights_example :
    ((authorized (check_canonical_override_access stores (person user) "PostgreSQL") ≡ true) ↔ (
      (d : Dependency) × In d (db ∷ [])
      × (d.canonical_name ≡ some "PostgreSQL")
      × LeadsService stores (person user) d.service_id))
    × ((authorized (check_alias_access stores (person user) "PostgreSQL") ≡ true) ↔ (
        (d : Dependency) × In d (db ∷ [])
        × (d.name ≡ "PostgreSQL")
        × LeadsService stores (person user) d.service_id))
shared_name_rights_example = shared_name_rights stores (person user) "PostgreSQL" refl

dependency_rights_example :
    (authorized (check_dependency_team_lead_access stores (person user) "d1") ≡ true) ↔ (
      (d : Dependency) × (stores.find_dependency "d1" ≡ some d)
      × LeadsService stores (person user) d.service_id)
dependency_rights_example = dependency_rights stores (person user) "d1" refl

dependency_access_rights_example :
    ((authorized (check_dependency_team_access stores (person user) "d1") ≡ true) ↔ (
      (d : Dependency) × (stores.find_dependency "d1" ≡ some d)
      × MemberOfService stores (person user) d.service_id))
    × (authorized (check_dependency_team_lead_access stores (person user) "d1") ≡ true
        → check_dependency_team_access stores (person user) "d1"
          ≡ check_dependency_team_lead_access stores (person user) "d1")
dependency_access_rights_example = dependency_access_rights stores (person user) "d1" refl
