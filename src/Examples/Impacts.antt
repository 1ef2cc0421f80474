-- ===== src/Examples/Impacts.antt =====
-- A team's override that has a contact and no impact.
use depsera.Prelude.{String, ◌≡◌, refl, Option, none, some, List, [], ◌∷◌}
use depsera.Types.{DependencyCanonicalOverride}
use depsera.Overrides.{first_of, is_of_team, is_global, impact_of, effective_impact}
use depsera.Overrides.Precedence.{last_for, effective_impact_lem}
use depsera.Examples.Data.{db}

abbrev override : Option String → Option String → DependencyCanonicalOverride
override team_id impact = record {
  id = "o";
  canonical_name = "PostgreSQL";
  team_id = team_id;
  contact_override = some "{}";
  impact_override = impact;
  manifest_managed = 0;
  created_at = "";
  updated_at = "";
  updated_by = none;
}

abbrev overrides : List DependencyCanonicalOverride
overrides = override none (some "critical") ∷ override (some "shop") none ∷ []

effective_impact_lem_example :
    effective_impact (some "shop") overrides db
    ≡ first_of db.impact_override (
        first_of
          (impact_of (
            first_of
              (last_for (is_of_team (some "shop")) "PostgreSQL" overrides)
              (last_for is_global "PostgreSQL" overrides)))
          db.impact)
effective_impact_lem_example =
    effective_impact_lem (some "shop") overrides db "PostgreSQL" refl refl
