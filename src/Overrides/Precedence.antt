-- ===== src/Overrides/Precedence.antt =====
-- Which override decides the impact of a dependency.
use depsera.Prelude.{
  String, ◌≡◌, refl, inl, inr, Bool, false, ◌&&◌, Option, none, some, List, [], ◌∷◌, ◌==◌,
  if◌then◌else◌, arith, Bool-cases,
}
use depsera.JsMap.{get, set}
use depsera.JsMap.Laws.{get-set}
use depsera.Types.{Dependency, DependencyCanonicalOverride}
use depsera.Overrides.{
  Overrides, first_of, is_of_team, is_global, build_map, impact_of, effective_impact,
}

-- The last of the overrides for a name that pass a test.
abbrev pub last_for :
    (DependencyCanonicalOverride → Bool)
    → String
    → List DependencyCanonicalOverride
    → Option DependencyCanonicalOverride
last_for p name [] = none
last_for p name (o ∷ overrides) =
    first_of (last_for p name overrides) (if p o && o.canonical_name == name then some o else none)

get-build_map :
    (p : DependencyCanonicalOverride → Bool) (m : Overrides)
    (overrides : List DependencyCanonicalOverride) (name : String)
    → get (build_map p m overrides) name ≡ first_of (last_for p name overrides) (get m name)
unfolding build_map
get-build_map p m [] name = refl
get-build_map p m (o ∷ overrides) name = elim (Bool-cases (p o)) [
  | inr other ↦ ground (arith, get-build_map p m overrides name, other)
  | inl chosen ↦ ground (
    arith,
    get-build_map p (set m o.canonical_name o) overrides name,
    chosen,
    get-set m o.canonical_name name o,
  )
]

-- The impact of a dependency with a canonical name is its own override, or else that of the last
-- override of the team for the name, or of the last global one if the team has no override for it,
-- or else what the service reports. An override of the team that has no impact hides the global
-- one's impact.
pub effective_impact_lem :
    (team_id : Option String) (overrides : List DependencyCanonicalOverride) (dep : Dependency)
    (name : String)
    → dep.canonical_name ≡ some name
    → (name == "") ≡ false
    → effective_impact team_id overrides dep
      ≡ first_of dep.impact_override (
          first_of
            (impact_of (
              first_of
                (last_for (is_of_team team_id) name overrides)
                (last_for is_global name overrides)))
            dep.impact)
unfolding effective_impact get
effective_impact_lem team_id overrides dep name named filled = ground (
  arith,
  named,
  filled,
  get-build_map (is_of_team team_id) [] overrides name,
  get-build_map is_global [] overrides name,
)
