-- ===== src/Overrides.antt =====
-- server/src/utils/overrideResolver.ts and dependencyOverrideResolver.ts: the impact of a dependency
-- under the overrides. The contact, which merges JSON objects, is not modelled.
pub mod Precedence
pub mod Contact
use depsera.Prelude.{
  String, Bool, true, false, Option, none, some, List, [], ◌∷◌, ◌==◌, if◌then◌else◌,
}
use depsera.JsMap.{JsMap, get, set}
use depsera.Types.{Dependency, DependencyCanonicalOverride}

abbrev pub first_of : {A : Type 0} → Option A → Option A → Option A
first_of none b = b
first_of (some a) b = some a

unfoldable pub resolve_impact : Option String → Option String → Option String → Option String
resolve_impact polled canonical_override (some own) = some own
resolve_impact polled (some shared) none = some shared
resolve_impact (some reported) none none = some reported
resolve_impact none none none = none

abbrev pub Overrides : Type 0
Overrides = JsMap DependencyCanonicalOverride

-- An absent or empty text is falsy.
abbrev pub truthy_text : Option String → Option String
truthy_text none = none
truthy_text (some s) = if s == "" then none else some s

abbrev pub is_of_team : Option String → DependencyCanonicalOverride → Bool
is_of_team team_id o = elim (truthy_text team_id) [
  | none ↦ false
  | some t ↦ elim o.team_id [ none ↦ false | some owner ↦ owner == t ]
]

abbrev pub is_global : DependencyCanonicalOverride → Bool
is_global o = elim o.team_id [ none ↦ true | some owner ↦ false ]

-- One of the two maps: the overrides that the test lets through, by their name.
unfoldable pub build_map :
    (DependencyCanonicalOverride → Bool) → Overrides → List DependencyCanonicalOverride → Overrides
build_map p m [] = m
build_map p m (o ∷ overrides) = build_map p (if p o then set m o.canonical_name o else m) overrides

unfoldable pub find_canonical :
    Option String
    → List DependencyCanonicalOverride
    → Dependency
    → Option DependencyCanonicalOverride
unfolding build_map
find_canonical team_id overrides dep = elim (truthy_text dep.canonical_name) [
  | none ↦ none
  | some name ↦
      first_of (get (build_map (is_of_team team_id) [] overrides) name)
        (get (build_map is_global [] overrides) name)
]

abbrev pub impact_of : Option DependencyCanonicalOverride → Option String
impact_of none = none
impact_of (some o) = o.impact_override

-- `effective_impact` of one dependency
unfoldable pub effective_impact :
    Option String → List DependencyCanonicalOverride → Dependency → Option String
unfolding find_canonical resolve_impact
effective_impact team_id overrides dep =
    resolve_impact dep.impact (impact_of (find_canonical team_id overrides dep)) dep.impact_override
