-- ===== src/Manifest/Sync/Overrides/Index.antt =====
-- The overrides of a team that the manifest manages, by name.
use depsera.Prelude.{
  String, ◌≡◌, refl, ap, ◌∙◌, inl, inr, false, ◌&&◌, Option, none, some, List, [], ◌∷◌, keep, find,
  any, ◌==◌, nat_eq, arith, eq_iff, is_some, Bool-cases, if◌then◌else◌,
}
use depsera.JsMap.{JsMap, get, set}
use depsera.JsMap.Laws.{get-set}
use depsera.Types.{DependencyCanonicalOverride}
use depsera.Drift.{equals}
use depsera.Manifest.Sync.Overrides.{is_at, is_managed_by, index_by_name}

-- The unique index of the table: a team has one row for a name.
abbrev pub UniqueNames : String → List DependencyCanonicalOverride → Type 0
UniqueNames team [] = Unit
UniqueNames team (o ∷ overrides) =
    ((equals o.team_id team && is_some (find (is_at team o.canonical_name) overrides)) ≡ false)
    × UniqueNames team overrides

abbrev pub if_managed : Option DependencyCanonicalOverride → Option DependencyCanonicalOverride
if_managed none = none
if_managed (some o) = if nat_eq o.manifest_managed 1 then some o else none

abbrev or_given :
    Option DependencyCanonicalOverride
    → Option DependencyCanonicalOverride
    → Option DependencyCanonicalOverride
or_given none given = given
or_given (some o) given = some o

module _ (team : String) where
  pub get-index_by_name :
      (m : JsMap DependencyCanonicalOverride) (overrides : List DependencyCanonicalOverride)
      (k : String)
      → UniqueNames team overrides
      → get (index_by_name m (keep (is_managed_by team) overrides)) k
        ≡ or_given (if_managed (find (is_at team k) overrides)) (get m k)
  unfolding index_by_name
  get-index_by_name m [] k u = refl
  get-index_by_name m (o ∷ overrides) k (new, u) = elim (Bool-cases (is_managed_by team o)) [
    | inl managed ↦ rw managed (
        get-index_by_name (set m o.canonical_name o) overrides k u
        ∙ elim (Bool-cases (o.canonical_name == k)) [
          | inl same ↦ ground (
            arith,
            managed,
            same,
            new,
            get-set m o.canonical_name k o,
            ap (λ i. find (is_at team i) overrides) ((eq_iff o.canonical_name k).0 same),
          )
          | inr other ↦ ground (arith, other, get-set m o.canonical_name k o)
        ])
    | inr unmanaged ↦ rw unmanaged (
        get-index_by_name m overrides k u ∙ elim (Bool-cases (is_at team k o)) [
          | inl at ↦ ground (
            arith,
            unmanaged,
            at,
            new,
            eq_iff o.canonical_name k,
            ap (λ i. find (is_at team i) overrides)
                ((eq_iff o.canonical_name k).0 (ground (arith, at))),
          )
          | inr other ↦ ground (arith, other)
        ])
  ]

  -- Whether one of the managed overrides has the name.
  pub any-managed :
      (overrides : List DependencyCanonicalOverride) (k : String)
      → UniqueNames team overrides
      → any
          (λ (o : DependencyCanonicalOverride). o.canonical_name == k)
          (keep (is_managed_by team) overrides)
        ≡ is_some (if_managed (find (is_at team k) overrides))
  any-managed [] k u = refl
  any-managed (o ∷ overrides) k (new, u) = elim (Bool-cases (o.canonical_name == k)) [
    | inl same ↦ ground (
      arith,
      same,
      new,
      any-managed overrides k u,
      ap (λ i. find (is_at team i) overrides) ((eq_iff o.canonical_name k).0 same),
    )
    | inr other ↦ ground (arith, other, any-managed overrides k u)
  ]
