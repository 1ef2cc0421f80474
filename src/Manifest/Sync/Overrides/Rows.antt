-- ===== src/Manifest/Sync/Overrides/Rows.antt =====
-- What writes and deletions of overrides do to the row of a team for a name, and to the others.
use depsera.Prelude.{
  String, ◌≡◌, ◌≢◌, refl, sym, ap, ◌∙◌, inl, inr, Bool, true, false, not, none, some, List, [], ◌∷◌,
  keep, find, any, ◌==◌, ℕ, arith, eq_iff, eq_refl, eq_false, is_some, Bool-cases, Option-cases,
  if◌then◌else◌,
}
use depsera.Rows.Laws.{find-append, keep-append_out}
use depsera.Types.{DependencyCanonicalOverride}
use depsera.Drift.{equals}
use depsera.Manifest.Sync.Overrides.{
  ManifestCanonicalOverrideEntry, OverrideContext, is_at, update_at, delete_by_team, written,
  new_override, upsert,
}

abbrev pub not_of : String → DependencyCanonicalOverride → Bool
not_of team o = not (equals o.team_id team)

any-find :
    (p : DependencyCanonicalOverride → Bool) (overrides : List DependencyCanonicalOverride)
    → any p overrides ≡ is_some (find p overrides)
any-find p [] = refl
any-find p (o ∷ overrides) = ground (arith, any-find p overrides)

pub find-delete_by_team :
    (team a k : String) (overrides : List DependencyCanonicalOverride)
    → find (is_at team k) (delete_by_team a team overrides)
      ≡ (if a == k then none else find (is_at team k) overrides)
find-delete_by_team team a k [] = ground arith
find-delete_by_team team a k (o ∷ overrides) = elim (Bool-cases (is_at team a o)) [
  | inl gone ↦ rw gone (
      ground (
        arith,
        find-delete_by_team team a k overrides,
        gone,
        eq_iff o.canonical_name a,
        eq_iff o.canonical_name k,
        eq_iff a k,
      ))
  | inr stays ↦ rw stays (
      ground (
        arith,
        find-delete_by_team team a k overrides,
        stays,
        eq_iff o.canonical_name k,
        eq_iff a k,
        eq_iff o.canonical_name a,
      ))
]

pub others-delete_by_team :
    (team a : String) (overrides : List DependencyCanonicalOverride)
    → keep (not_of team) (delete_by_team a team overrides) ≡ keep (not_of team) overrides
others-delete_by_team team a [] = refl
others-delete_by_team team a (o ∷ overrides) =
    ground (arith, others-delete_by_team team a overrides)

module _ {Object : Type 0} (c : OverrideContext Object) (a : String)
    (entry : ManifestCanonicalOverrideEntry Object) where
  find-update_at :
      (k : String) (overrides : List DependencyCanonicalOverride)
      → find (is_at c.team_id k) (update_at c.team_id a (written c entry) overrides) ≡ (
          if a == k
          then elim (find (is_at c.team_id a) overrides) [
            | none ↦ none
            | some o ↦ some (written c entry o)
          ]
          else find (is_at c.team_id k) overrides)
  unfolding update_at
  find-update_at k [] = ground arith
  find-update_at k (o ∷ overrides) = elim (Bool-cases (is_at c.team_id a o)) [
    | inl here ↦ rw here (
        ground (
          arith,
          find-update_at k overrides,
          here,
          eq_iff o.canonical_name a,
          eq_iff o.canonical_name k,
          eq_iff a k,
        ))
    | inr later ↦ rw later (
        ground (
          arith,
          find-update_at k overrides,
          later,
          eq_iff o.canonical_name a,
          eq_iff o.canonical_name k,
          eq_iff a k,
        ))
  ]

  others-update_at :
      (overrides : List DependencyCanonicalOverride)
      → keep (not_of c.team_id) (update_at c.team_id a (written c entry) overrides)
        ≡ keep (not_of c.team_id) overrides
  unfolding update_at
  others-update_at [] = refl
  others-update_at (o ∷ overrides) = ground (arith, others-update_at overrides)

  pub find-upsert_other :
      (n : ℕ) (k : String) (overrides : List DependencyCanonicalOverride)
      → k ≢ a
      → find (is_at c.team_id k) (upsert c a entry n overrides) ≡ find (is_at c.team_id k) overrides
  unfolding upsert
  find-upsert_other n k overrides other = elim (Bool-cases (any (is_at c.team_id a) overrides)) [
    | inl there ↦
        rw there (find-update_at k overrides ∙ ground (arith, eq_false a k (λ e. other (sym e))))
    | inr missing ↦ rw missing (
        find-append (is_at c.team_id k) overrides (new_override c a entry n)
        ∙ elim (Option-cases (find (is_at c.team_id k) overrides)) [
          | inl absent ↦ ground (arith, absent, eq_false a k (λ e. other (sym e)))
          | inr (o, e) ↦ ground (arith, e)
        ])
  ]

  pub others-upsert :
      (n : ℕ) (overrides : List DependencyCanonicalOverride)
      → keep (not_of c.team_id) (upsert c a entry n overrides) ≡ keep (not_of c.team_id) overrides
  unfolding upsert
  others-upsert n overrides = elim (Bool-cases (any (is_at c.team_id a) overrides)) [
    | inl there ↦ rw there (others-update_at overrides)
    | inr missing ↦ rw missing (
        keep-append_out (not_of c.team_id) overrides (new_override c a entry n)
          (ground (arith, eq_refl c.team_id)))
  ]

  pub find-upsert_here :
      (n : ℕ) (overrides : List DependencyCanonicalOverride)
      → find (is_at c.team_id a) (upsert c a entry n overrides)
        ≡ elim (find (is_at c.team_id a) overrides) [
          | none ↦ some (new_override c a entry n)
          | some o ↦ some (written c entry o)
        ]
  unfolding upsert
  find-upsert_here n overrides = elim (Option-cases (find (is_at c.team_id a) overrides)) [
    | inl absent ↦
        let missing : any (is_at c.team_id a) overrides ≡ false =
          any-find (is_at c.team_id a) overrides ∙ ap is_some absent in
        rw missing (
          find-append (is_at c.team_id a) overrides (new_override c a entry n)
          ∙ ground (arith, absent, eq_refl a, eq_refl c.team_id))
    | inr (o, e) ↦
        let there : any (is_at c.team_id a) overrides ≡ true =
          any-find (is_at c.team_id a) overrides ∙ ap is_some e in
        rw there (find-update_at a overrides ∙ ground (arith, e, eq_refl a))
  ]
