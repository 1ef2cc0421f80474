-- ===== src/Manifest/Sync/Aliases/View.antt =====
-- The aliases of a team as a function from alias to canonical name, and the rows of the others,
-- under the changes of one row.
use depsera.Prelude.{
  String, ◌≡◌, refl, sym, ap, ◌∙◌, subst, String-cases, ◌⊎◌, inl, inr, Bool, true, false, not, ◌&&◌,
  Option, none, some, List, [], ◌∷◌, keep, find, ◌==◌, arith, eq_iff, eq_refl, eq_false, Bool-cases,
  if◌then◌else◌,
}
use depsera.Rows.{has_key, UniqueKeys, update, remove}
use depsera.Rows.Laws.{has_key-of_find, update_first, update_later, remove_first}
use depsera.Manifest.Sync.Aliases.{DependencyAlias, alias_of, id_of, of_team}

abbrev pub rename : String → DependencyAlias → DependencyAlias
rename canonical r = record r { canonical_name = canonical }

-- The rows that a sync of the team may not touch.
abbrev pub of_others : String → DependencyAlias → Bool
of_others team r = not (of_team team r)

abbrev pub owns : String → String → DependencyAlias → Bool
owns team k r = (r.alias == k) && of_team team r

-- The canonical name that the team gives to an alias.
abbrev pub view : String → List DependencyAlias → String → Option String
view team rows k = elim (find (owns team k) rows) [ none ↦ none | some r ↦ some r.canonical_name ]

module _ (team : String) where
  pub find_absent :
      (k : String) (rows : List DependencyAlias)
      → has_key alias_of k rows ≡ false
      → find (owns team k) rows ≡ none
  find_absent k [] h = refl
  find_absent k (r ∷ rows) h = ground (arith, h, find_absent k rows (ground (arith, h)))

  -- What a change of the row that the team has for an alias needs.
  pub record Owned (a : String) (rows : List DependencyAlias) (e : DependencyAlias) : Type 0 where
    pub ids : UniqueKeys id_of rows
    pub aliases : UniqueKeys alias_of rows
    pub found : find (owns team a) rows ≡ some e

  -- The row is the first one, or among the others and of another identifier.
  first_or_later :
      (a : String) (r : DependencyAlias) (rows : List DependencyAlias) (e : DependencyAlias)
      → Owned a (r ∷ rows) e
      → ((r ≡ e) × (owns team a r ≡ true))
        ⊎ ((owns team a r ≡ false) × ((r.id == e.id) ≡ false) × Owned a rows e)
  first_or_later a r rows e h = elim (Bool-cases (owns team a r)) [
    | inl mine ↦ let same : r ≡ e = ground (arith, mine, h.found) in inl (same, mine)
    | inr other ↦
        let later : find (owns team a) rows ≡ some e = ground (arith, other, h.found) in
        let apart : (r.id == e.id) ≡ false = eq_false r.id e.id (λ same. ground (
          arith,
          ap (λ i. has_key id_of i rows) same,
          h.ids.0,
          has_key-of_find id_of (owns team a) rows e later,
        )) in
        inr (other, apart, record { ids = h.ids.1; aliases = h.aliases.1; found = later })
  ]

  pub find-update :
      (a k canonical : String) (rows : List DependencyAlias) (e : DependencyAlias)
      → Owned a rows e
      → find (owns team k) (update id_of e.id (rename canonical) rows)
        ≡ (if a == k then some (rename canonical e) else find (owns team k) rows)
  find-update a k canonical [] e h = ground (arith, h.found)
  find-update a k canonical (r ∷ rows) e h = elim (first_or_later a r rows e h) [
    | inl (same, mine) ↦
        subst
          (λ x.
            find (owns team k) (update id_of x.id (rename canonical) (r ∷ rows))
            ≡ (if a == k then some (rename canonical x) else find (owns team k) (r ∷ rows)))
          same
          (ap (find (owns team k)) (update_first id_of (rename canonical) r rows h.ids.0)
            ∙ ground (arith, mine, eq_iff r.alias a, eq_iff a k, eq_iff r.alias k))
    | inr (other, apart, later) ↦
        ap (find (owns team k)) (update_later id_of e.id (rename canonical) r rows apart)
        ∙ ground (
          arith,
          other,
          find-update a k canonical rows e later,
          eq_iff r.alias a,
          eq_iff a k,
          eq_iff r.alias k,
        )
  ]

  pub others-update :
      (a canonical : String) (rows : List DependencyAlias) (e : DependencyAlias)
      → Owned a rows e
      → keep (of_others team) (update id_of e.id (rename canonical) rows)
        ≡ keep (of_others team) rows
  unfolding update
  others-update a canonical [] e h = refl
  others-update a canonical (r ∷ rows) e h = elim (first_or_later a r rows e h) [
    | inl (same, mine) ↦
        subst
          (λ x.
            keep (of_others team) (update id_of x.id (rename canonical) (r ∷ rows))
            ≡ keep (of_others team) (r ∷ rows))
          same
          (ap (keep (of_others team)) (update_first id_of (rename canonical) r rows h.ids.0)
            ∙ ground (arith, mine))
    | inr (other, apart, later) ↦ rw apart (rw (others-update a canonical rows e later) refl)
  ]

  pub find-remove :
      (a k : String) (rows : List DependencyAlias) (e : DependencyAlias)
      → Owned a rows e
      → find (owns team k) (remove id_of e.id rows)
        ≡ (if a == k then none else find (owns team k) rows)
  find-remove a k [] e h = ground (arith, h.found)
  find-remove a k (r ∷ rows) e h = elim (first_or_later a r rows e h) [
    | inl (same, mine) ↦
        subst
          (λ x.
            find (owns team k) (remove id_of x.id (r ∷ rows))
            ≡ (if a == k then none else find (owns team k) (r ∷ rows)))
          same
          (ap (find (owns team k)) (remove_first id_of r rows h.ids.0) ∙ elim (String-cases a k) [
            | inl is_it ↦ ground (
              arith,
              mine,
              is_it,
              eq_iff r.alias a,
              eq_refl k,
              ap (λ i. find (owns team i) rows)
                  (sym ((eq_iff r.alias a).0 (ground (arith, mine))) ∙ refl),
              find_absent r.alias rows h.aliases.0,
            )
            | inr differs ↦
                ground (
                  arith,
                  mine,
                  eq_false a k differs,
                  eq_iff r.alias a,
                  eq_iff a k,
                  eq_iff r.alias k,
                )
          ])
    | inr (other, apart, later) ↦ rw apart (
        ground (
          arith,
          other,
          find-remove a k rows e later,
          eq_iff r.alias a,
          eq_iff a k,
          eq_iff r.alias k,
        ))
  ]

  pub others-remove :
      (a : String) (rows : List DependencyAlias) (e : DependencyAlias)
      → Owned a rows e
      → keep (of_others team) (remove id_of e.id rows) ≡ keep (of_others team) rows
  others-remove a [] e h = refl
  others-remove a (r ∷ rows) e h = elim (first_or_later a r rows e h) [
    | inl (same, mine) ↦
        subst
          (λ x.
            keep (of_others team) (remove id_of x.id (r ∷ rows)) ≡ keep (of_others team) (r ∷ rows))
          same
          (ap (keep (of_others team)) (remove_first id_of r rows h.ids.0) ∙ ground (arith, mine))
    | inr (other, apart, later) ↦ rw apart (rw (others-remove a rows e later) refl)
  ]
