-- ===== src/Manifest/Sync/Aliases/Stale.antt =====
-- The removal of aliases.
use depsera.Prelude.{
  String, ◌≡◌, ◌≢◌, refl, sym, ap, ◌∙◌, inl, inr, Bool, true, not, ◌&&◌, none, some, List, [], ◌∷◌,
  keep, find, ◌==◌, arith, eq_refl, eq_false, In, In-if, is_some, Bool-cases, String-cases,
  if◌then◌else◌,
}
use depsera.JsMap.{JsMap, has}
use depsera.Rows.{has_key, UniqueKeys, remove}
use depsera.Rows.Laws.{UniqueKeys-keep, has_key-of_find}
use depsera.Manifest.Sync.Aliases.{
  DependencyAlias, AliasContext, AliasSync, alias_of, id_of, of_team, team_aliases, remove_if_stale,
  remove_stale, remove_all, delete_alias,
}
use depsera.Manifest.Sync.Aliases.View.{of_others, owns, Owned, find-remove, others-remove}

unfoldable pub delete_rows : List DependencyAlias → List DependencyAlias → List DependencyAlias
delete_rows [] rows = rows
delete_rows (d ∷ ds) rows = delete_rows ds (remove id_of d.id rows)

abbrev pub is_gone : JsMap String → DependencyAlias → Bool
is_gone manifest r = not (has manifest r.alias)

pub rows-remove_all :
    (s : AliasSync) (ds : List DependencyAlias) → (remove_all s ds).rows ≡ delete_rows ds s.rows
unfolding remove_all delete_rows
rows-remove_all s [] = refl
rows-remove_all s (d ∷ ds) = rows-remove_all (delete_alias s d) ds

rows-remove_if_stale :
    (c : AliasContext) (manifest : JsMap String) (s : AliasSync) (d : DependencyAlias)
    → (remove_if_stale c manifest s d).rows ≡ (
        if has manifest d.alias
        then s.rows
        else if c.removes
        then remove id_of d.id s.rows
        else s.rows)
unfolding remove_if_stale
rows-remove_if_stale c manifest s d = ground arith

pub rows-remove_stale :
    (c : AliasContext) (manifest : JsMap String) (s : AliasSync) (ds : List DependencyAlias)
    → (remove_stale c manifest s ds).rows
      ≡ (if c.removes then delete_rows (keep (is_gone manifest) ds) s.rows else s.rows)
unfolding remove_stale delete_rows
rows-remove_stale c manifest s [] = ground arith
rows-remove_stale c manifest s (d ∷ ds) =
    rows-remove_stale c manifest (remove_if_stale c manifest s d) ds
    ∙ rw (rows-remove_if_stale c manifest s d) (elim (Bool-cases (has manifest d.alias)) [
      | inl kept ↦ rw kept refl
      | inr gone ↦ elim (Bool-cases c.removes) [
        | inl removes ↦ rw gone (rw removes refl)
        | inr keeps ↦ rw gone (rw keeps refl)
      ]
    ])

-- A row of the team is the one that it has for the alias.
pub found_of_team :
    (team : String) (rows : List DependencyAlias) (d : DependencyAlias)
    → UniqueKeys alias_of rows
    → In d (team_aliases team rows)
    → find (owns team d.alias) rows ≡ some d
found_of_team team [] d u i = elim i [ ]
found_of_team team (r ∷ rows) d (new, u) i =
    elim (In-if d (of_team team r) r (team_aliases team rows) i) [
      | inl (mine, same) ↦
          ap (λ (x : DependencyAlias). find (owns team x.alias) (r ∷ rows)) (sym same)
          ∙ ground (arith, mine, same, eq_refl r.alias)
      | inr later ↦
          let rest = found_of_team team rows d u later in
          let differs : r.alias ≢ d.alias = λ e. ground (
            arith,
            new,
            ap (λ k. has_key alias_of k rows) e,
            has_key-of_find alias_of (owns team d.alias) rows d rest,
          ) in
          ground (arith, eq_false r.alias d.alias differs, rest)
    ]

has_key-In :
    (d : DependencyAlias) (ds : List DependencyAlias) → In d ds → has_key alias_of d.alias ds ≡ true
has_key-In d [] i = elim i [ ]
has_key-In d (r ∷ ds) (inl same) = ground (arith, ap alias_of same, eq_refl d.alias)
has_key-In d (r ∷ ds) (inr i) = ground (arith, has_key-In d ds i)

pub has_key-team_aliases :
    (team k : String) (rows : List DependencyAlias)
    → has_key alias_of k (team_aliases team rows) ≡ is_some (find (owns team k) rows)
has_key-team_aliases team k [] = refl
has_key-team_aliases team k (r ∷ rows) = ground (arith, has_key-team_aliases team k rows)

pub has_key-gone :
    (manifest : JsMap String) (k : String) (rows : List DependencyAlias)
    → has_key alias_of k (keep (is_gone manifest) rows)
      ≡ (has_key alias_of k rows && not (has manifest k))
has_key-gone manifest k [] = refl
has_key-gone manifest k (r ∷ rows) = elim (String-cases r.alias k) [
  | inl same ↦ ground (arith, has_key-gone manifest k rows, same, eq_refl k, ap (has manifest) same)
  | inr differs ↦ ground (arith, has_key-gone manifest k rows, eq_false r.alias k differs)
]

module _ (team : String) where
  pub delete_rows_lem :
      (ds rows : List DependencyAlias)
      → UniqueKeys id_of rows
      → UniqueKeys alias_of rows
      → UniqueKeys alias_of ds
      → ((d : DependencyAlias) → In d ds → find (owns team d.alias) rows ≡ some d)
      → ((k : String)
          → find (owns team k) (delete_rows ds rows)
            ≡ (if has_key alias_of k ds then none else find (owns team k) rows))
        × (keep (of_others team) (delete_rows ds rows) ≡ keep (of_others team) rows)
  unfolding delete_rows
  delete_rows_lem [] rows ids aliases u found = (λ k. refl, refl)
  delete_rows_lem (d ∷ ds) rows ids aliases (new, u) found =
      let owned : Owned team d.alias rows d = record {
        ids = ids;
        aliases = aliases;
        found = found d (inl refl);
      } in
      let rest =
        delete_rows_lem ds (remove id_of d.id rows)
          (UniqueKeys-keep id_of (λ r. not (r.id == d.id)) rows ids)
          (UniqueKeys-keep alias_of (λ r. not (r.id == d.id)) rows aliases) u
          (λ e i.
            find-remove team d.alias e.alias rows d owned
            ∙ ground (
              arith,
              found e (inr i),
              eq_false d.alias e.alias (λ same.
                  ground (arith, new, ap (λ k. has_key alias_of k ds) same, has_key-In e ds i)),
            )) in
      (
        λ k. ground (arith, rest.0 k, find-remove team d.alias k rows d owned),
        rest.1 ∙ others-remove team d.alias rows d owned,
      )
