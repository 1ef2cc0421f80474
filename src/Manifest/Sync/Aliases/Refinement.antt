-- ===== src/Manifest/Sync/Aliases/Refinement.antt =====
-- The sync of aliases as a change of the function from alias to canonical name.
use depsera.Prelude.{
  ℕ, String, ◌≡◌, refl, ◌∙◌, inl, inr, Option, none, some, List, [], ◌∷◌, keep, find, ◌==◌, arith,
  In-keep, Bool-cases, Option-cases, if◌then◌else◌,
}
use depsera.JsMap.{JsMap, get}
use depsera.JsMap.Laws.{get-empty}
use depsera.Rows.{has_key}
use depsera.Rows.Laws.{UniqueKeys-keep, find-keep}
use depsera.Manifest.Sync.Aliases.{
  DependencyAlias, AliasContext, AliasSync, alias_of, of_team, team_aliases, index,
  manifest_aliases, sync_each, remove_stale, sync_aliases,
}
use depsera.Manifest.Sync.Aliases.View.{of_others, owns, view}
use depsera.Manifest.Sync.Aliases.Step.{Good, can_hold}
use depsera.Manifest.Sync.Aliases.Entries.{
  Distinct-manifest_aliases, get-index, Looped, sync_each_lem,
}
use depsera.Manifest.Sync.Aliases.Stale.{
  delete_rows, is_gone, rows-remove_all, rows-remove_stale, found_of_team, has_key-team_aliases,
  has_key-gone, delete_rows_lem,
}

-- What the team's manifest asks of an alias, given what the team and the others hold.
abbrev pub synced_view : AliasContext → JsMap String → List DependencyAlias → String → Option String
synced_view c manifest rows k = elim (get manifest k) [
  | some canonical ↦ (if can_hold c rows k then some canonical else none)
  | none ↦ (if c.removes then none else view c.team_id rows k)
]

module _ (c : AliasContext) (injective : (i j : ℕ) → c.uuid i ≡ c.uuid j → i ≡ j) (s : AliasSync)
    (g : Good c s.rows s.next) where
  removed_all :
      let deleted = delete_rows (team_aliases c.team_id s.rows) s.rows in
      ((k : String) → find (owns c.team_id k) deleted ≡ none)
      × (keep (of_others c.team_id) deleted ≡ keep (of_others c.team_id) s.rows)
  removed_all =
      let done =
        delete_rows_lem c.team_id (team_aliases c.team_id s.rows) s.rows g.ids g.aliases
          (UniqueKeys-keep alias_of (of_team c.team_id) s.rows g.aliases)
          (λ d i. found_of_team c.team_id s.rows d g.aliases i) in
      (λ k. ground (arith, done.0 k, has_key-team_aliases c.team_id k s.rows), done.1)

  pub without_aliases :
      ((k : String) → view c.team_id (sync_aliases c [] s).rows k ≡ synced_view c [] s.rows k)
      × (keep (of_others c.team_id) (sync_aliases c [] s).rows ≡ keep (of_others c.team_id) s.rows)
  unfolding sync_aliases
  without_aliases = elim (Bool-cases c.removes) [
    | inl removes ↦ rw removes (
        rw (rows-remove_all s (team_aliases c.team_id s.rows))
          (λ k. ground (arith, removed_all.0 k, get-empty {V = String} k), removed_all.1))
    | inr keeps ↦ rw keeps (λ k. ground (arith, get-empty {V = String} k), refl)
  ]

  -- The loop over the entries, and then what the removal of stale aliases leaves.
  module _ (manifest : JsMap String) (s1 : AliasSync) (looped : Looped c manifest s s1) where
    abbrev gone : List DependencyAlias
    gone = keep (is_gone manifest) (team_aliases c.team_id s.rows)

    after_removal :
        ((k : String)
          → find (owns c.team_id k) (delete_rows gone s1.rows)
            ≡ (if has_key alias_of k gone then none else find (owns c.team_id k) s1.rows))
        × (keep (of_others c.team_id) (delete_rows gone s1.rows)
            ≡ keep (of_others c.team_id) s1.rows)
    after_removal =
        delete_rows_lem c.team_id gone s1.rows looped.good.ids looped.good.aliases
          (UniqueKeys-keep alias_of (is_gone manifest) (team_aliases c.team_id s.rows)
            (UniqueKeys-keep alias_of (of_team c.team_id) s.rows g.aliases))
          (λ d i.
            let (old, is) = In-keep d (is_gone manifest) (team_aliases c.team_id s.rows) i in
            looped.same d.alias (ground (arith, is))
            ∙ found_of_team c.team_id s.rows d g.aliases old)

    pub stale_removed :
        ((k : String)
          → view c.team_id (remove_stale c manifest s1 (team_aliases c.team_id s.rows)).rows k
            ≡ synced_view c manifest s.rows k)
        × (keep
              (of_others c.team_id)
              (remove_stale c manifest s1 (team_aliases c.team_id s.rows)).rows
            ≡ keep (of_others c.team_id) s.rows)
    stale_removed =
        rw (rows-remove_stale c manifest s1 (team_aliases c.team_id s.rows))
          (elim (Bool-cases c.removes) [
            | inl removes ↦ rw removes (
              λ k. elim (Option-cases (get manifest k)) [
                | inl absent ↦ ground (
                  arith,
                  removes,
                  absent,
                  after_removal.0 k,
                  looped.same k absent,
                  has_key-gone manifest k (team_aliases c.team_id s.rows),
                  has_key-team_aliases c.team_id k s.rows,
                )
                | inr (canonical, given) ↦ ground (
                  arith,
                  given,
                  after_removal.0 k,
                  looped.here k canonical given,
                  has_key-gone manifest k (team_aliases c.team_id s.rows),
                )
              ],
              after_removal.1 ∙ looped.others,
            )
            | inr keeps ↦ rw keeps (
              λ k. elim (Option-cases (get manifest k)) [
                | inl absent ↦ ground (arith, absent, looped.same k absent)
                | inr (canonical, given) ↦ ground (arith, given, looped.here k canonical given)
              ],
              looped.others,
            )
          ])

-- Where the identifiers drawn are new and distinct and the table keeps its constraints, a sync makes
-- of the team's aliases what its manifest asks for: an alias of the manifest has the canonical name
-- given there last, unless another holds it or the team's row is missing; an alias that the manifest
-- does not have is gone or kept, by the policy. The rows of all others stay as they are.
pub sync_aliases_lem :
    (c : AliasContext) (injective : (i j : ℕ) → c.uuid i ≡ c.uuid j → i ≡ j) (s : AliasSync)
    (entries : List (String × String))
    → Good c s.rows s.next
    → ((k : String)
        → view c.team_id (sync_aliases c entries s).rows k
          ≡ synced_view c (manifest_aliases [] entries) s.rows k)
      × (keep (of_others c.team_id) (sync_aliases c entries s).rows
          ≡ keep (of_others c.team_id) s.rows)
unfolding sync_aliases manifest_aliases
sync_aliases_lem c injective s [] g = without_aliases c injective s g
sync_aliases_lem c injective s (entry ∷ entries) g =
    let manifest = manifest_aliases [] (entry ∷ entries) in
    let existing = team_aliases c.team_id s.rows in
    stale_removed c injective s g manifest (sync_each c (index [] existing) s manifest) (
      sync_each_lem c injective (index [] existing) s manifest g
        (Distinct-manifest_aliases [] (entry ∷ entries) tt)
        (λ k canonical h.
          get-index [] existing k (UniqueKeys-keep alias_of (of_team c.team_id) s.rows g.aliases)
          ∙ ground (
            arith,
            find-keep (λ (r : DependencyAlias). r.alias == k) (of_team c.team_id) s.rows,
            get-empty {V = DependencyAlias} k,
          )))
