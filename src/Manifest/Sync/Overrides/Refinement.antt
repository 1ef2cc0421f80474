-- ===== src/Manifest/Sync/Overrides/Refinement.antt =====
-- The sync of overrides as a change of what a team overrides for a name.
use depsera.Prelude.{
  String, ◌≡◌, refl, ap, ◌∙◌, inl, inr, Bool, false, not, ◌&&◌, Option, none, some, List, [], ◌∷◌,
  keep, find, any, ◌==◌, arith, eq_refl, eq_false, is_some, Bool-cases, String-cases, Option-cases,
  or_else, if◌then◌else◌,
}
use depsera.JsMap.{JsMap, get, has}
use depsera.JsMap.Laws.{get-empty}
use depsera.Types.{DependencyCanonicalOverride}
use depsera.Manifest.Sync.Overrides.{
  ManifestCanonicalOverrideEntry, OverrideContext, OverrideSync, is_at, delete_by_team,
  delete_override, index_by_name, is_writable, manifest_overrides, sync_each_override,
  delete_if_stale, delete_stale, remove_team_overrides, managed_overrides, sync_canonical_overrides,
}
use depsera.Manifest.Sync.Overrides.Rows.{not_of, find-delete_by_team, others-delete_by_team}
use depsera.Manifest.Sync.Overrides.Index.{UniqueNames, if_managed, get-index_by_name, any-managed}
use depsera.Manifest.Sync.Overrides.Entries.{
  Shown, shown, wanted, Distinct-manifest_overrides, Looped, sync_each_override_lem,
}

abbrev is_named : String → DependencyCanonicalOverride → Bool
is_named k o = o.canonical_name == k

module _ {Object : Type 0} (c : OverrideContext Object) where
  -- What the manifest asks of a name, given what the team overrides and whether it may write.
  abbrev pub synced_shown :
      JsMap (ManifestCanonicalOverrideEntry Object)
      → List DependencyCanonicalOverride
      → String
      → Option Shown
  synced_shown manifest overrides k = elim (get manifest k) [
    | some entry ↦ (if is_writable c then some (wanted c entry) else shown c.team_id overrides k)
    | none ↦
        (if c.removes && is_some (if_managed (find (is_at c.team_id k) overrides))
          then none
          else shown c.team_id overrides k)
  ]

  remove_team_overrides_lem :
      (s : OverrideSync) (ds : List DependencyCanonicalOverride)
      → ((k : String)
          → find (is_at c.team_id k) (remove_team_overrides c s ds).overrides
            ≡ (if any (is_named k) ds then none else find (is_at c.team_id k) s.overrides))
        × (keep (not_of c.team_id) (remove_team_overrides c s ds).overrides
            ≡ keep (not_of c.team_id) s.overrides)
  unfolding remove_team_overrides
  remove_team_overrides_lem s [] = (λ k. refl, refl)
  remove_team_overrides_lem s (d ∷ ds) =
      let rest = remove_team_overrides_lem (delete_override c s d) ds in
      (
        λ k. ground (arith, rest.0 k, find-delete_by_team c.team_id d.canonical_name k s.overrides),
        rest.1 ∙ others-delete_by_team c.team_id d.canonical_name s.overrides,
      )

  module _ (manifest : JsMap (ManifestCanonicalOverrideEntry Object)) where
    overrides-delete_if_stale :
        (s : OverrideSync) (d : DependencyCanonicalOverride)
        → (delete_if_stale c manifest s d).overrides ≡ (
            if c.removes && not (has manifest d.canonical_name)
            then delete_by_team d.canonical_name c.team_id s.overrides
            else s.overrides)
    unfolding delete_if_stale
    overrides-delete_if_stale s d = ground arith

    delete_if_stale_lem :
        (s : OverrideSync) (d : DependencyCanonicalOverride)
        → ((k : String)
            → find (is_at c.team_id k) (delete_if_stale c manifest s d).overrides ≡ (
                if c.removes && not (has manifest k) && is_named k d
                then none
                else find (is_at c.team_id k) s.overrides))
          × (keep (not_of c.team_id) (delete_if_stale c manifest s d).overrides
              ≡ keep (not_of c.team_id) s.overrides)
    delete_if_stale_lem s d =
        rw (overrides-delete_if_stale s d)
          (elim (Bool-cases (c.removes && not (has manifest d.canonical_name))) [
            | inl stale ↦ rw stale (
              λ k.
                  find-delete_by_team c.team_id d.canonical_name k s.overrides
                  ∙ elim (String-cases d.canonical_name k) [
                    | inl same ↦ ground (arith, same, eq_refl k, stale, ap (has manifest) same)
                    | inr differs ↦ ground (arith, eq_false d.canonical_name k differs)
                  ],
              others-delete_by_team c.team_id d.canonical_name s.overrides,
            )
            | inr kept ↦ rw kept (
              λ k. elim (String-cases d.canonical_name k) [
                | inl same ↦ ground (arith, same, eq_refl k, kept, ap (has manifest) same)
                | inr differs ↦ ground (arith, eq_false d.canonical_name k differs)
              ],
              refl,
            )
          ])

    delete_stale_lem :
        (s : OverrideSync) (ds : List DependencyCanonicalOverride)
        → ((k : String)
            → find (is_at c.team_id k) (delete_stale c manifest s ds).overrides ≡ (
                if c.removes && not (has manifest k) && any (is_named k) ds
                then none
                else find (is_at c.team_id k) s.overrides))
          × (keep (not_of c.team_id) (delete_stale c manifest s ds).overrides
              ≡ keep (not_of c.team_id) s.overrides)
    unfolding delete_stale
    delete_stale_lem s [] = (λ k. ground arith, refl)
    delete_stale_lem s (d ∷ ds) =
        let rest = delete_stale_lem (delete_if_stale c manifest s d) ds in
        let step = delete_if_stale_lem s d in
        (λ k. ground (arith, rest.0 k, step.0 k), rest.1 ∙ step.1)

-- Where a team has one row for a name, a sync makes of what the team overrides what its manifest asks
-- for: if the rows of the team and of the user who is to be recorded exist, each name of the manifest
-- has the contact and impact given there last, and is managed by the manifest; otherwise it stays as
-- it is. A managed override that the manifest does not have is gone or kept, by the policy, and what
-- is not managed stays. The rows of all others stay as they are.
pub sync_canonical_overrides_lem :
    {Object : Type 0} (c : OverrideContext Object)
    (entries : List (ManifestCanonicalOverrideEntry Object)) (s : OverrideSync)
    → UniqueNames c.team_id s.overrides
    → ((k : String)
        → shown c.team_id (sync_canonical_overrides c entries s).overrides k
          ≡ synced_shown c (manifest_overrides [] entries) s.overrides k)
      × (keep (not_of c.team_id) (sync_canonical_overrides c entries s).overrides
          ≡ keep (not_of c.team_id) s.overrides)
unfolding sync_canonical_overrides manifest_overrides
sync_canonical_overrides_lem {Object} c [] s u = elim (Bool-cases c.removes) [
  | inl removes ↦
      let done = remove_team_overrides_lem c s (managed_overrides c s.overrides) in
      (
        λ k. ground (
          arith,
          removes,
          done.0 k,
          any-managed c.team_id s.overrides k u,
          get-empty {V = ManifestCanonicalOverrideEntry Object} k,
        ),
        ground (arith, removes, done.1),
      )
  | inr keeps ↦ (
    λ k. ground (arith, keeps, get-empty {V = ManifestCanonicalOverrideEntry Object} k),
    ground (arith, keeps),
  )
]
sync_canonical_overrides_lem {Object} c (entry ∷ entries) s u =
    let manifest = manifest_overrides [] (entry ∷ entries) in
    let existing = managed_overrides c s.overrides in
    let m = index_by_name [] existing in
    let looped : Looped c manifest s (sync_each_override c m s manifest) =
      sync_each_override_lem c m s manifest (Distinct-manifest_overrides [] (entry ∷ entries) tt)
        (λ k e h.
          get-index_by_name c.team_id [] s.overrides k u
          ∙ ground (arith, get-empty {V = DependencyCanonicalOverride} k)) in
    let deleted = delete_stale_lem c manifest (sync_each_override c m s manifest) existing in
    (
      λ k. elim (Option-cases (get manifest k)) [
        | inl absent ↦ ground (
          arith,
          absent,
          deleted.0 k,
          looped.same k absent,
          any-managed c.team_id s.overrides k u,
        )
        | inr (e, given) ↦ ground (arith, given, deleted.0 k, looped.here k e given)
      ],
      deleted.1 ∙ looped.others,
    )

-- Where a team has one row for a name and there is no user "system", a scheduled sync changes nothing
-- of what the team overrides for the names of its manifest.
pub scheduled_overrides_refused :
    {Object : Type 0} (c : OverrideContext Object)
    (entries : List (ManifestCanonicalOverrideEntry Object)) (s : OverrideSync) (k : String)
    (entry : ManifestCanonicalOverrideEntry Object)
    → UniqueNames c.team_id s.overrides
    → c.triggered_by ≡ none
    → c.user_exists "system" ≡ false
    → get (manifest_overrides [] entries) k ≡ some entry
    → shown c.team_id (sync_canonical_overrides c entries s).overrides k
      ≡ shown c.team_id s.overrides k
scheduled_overrides_refused c entries s k entry u scheduled no_user given = ground (
  arith,
  (sync_canonical_overrides_lem c entries s u).0 k,
  given,
  no_user,
  ap (λ by. c.user_exists (or_else by "system")) scheduled,
)
