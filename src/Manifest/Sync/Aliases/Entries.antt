-- ===== src/Manifest/Sync/Aliases/Entries.antt =====
-- The loop over the entries of the manifest, whose aliases are distinct keys of a `Map`.
use depsera.Prelude.{
  ℕ, String, ◌≡◌, refl, sym, ap, ◌∙◌, subst, inl, inr, false, none, some, List, [], ◌∷◌, keep, find,
  ◌==◌, arith, eq_iff, eq_refl, eq_false, Bool-cases, String-cases, if◌then◌else◌,
}
use depsera.JsMap.{JsMap, get, set}
use depsera.JsMap.Laws.{get-set}
use depsera.JsMap.Distinct.{Distinct, Distinct-set, other_key}
use depsera.Rows.{has_key, UniqueKeys}
use depsera.Manifest.Sync.Aliases.{
  DependencyAlias, AliasContext, AliasSync, alias_of, index, manifest_aliases, sync_alias,
  sync_each,
}
use depsera.Manifest.Sync.Aliases.View.{of_others, owns, view}
use depsera.Manifest.Sync.Aliases.Step.{Good, can_hold, sync_alias_lem}

pub Distinct-manifest_aliases :
    (m : JsMap String) (entries : List (String × String))
    → Distinct m
    → Distinct (manifest_aliases m entries)
unfolding manifest_aliases
Distinct-manifest_aliases m [] d = d
Distinct-manifest_aliases m ((k, v) ∷ entries) d =
    Distinct-manifest_aliases (set m k v) entries (Distinct-set m k v d)

find-none :
    (k : String) (rows : List DependencyAlias)
    → has_key alias_of k rows ≡ false
    → find (λ (r : DependencyAlias). r.alias == k) rows ≡ none
find-none k [] h = refl
find-none k (r ∷ rows) h = ground (arith, h, find-none k rows (ground (arith, h)))

pub get-index :
    (m : JsMap DependencyAlias) (rows : List DependencyAlias) (k : String)
    → UniqueKeys alias_of rows
    → get (index m rows) k ≡ elim (find (λ (r : DependencyAlias). r.alias == k) rows) [
      | none ↦ get m k
      | some r ↦ some r
    ]
unfolding index
get-index m [] k u = refl
get-index m (r ∷ rows) k (new, u) =
    get-index (set m r.alias r) rows k u ∙ elim (Bool-cases (r.alias == k)) [
      | inl same ↦
          let absent : find (λ (x : DependencyAlias). x.alias == k) rows ≡ none =
            find-none k rows
              (ap (λ i. has_key alias_of i rows) (sym ((eq_iff r.alias k).0 same)) ∙ new) in
          ground (arith, same, absent, get-set m r.alias k r)
      | inr other ↦ ground (arith, other, get-set m r.alias k r)
    ]

-- What the loop makes of the state `s`.
pub record Looped (c : AliasContext) (entries : JsMap String) (s s' : AliasSync) : Type 0 where
  pub good : Good c s'.rows s'.next
  pub same :
      (k : String)
      → get entries k ≡ none
      → find (owns c.team_id k) s'.rows ≡ find (owns c.team_id k) s.rows
  pub here :
      (k canonical : String)
      → get entries k ≡ some canonical
      → view c.team_id s'.rows k ≡ (if can_hold c s.rows k then some canonical else none)
  pub others : keep (of_others c.team_id) s'.rows ≡ keep (of_others c.team_id) s.rows

module _ (c : AliasContext) (injective : (i j : ℕ) → c.uuid i ≡ c.uuid j → i ≡ j)
    (m : JsMap DependencyAlias) where
  pub sync_each_lem :
      (s : AliasSync) (entries : JsMap String)
      → Good c s.rows s.next
      → Distinct entries
      → ((k canonical : String)
          → get entries k ≡ some canonical
          → get m k ≡ find (owns c.team_id k) s.rows)
      → Looped c entries s (sync_each c m s entries)
  unfolding sync_each get
  sync_each_lem s [] g d link = record {
    good = g;
    same = λ k h. refl;
    here = λ k x h. ground (arith, h);
    others = refl;
  }
  sync_each_lem s ((a, x) ∷ entries) g (new, d) link =
      let step = sync_alias_lem c injective m a x s g (link a x (ground (arith, eq_refl a))) in
      let rest = sync_each_lem (sync_alias c m a x s) entries step.good d (λ k y h.
        let other = other_key entries a k y new h in
        link k y (ground (arith, h, eq_false a k (λ e. other (sym e))))
        ∙ sym (step.same k other)) in
      record {
        good = rest.good;
        same = λ k h. elim (String-cases a k) [
          | inl mine ↦ ground (arith, h, mine, eq_refl k)
          | inr differs ↦
              rest.same k (ground (arith, h, eq_false a k differs))
              ∙ step.same k (λ e. differs (sym e))
        ];
        here = λ k y h. elim (String-cases a k) [
          | inl mine ↦
              let given : x ≡ y = ground (arith, h, mine, eq_refl k) in
              subst
                (λ i.
                  view c.team_id (sync_each c m s ((a, x) ∷ entries)).rows i
                  ≡ (if can_hold c s.rows i then some y else none))
                mine (ground (arith, rest.same a new, step.here, given))
          | inr differs ↦
              rest.here k y (ground (arith, h, eq_false a k differs))
              ∙ ground
                  (arith, step.same k (λ e. differs (sym e)), step.held k (λ e. differs (sym e)))
        ];
        others = rest.others ∙ step.others;
      }
