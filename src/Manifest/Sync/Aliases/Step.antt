-- ===== src/Manifest/Sync/Aliases/Step.antt =====
-- What one entry of the manifest does to the rows.
use depsera.Prelude.{
  ℕ, suc, ◌≤◌, String, ◌≡◌, ◌≢◌, refl, sym, ap, ◌∙◌, inl, inr, Bool, true, false, not, ◌&&◌, ◌||◌,
  none, some, List, [], ◌∷◌, ◌++◌, keep, find, ◌==◌, arith, eq_iff, eq_refl, eq_false, is_some,
  Bool-cases, Option-cases, if◌then◌else◌,
}
use depsera.JsMap.{JsMap, get}
use depsera.Rows.{has_key, UniqueKeys, update}
use depsera.Rows.Laws.{
  find-append, keep-append_out, has_key-append, has_key-update, UniqueKeys-append,
  UniqueKeys-update,
}
use depsera.Manifest.Sync.Aliases.{
  DependencyAlias, AliasContext, AliasSync, alias_of, id_of, new_alias, sync_alias,
  create_team_alias,
}
use depsera.Manifest.Sync.Aliases.View.{
  rename, of_others, owns, view, Owned, find-update, others-update,
}

-- What the constraints of the table keep true, and that the identifiers to come are new.
pub record Good (c : AliasContext) (rows : List DependencyAlias) (next : ℕ) : Type 0 where
  pub ids : UniqueKeys id_of rows
  pub aliases : UniqueKeys alias_of rows
  pub fresh : (j : ℕ) → next ≤ j → has_key id_of (c.uuid j) rows ≡ false

-- The team may hold an alias that it holds, and one that nobody holds if its row exists.
abbrev pub can_hold : AliasContext → List DependencyAlias → String → Bool
can_hold c rows k =
    is_some (find (owns c.team_id k) rows) || (c.team_exists && not (has_key alias_of k rows))

-- An entry for `a` changes nothing of other aliases, and nothing of other teams.
pub record Stepped (c : AliasContext) (a canonical : String) (s s' : AliasSync) : Type 0 where
  pub good : Good c s'.rows s'.next
  pub same : (k : String) → k ≢ a → find (owns c.team_id k) s'.rows ≡ find (owns c.team_id k) s.rows
  pub held : (k : String) → k ≢ a → has_key alias_of k s'.rows ≡ has_key alias_of k s.rows
  pub here : view c.team_id s'.rows a ≡ (if can_hold c s.rows a then some canonical else none)
  pub others : keep (of_others c.team_id) s'.rows ≡ keep (of_others c.team_id) s.rows

module _ (c : AliasContext) (injective : (i j : ℕ) → c.uuid i ≡ c.uuid j → i ≡ j) where
  stays :
      (a canonical : String) (s s' : AliasSync)
      → Good c s.rows s.next
      → s'.rows ≡ s.rows
      → s.next ≤ s'.next
      → view c.team_id s.rows a ≡ (if can_hold c s.rows a then some canonical else none)
      → Stepped c a canonical s s'
  stays a canonical s s' g e later here = record {
    good = record {
      ids = rw e g.ids;
      aliases = rw e g.aliases;
      fresh = λ j h. rw e (g.fresh j (omega (arith, h, later)));
    };
    same = λ k other. rw e refl;
    held = λ k other. rw e refl;
    here = rw e here;
    others = rw e refl;
  }

  renamed :
      (a canonical : String) (s s' : AliasSync) (e : DependencyAlias)
      → Good c s.rows s.next
      → find (owns c.team_id a) s.rows ≡ some e
      → s'.rows ≡ update id_of e.id (rename canonical) s.rows
      → s'.next ≡ s.next
      → Stepped c a canonical s s'
  renamed a canonical s s' e g found is next =
      let owned : Owned c.team_id a s.rows e = record {
        ids = g.ids;
        aliases = g.aliases;
        found = found;
      } in
      record {
        good = rw is (record {
          ids = UniqueKeys-update id_of e.id (rename canonical) (λ r. refl) id_of s.rows g.ids;
          aliases =
              UniqueKeys-update alias_of e.id (rename canonical) (λ r. refl) id_of s.rows g.aliases;
          fresh = λ j h.
              has_key-update id_of (c.uuid j) e.id (rename canonical) (λ r. refl) id_of s.rows
              ∙ g.fresh j (omega (arith, h, next));
        });
        same = λ k other.
            ap (find (owns c.team_id k)) is
            ∙ find-update c.team_id a k canonical s.rows e owned
            ∙ ground (arith, eq_false a k (λ x. other (sym x)));
        held = λ k other.
            ap (has_key alias_of k) is
            ∙ has_key-update alias_of k e.id (rename canonical) (λ r. refl) id_of s.rows;
        here =
            rw is (
              ground (arith, found, eq_refl a, find-update c.team_id a a canonical s.rows e owned));
        others =
            ap (keep (of_others c.team_id)) is ∙ others-update c.team_id a canonical s.rows e owned;
      }

  inserted :
      (a canonical : String) (s s' : AliasSync)
      → Good c s.rows s.next
      → find (owns c.team_id a) s.rows ≡ none
      → has_key alias_of a s.rows ≡ false
      → c.team_exists ≡ true
      → s'.rows ≡ s.rows ++ new_alias c s.next a canonical ∷ []
      → s'.next ≡ suc s.next
      → Stepped c a canonical s s'
  inserted a canonical s s' g absent free exists is next =
      let new = new_alias c s.next a canonical in
      record {
        good = rw is (record {
          ids = UniqueKeys-append id_of s.rows new g.ids (g.fresh s.next (omega arith));
          aliases = UniqueKeys-append alias_of s.rows new g.aliases free;
          fresh = λ j h.
              has_key-append id_of (c.uuid j) s.rows new
              ∙ ground (
                arith,
                g.fresh j (omega (arith, h, next)),
                eq_false (c.uuid s.next) (c.uuid j)
                    (λ x. omega (arith, injective s.next j x, h, next)),
              );
        });
        same = λ k other.
            ap (find (owns c.team_id k)) is
            ∙ find-append (owns c.team_id k) s.rows new
            ∙ elim (Option-cases (find (owns c.team_id k) s.rows)) [
              | inl none_here ↦ ground (arith, none_here, eq_false a k (λ x. other (sym x)))
              | inr (r, one) ↦ ground (arith, one)
            ];
        held = λ k other.
            ap (has_key alias_of k) is
            ∙ has_key-append alias_of k s.rows new
            ∙ ground (arith, eq_false a k (λ x. other (sym x)));
        here = rw is (
            ground (
              arith,
              find-append (owns c.team_id a) s.rows new,
              absent,
              free,
              exists,
              eq_refl a,
              eq_refl c.team_id,
            ));
        others =
            ap (keep (of_others c.team_id)) is
            ∙ keep-append_out (of_others c.team_id) s.rows new (ground (arith, eq_refl c.team_id));
      }

  pub sync_alias_lem :
      (m : JsMap DependencyAlias) (a canonical : String) (s : AliasSync)
      → Good c s.rows s.next
      → get m a ≡ find (owns c.team_id a) s.rows
      → Stepped c a canonical s (sync_alias c m a canonical s)
  unfolding sync_alias create_team_alias
  sync_alias_lem m a canonical s g link = elim (Option-cases (find (owns c.team_id a) s.rows)) [
    | inl absent ↦ elim (Bool-cases (has_key alias_of a s.rows)) [
      | inl taken ↦
          stays a canonical s (sync_alias c m a canonical s) g (ground (arith, link, absent, taken))
            (ground (arith, link, absent, taken)) (ground (arith, absent, taken))
      | inr free ↦ elim (Bool-cases c.team_exists) [
        | inl exists ↦
            inserted a canonical s (sync_alias c m a canonical s) g absent free exists
              (ground (arith, link, absent, free, exists))
              (ground (arith, link, absent, free, exists))
        | inr gone ↦
            stays a canonical s (sync_alias c m a canonical s) g
              (ground (arith, link, absent, free, gone)) (ground (arith, link, absent, free, gone))
              (ground (arith, absent, gone))
      ]
    ]
    | inr (e, found) ↦ elim (Bool-cases (e.canonical_name == canonical)) [
      | inl equal ↦
          stays a canonical s (sync_alias c m a canonical s) g (ground (arith, link, found, equal))
            (ground (arith, link, found, equal))
            (ground (arith, found, equal, eq_iff e.canonical_name canonical))
      | inr differs ↦
          renamed a canonical s (sync_alias c m a canonical s) e g found
            (ground (arith, link, found, differs)) (ground (arith, link, found, differs))
    ]
  ]
