-- ===== src/Manifest/Sync/Overrides/Entries.antt =====
-- The loop over the overrides of the manifest.
use depsera.Prelude.{
  String, ◌≡◌, ◌≢◌, refl, sym, ap, ◌∙◌, subst, inl, inr, Bool, true, Option, none, some, List, [],
  ◌∷◌, keep, find, nat_eq, arith, eq_iff, eq_refl, eq_false, Bool-cases, String-cases, Option-cases,
  if◌then◌else◌,
}
use depsera.JsMap.{JsMap, get, set}
use depsera.JsMap.Distinct.{Distinct, Distinct-set, other_key}
use depsera.Types.{DependencyCanonicalOverride}
use depsera.Manifest.Sync.Overrides.{
  ManifestCanonicalOverrideEntry, OverrideContext, OverrideSync, is_at, same_text, is_writable,
  contact_text, upsert, manifest_overrides, is_as_wanted, sync_override, sync_each_override,
}
use depsera.Manifest.Sync.Overrides.Rows.{
  not_of, find-upsert_other, find-upsert_here, others-upsert,
}
use depsera.Manifest.Sync.Overrides.Index.{if_managed}

-- What an override says, and whether a manifest manages it.
pub record Shown : Type 0 where
  pub contact : Option String
  pub impact : Option String
  pub is_managed : Bool

abbrev pub shown_of : DependencyCanonicalOverride → Shown
shown_of o = record {
  contact = o.contact_override;
  impact = o.impact_override;
  is_managed = nat_eq o.manifest_managed 1;
}

-- What a team overrides for a name.
abbrev pub shown : String → List DependencyCanonicalOverride → String → Option Shown
shown team overrides k = elim (find (is_at team k) overrides) [
  | none ↦ none
  | some o ↦ some (shown_of o)
]

same_text_eq : (a b : Option String) → same_text a b ≡ true → a ≡ b
same_text_eq none none h = refl
same_text_eq none (some b) h = ground (arith, h)
same_text_eq (some a) none h = ground (arith, h)
same_text_eq (some a) (some b) h = ap some ((eq_iff a b).0 h)

managed_one :
    (found : Option DependencyCanonicalOverride) (o : DependencyCanonicalOverride)
    → if_managed found ≡ some o
    → (found ≡ some o) × (nat_eq o.manifest_managed 1 ≡ true)
managed_one none o h = ground (arith, h)
managed_one (some r) o h = elim (Bool-cases (nat_eq r.manifest_managed 1)) [
  | inl managed ↦
      let same : r ≡ o = ground (arith, h, managed) in
      (
        ap some same,
        ap (λ (x : DependencyCanonicalOverride). nat_eq x.manifest_managed 1) (sym same) ∙ managed,
      )
  | inr unmanaged ↦ ground (arith, h, unmanaged)
]

module _ {Object : Type 0} where
  abbrev pub wanted : OverrideContext Object → ManifestCanonicalOverrideEntry Object → Shown
  wanted c entry = record {
    contact = contact_text c entry;
    impact = entry.impact;
    is_managed = true;
  }

  -- An entry for `a` changes nothing of other names, and nothing of other teams.
  pub record Stepped (c : OverrideContext Object) (a : String)
      (entry : ManifestCanonicalOverrideEntry Object) (s s' : OverrideSync) : Type 0 where
    pub same :
        (k : String)
        → k ≢ a
        → find (is_at c.team_id k) s'.overrides ≡ find (is_at c.team_id k) s.overrides
    pub here :
        shown c.team_id s'.overrides a
        ≡ (if is_writable c then some (wanted c entry) else shown c.team_id s.overrides a)
    pub others : keep (not_of c.team_id) s'.overrides ≡ keep (not_of c.team_id) s.overrides

  module _ (c : OverrideContext Object) (a : String) (entry : ManifestCanonicalOverrideEntry Object)
      (s s' : OverrideSync) where
    stays :
        s'.overrides ≡ s.overrides
        → shown c.team_id s.overrides a
          ≡ (if is_writable c then some (wanted c entry) else shown c.team_id s.overrides a)
        → Stepped c a entry s s'
    stays e here = record { same = λ k other. rw e refl; here = rw e here; others = rw e refl }

    upserted :
        s'.overrides ≡ upsert c a entry s.next s.overrides
        → is_writable c ≡ true
        → Stepped c a entry s s'
    upserted e writable = record {
      same = λ k other. rw e (find-upsert_other c a entry s.next k s.overrides other);
      here = rw e (elim (Option-cases (find (is_at c.team_id a) s.overrides)) [
        | inl absent ↦
            ground (arith, writable, absent, find-upsert_here c a entry s.next s.overrides)
        | inr (o, at) ↦ ground (arith, writable, at, find-upsert_here c a entry s.next s.overrides)
      ]);
      others = rw e (others-upsert c a entry s.next s.overrides);
    }

  shown_as_wanted :
      (c : OverrideContext Object) (a : String) (entry : ManifestCanonicalOverrideEntry Object)
      (overrides : List DependencyCanonicalOverride) (o : DependencyCanonicalOverride)
      → if_managed (find (is_at c.team_id a) overrides) ≡ some o
      → is_as_wanted c entry o ≡ true
      → shown c.team_id overrides a ≡ some (wanted c entry)
  shown_as_wanted c a entry overrides o got as_wanted =
      let (found, managed) = managed_one (find (is_at c.team_id a) overrides) o got in
      ground (
        arith,
        found,
        managed,
        same_text_eq o.contact_override (contact_text c entry) (ground (arith, as_wanted)),
        same_text_eq o.impact_override entry.impact (ground (arith, as_wanted)),
      )

  pub sync_override_lem :
      (c : OverrideContext Object) (m : JsMap DependencyCanonicalOverride) (a : String)
      (entry : ManifestCanonicalOverrideEntry Object) (s : OverrideSync)
      → get m a ≡ if_managed (find (is_at c.team_id a) s.overrides)
      → Stepped c a entry s (sync_override c m a entry s)
  unfolding sync_override
  sync_override_lem c m a entry s link =
      let s' = sync_override c m a entry s in
      elim (Option-cases (get m a)) [
        | inl none_managed ↦ elim (Bool-cases (is_writable c)) [
          | inl writable ↦ upserted c a entry s s' (ground (arith, none_managed, writable)) writable
          | inr refused ↦
              stays c a entry s s' (ground (arith, none_managed, refused)) (ground (arith, refused))
        ]
        | inr (o, got) ↦ elim (Bool-cases (is_as_wanted c entry o)) [
          | inl as_wanted ↦
              stays c a entry s s' (ground (arith, got, as_wanted))
                (ground (arith, shown_as_wanted c a entry s.overrides o (sym link ∙ got) as_wanted))
          | inr differs ↦ elim (Bool-cases (is_writable c)) [
            | inl writable ↦
                upserted c a entry s s' (ground (arith, got, differs, writable)) writable
            | inr refused ↦
                stays c a entry s s' (ground (arith, got, differs, refused))
                  (ground (arith, refused))
          ]
        ]
      ]

  pub Distinct-manifest_overrides :
      (m : JsMap (ManifestCanonicalOverrideEntry Object))
      (entries : List (ManifestCanonicalOverrideEntry Object))
      → Distinct m
      → Distinct (manifest_overrides m entries)
  unfolding manifest_overrides
  Distinct-manifest_overrides m [] d = d
  Distinct-manifest_overrides m (entry ∷ entries) d =
      Distinct-manifest_overrides (set m entry.canonical_name entry) entries
        (Distinct-set m entry.canonical_name entry d)

  -- What the loop makes of the state `s`.
  pub record Looped (c : OverrideContext Object)
      (entries : JsMap (ManifestCanonicalOverrideEntry Object)) (s s' : OverrideSync) : Type 0 where
    pub same :
        (k : String)
        → get entries k ≡ none
        → find (is_at c.team_id k) s'.overrides ≡ find (is_at c.team_id k) s.overrides
    pub here :
        (k : String) (entry : ManifestCanonicalOverrideEntry Object)
        → get entries k ≡ some entry
        → shown c.team_id s'.overrides k
          ≡ (if is_writable c then some (wanted c entry) else shown c.team_id s.overrides k)
    pub others : keep (not_of c.team_id) s'.overrides ≡ keep (not_of c.team_id) s.overrides

  pub sync_each_override_lem :
      (c : OverrideContext Object) (m : JsMap DependencyCanonicalOverride) (s : OverrideSync)
      (entries : JsMap (ManifestCanonicalOverrideEntry Object))
      → Distinct entries
      → ((k : String) (entry : ManifestCanonicalOverrideEntry Object)
          → get entries k ≡ some entry
          → get m k ≡ if_managed (find (is_at c.team_id k) s.overrides))
      → Looped c entries s (sync_each_override c m s entries)
  unfolding sync_each_override get
  sync_each_override_lem c m s [] d link = record {
    same = λ k h. refl;
    here = λ k x h. ground (arith, h);
    others = refl;
  }
  sync_each_override_lem c m s ((a, x) ∷ entries) (new, d) link =
      let step = sync_override_lem c m a x s (link a x (ground (arith, eq_refl a))) in
      let rest = sync_each_override_lem c m (sync_override c m a x s) entries d (λ k y h.
        let other = other_key entries a k y new h in
        link k y (ground (arith, h, eq_false a k (λ e. other (sym e))))
        ∙ ap if_managed (sym (step.same k other))) in
      record {
        same = λ k h. elim (String-cases a k) [
          | inl mine ↦ ground (arith, h, mine, eq_refl k)
          | inr differs ↦
              rest.same k (ground (arith, h, eq_false a k differs))
              ∙ step.same k (λ e. differs (sym e))
        ];
        here = λ k y h. elim (String-cases a k) [
          | inl mine ↦
              let given : x ≡ y = ground (arith, h, mine, eq_refl k) in
              subst
                (λ i.
                  shown c.team_id (sync_each_override c m s ((a, x) ∷ entries)).overrides i
                  ≡ (if is_writable c then some (wanted c y) else shown c.team_id s.overrides i))
                mine
                (subst
                  (λ e.
                    shown c.team_id (sync_each_override c m s ((a, x) ∷ entries)).overrides a
                    ≡ (if is_writable c then some (wanted c e) else shown c.team_id s.overrides a))
                  given
                  (ap (λ o. elim o [ none ↦ none | some r ↦ some (shown_of r) ]) (rest.same a new)
                    ∙ step.here))
          | inr differs ↦
              rest.here k y (ground (arith, h, eq_false a k differs))
              ∙ ap
                  (λ o.
                    if is_writable c
                    then some (wanted c y)
                    else elim o [ none ↦ none | some r ↦ some (shown_of r) ])
                  (step.same k (λ e. differs (sym e)))
        ];
        others = rest.others ∙ step.others;
      }
