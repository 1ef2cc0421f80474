-- ===== src/Manifest/Validator/Sections/Sound.antt =====
-- Sections that raise no error.
use Prim.Native.String.{◌++◌ as ◌^^◌}
use depsera.Prelude.{
  ℕ, suc, String, ◌≡◌, refl, sym, ap, ◌∙◌, true, false, Option, none, some, List, [], ◌∷◌, ◌==◌,
  inl, inr, arith, Option-cases, In, subst, any-false, or_else, eq_iff,
}
use depsera.JsMap.{get}
use depsera.Rows.{UniqueKeys}
use depsera.Manifest.Validator.Json.{
  Platform, Object, present, array_of, object_of, non_empty_string,
}
use depsera.Manifest.Validator.Issue.{
  Issues, no_errors, knows, no_errors-add_error, no_errors-warn_unknown_keys, warn_unknown_keys,
}
use depsera.Manifest.Validator.Service.{entry_path}
use depsera.Manifest.Validator.Sections.{
  Seen, see, refuse, enter, check_alias, check_aliases, validate_aliases, check_contact,
  check_impact, check_override, check_overrides, validate_canonical_overrides, check_references,
  check_association, check_associations, validate_associations, linked_key_error, quoted,
}

refuse_noisy : (path message : String) (st : Seen) → no_errors (refuse path message st).0 ≡ false
refuse_noisy path message (s, seen) = no_errors-add_error path message s

-- What was not seen is seen now, where no error is raised.
see_lem :
    (path message name : String) (st : Seen)
    → no_errors (see path message name st).0 ≡ true
    → (no_errors st.0 ≡ true)
      × (knows st.1 name ≡ false)
      × ((see path message name st).1 ≡ name ∷ st.1)
see_lem path message name (s, seen) h = (
  grind (arith, no_errors-add_error),
  grind (arith, no_errors-add_error),
  grind (arith, no_errors-add_error),
)

module _ (p : Platform) where
  -- An entry that raises no error is an object, whose check raises none either.
  enter_lem :
      (path message : String) (known : List String) (entry : p.Any) (st : Seen)
      (check : Object p → Seen → Seen)
      → no_errors (enter p path message known entry st check).0 ≡ true
      → (o : Object p) × (object_of p (some entry) ≡ some o)
        × (enter p path message known entry st check
            ≡ check o (warn_unknown_keys p o known path st.0, st.1))
        × (no_errors (warn_unknown_keys p o known path st.0) ≡ no_errors st.0)
  unfolding enter
  enter_lem path message known entry (s, seen) check h =
      elim (Option-cases (object_of p (some entry))) [
        | inl e ↦ absurd (grind (arith, no_errors-add_error))
        | inr (o, e) ↦ (o, e, rw (enter, e) refl, no_errors-warn_unknown_keys p o known path s)
      ]

  -- The alias that an entry gives.
  abbrev pub alias_in : p.Any → Option String
  alias_in entry = elim (object_of p (some entry)) [
    | none ↦ none
    | some o ↦ non_empty_string p (get o "alias")
  ]

  check_alias_lem :
      (path : String) (o : Object p) (st : Seen)
      → no_errors (check_alias p path o st).0 ≡ true
      → (no_errors st.0 ≡ true)
        × ((name : String) × (non_empty_string p (get o "alias") ≡ some name)
            × (knows st.1 name ≡ false)
            × ((check_alias p path o st).1 ≡ name ∷ st.1))
  unfolding check_alias
  check_alias_lem path o st h = elim (Option-cases (non_empty_string p (get o "alias"))) [
    | inl e ↦ absurd (grind (arith, refuse_noisy))
    | inr (name, e) ↦ elim (Option-cases (non_empty_string p (get o "canonical_name"))) [
      | inl missing ↦ absurd (grind (arith, refuse_noisy))
      | inr (canonical, found) ↦
          let (clean, fresh, seen) =
            see_lem (path ^^ ".alias") ("Duplicate alias " ^^ quoted name) name st
              (rw (check_alias, e, found) at h) in
          (clean, (name, e, fresh, rw (check_alias, e, found) seen))
    ]
  ]

  check_contact_quiet :
      (path : String) (o : Object p) (st : Seen)
      → no_errors (check_contact p path o st).0 ≡ true
      → no_errors st.0 ≡ true
  unfolding check_contact
  check_contact_quiet path o st h = grind (arith, refuse_noisy)

  check_impact_quiet :
      (path : String) (o : Object p) (st : Seen)
      → no_errors (check_impact p path o st).0 ≡ true
      → no_errors st.0 ≡ true
  unfolding check_impact
  check_impact_quiet path o st h = grind (arith, refuse_noisy)

  check_override_quiet :
      (path : String) (o : Object p) (st : Seen)
      → no_errors (check_override p path o st).0 ≡ true
      → no_errors st.0 ≡ true
  unfolding check_override
  check_override_quiet path o st h =
      elim (Option-cases (non_empty_string p (get o "canonical_name"))) [
        | inl e ↦ absurd (grind (arith, refuse_noisy))
        | inr (name, e) ↦ check_contact_quiet path o st (
            check_impact_quiet path o (check_contact p path o st)
              (grind (arith, refuse_noisy, no_errors-add_error)))
      ]

  check_overrides_quiet :
      (index : ℕ) (entries : List p.Any) (st : Seen)
      → no_errors (check_overrides p index entries st).0 ≡ true
      → no_errors st.0 ≡ true
  unfolding check_overrides
  check_overrides_quiet index [] st h = h
  check_overrides_quiet index (entry ∷ overrides) st h =
      let path = entry_path p "canonical_overrides" index in
      let clean = check_overrides_quiet (suc index) overrides _ h in
      let (o, e, same, warned) = enter_lem path _ _ entry st (check_override p path) clean in
      sym warned
      ∙ check_override_quiet path o _ (sym (ap (λ (x : Seen). no_errors x.0) same) ∙ clean)

  pub validate_canonical_overrides_quiet :
      (overrides : Option p.Any) (s : Issues)
      → no_errors (validate_canonical_overrides p overrides s) ≡ true
      → no_errors s ≡ true
  unfolding validate_canonical_overrides
  validate_canonical_overrides_quiet overrides s h = elim (Option-cases (present p overrides)) [
    | inl e ↦ rw (validate_canonical_overrides, e) at h
    | inr (v, e) ↦ elim (Option-cases (array_of p (some v))) [
      | inl wrong ↦ absurd (grind (arith, no_errors-add_error))
      | inr (entries, found) ↦
          check_overrides_quiet 0 entries (s, []) (rw (validate_canonical_overrides, e, found) at h)
    ]
  ]

  -- The alias of an entry, empty where it has none.
  abbrev pub alias_name : p.Any → String
  alias_name entry = or_else (alias_in entry) ""

  check_aliases_lem :
      (index : ℕ) (entries : List p.Any) (st : Seen)
      → no_errors (check_aliases p index entries st).0 ≡ true
      → (no_errors st.0 ≡ true)
        × UniqueKeys alias_name entries
        × ((entry : p.Any) → In entry entries → knows st.1 (alias_name entry) ≡ false)
  unfolding check_aliases
  check_aliases_lem index [] st h = (h, tt, λ entry i. elim i [ ])
  check_aliases_lem index (entry ∷ aliases) st h =
      let path = entry_path p "aliases" index in
      let (clean, unique, fresh) = check_aliases_lem (suc index) aliases _ h in
      let (o, e, same, warned) = enter_lem path _ _ entry st (check_alias p path) clean in
      let (quiet, (name, found, unseen, noted)) =
        check_alias_lem path o _ (sym (ap (λ (x : Seen). no_errors x.0) same) ∙ clean) in
      let named : alias_name entry ≡ name = ground (arith, e, found) in
      let later : (x : p.Any) → In x aliases → knows (name ∷ st.1) (alias_name x) ≡ false = λ x i.
        ap (λ seen. knows seen (alias_name x)) (sym (ap (λ (z : Seen). z.1) same ∙ noted))
        ∙ fresh x i in
      (
        sym warned ∙ quiet,
        (
          any-false (λ x. alias_name x == alias_name entry) aliases
              (λ x i. ground (
                arith,
                later x i,
                named,
                eq_iff name (alias_name x),
                eq_iff (alias_name x) (alias_name entry),
              )),
          unique,
        ),
        λ x i. elim i [
          | inl first ↦
              ap (λ z. knows st.1 (alias_name z)) (sym first) ∙ ap (knows st.1) named ∙ unseen
          | inr rest ↦ ground (arith, later x rest)
        ],
      )

  pub validate_aliases_lem :
      (aliases : Option p.Any) (s : Issues)
      → no_errors (validate_aliases p aliases s) ≡ true
      → (no_errors s ≡ true)
        × ((v : p.Any) (entries : List p.Any)
            → present p aliases ≡ some v
            → array_of p (some v) ≡ some entries
            → UniqueKeys alias_name entries)
  unfolding validate_aliases
  validate_aliases_lem aliases s h = elim (Option-cases (present p aliases)) [
    | inl e ↦
        (rw (validate_aliases, e) at h, λ v entries given found. absurd (ground (arith, e, given)))
    | inr (w, e) ↦ elim (Option-cases (array_of p (some w))) [
      | inl wrong ↦ absurd (grind (arith, no_errors-add_error))
      | inr (listed, read) ↦
          let (quiet, unique, fresh) =
            check_aliases_lem 0 listed (s, []) (rw (validate_aliases, e, read) at h) in
          (
            quiet,
            λ v entries given found.
                let same : listed ≡ entries = ground (arith, e, read, given, found) in
                subst (UniqueKeys alias_name) same unique,
          )
    ]
  ]

  -- The association names a service of the manifest.
  abbrev pub Refers : List String → p.Any → Type 0
  Refers service_keys entry =
      (o : Object p) × (k : String) × (object_of p (some entry) ≡ some o)
      × (non_empty_string p (get o "service_key") ≡ some k)
      × (knows service_keys k ≡ true)

  check_references_quiet :
      (path : String) (keys : List String) (o : Object p) (k d l : String) (st : Seen)
      → no_errors (check_references p path keys o k d l st).0 ≡ true
      → (no_errors st.0 ≡ true) × (knows keys k ≡ true)
  unfolding check_references
  check_references_quiet path keys o k d l (s, seen) h =
      (grind (arith, no_errors-add_error), grind (arith, no_errors-add_error))

  check_association_lem :
      (path : String) (keys : List String) (o : Object p) (st : Seen)
      → no_errors (check_association p path keys o st).0 ≡ true
      → (no_errors st.0 ≡ true)
        × ((k : String) × (non_empty_string p (get o "service_key") ≡ some k)
            × (knows keys k ≡ true))
  unfolding check_association
  check_association_lem path keys o st h =
      elim (Option-cases (non_empty_string p (get o "service_key"))) [
        | inl e ↦ absurd (grind (arith, refuse_noisy))
        | inr (k, e) ↦ elim (Option-cases (non_empty_string p (get o "dependency_name"))) [
          | inl e2 ↦ absurd (grind (arith, refuse_noisy))
          | inr (d, e2) ↦ elim (Option-cases (non_empty_string p (get o "linked_service_key"))) [
            | inl e3 ↦ absurd (grind (arith, refuse_noisy))
            | inr (l, e3) ↦ elim (Option-cases (linked_key_error p l)) [
              | inr (message, e4) ↦ absurd (grind (arith, refuse_noisy))
              | inl e4 ↦
                  let (quiet, known) =
                    check_references_quiet path keys o k d l st
                      (rw (check_association, e, e2, e3, e4) at h) in
                  (quiet, (k, e, known))
            ]
          ]
        ]
      ]

  check_associations_lem :
      (keys : List String) (index : ℕ) (entries : List p.Any) (st : Seen)
      → no_errors (check_associations p keys index entries st).0 ≡ true
      → (no_errors st.0 ≡ true) × ((entry : p.Any) → In entry entries → Refers keys entry)
  unfolding check_associations
  check_associations_lem keys index [] st h = (h, λ entry i. elim i [ ])
  check_associations_lem keys index (entry ∷ associations) st h =
      let path = entry_path p "associations" index in
      let (clean, rest) = check_associations_lem keys (suc index) associations _ h in
      let (o, e, same, warned) =
        enter_lem path _ _ entry st (check_association p path keys) clean in
      let (quiet, (k, found, known)) =
        check_association_lem path keys o _ (sym (ap (λ (x : Seen). no_errors x.0) same) ∙ clean) in
      (
        sym warned ∙ quiet,
        λ x i. elim i [
          | inl first ↦ subst (Refers keys) first (o, k, e, found, known)
          | inr later ↦ rest x later
        ],
      )

  pub validate_associations_lem :
      (associations : Option p.Any) (keys : List String) (s : Issues)
      → no_errors (validate_associations p associations keys s) ≡ true
      → (no_errors s ≡ true)
        × ((v : p.Any) (entries : List p.Any)
            → present p associations ≡ some v
            → array_of p (some v) ≡ some entries
            → (entry : p.Any) → In entry entries
            → Refers keys entry)
  unfolding validate_associations
  validate_associations_lem associations keys s h = elim (Option-cases (present p associations)) [
    | inl e ↦ (
      rw (validate_associations, e) at h,
      λ v entries given found. absurd (ground (arith, e, given)),
    )
    | inr (w, e) ↦ elim (Option-cases (array_of p (some w))) [
      | inl wrong ↦ absurd (grind (arith, no_errors-add_error))
      | inr (listed, read) ↦
          let (quiet, refers) =
            check_associations_lem keys 0 listed (s, [])
              (rw (validate_associations, e, read) at h) in
          (
            quiet,
            λ v entries given found.
                let same : listed ≡ entries = ground (arith, e, read, given, found) in
                subst (λ (xs : List p.Any). (entry : p.Any) → In entry xs → Refers keys entry) same
                  refers,
          )
    ]
  ]
