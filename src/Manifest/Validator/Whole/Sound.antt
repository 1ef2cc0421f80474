-- ===== src/Manifest/Validator/Whole/Sound.antt =====
-- Manifests that are valid.
use depsera.Prelude.{
  ℕ, suc, ◌+◌, String, ◌≡◌, refl, sym, ap, ◌∙◌, true, false, Option, none, some, List, [], ◌∷◌,
  ◌==◌, inl, inr, arith, length, any, any-false, or_else, eq_iff, Bool-cases, Option-cases, In,
  subst, is_some, if◌then◌else◌,
}
use depsera.JsMap.{JsMap, get, has, keys}
use depsera.JsMap.Laws.{get-set, get-empty}
use depsera.Rows.{UniqueKeys}
use depsera.Manifest.Validator.Json.{
  Platform, Object, present, array_of, object_of, non_empty_string,
}
use depsera.Manifest.Validator.Issue.{Issues, no_errors, no_errors-add_error, add_warning}
use depsera.Manifest.Validator.Service.{validate_service_entry}
use depsera.Manifest.Validator.Service.Sound.{ServiceOk, validate_service_entry_lem}
use depsera.Manifest.Validator.Sections.{
  validate_aliases, validate_canonical_overrides, validate_associations,
}
use depsera.Manifest.Validator.Sections.Sound.{
  alias_name, validate_aliases_lem, validate_canonical_overrides_quiet, validate_associations_lem,
}
use depsera.Manifest.Validator.Whole.{
  CrossReference, see_key, see_name, cross_reference, cross_reference_checks, validate_entries,
  validate_structure, validate_manifest, no_issues,
}

module _ (p : Platform) where
  abbrev pub IsService : p.Any → Type 0
  IsService entry = (svc : Object p) × (object_of p (some entry) ≡ some svc) × ServiceOk p svc

  validate_entries_lem :
      (index : ℕ) (entries : List p.Any) (s : Issues) (n : ℕ)
      → no_errors (validate_entries p index entries (s, n)).0 ≡ true
      → (no_errors s ≡ true)
        × ((validate_entries p index entries (s, n)).1 ≡ n + length entries)
        × ((entry : p.Any) → In entry entries → IsService entry)
  unfolding validate_entries
  validate_entries_lem index [] s n h = (h, omega arith, λ entry i. elim i [ ])
  validate_entries_lem index (entry ∷ services) s n h =
      let step = validate_service_entry p entry index s in
      let (clean, counted, rest) =
        validate_entries_lem (suc index) services step.0 (if step.1 then suc n else n) h in
      let (quiet, valid, service) = validate_service_entry_lem p entry index s clean in
      (
        quiet,
        omega (arith, counted, ap (λ b. if b then suc n else n) valid),
        λ x i. elim i [ inl first ↦ subst IsService first service | inr later ↦ rest x later ],
      )

  -- The key of an entry, empty where it has none.
  abbrev pub key_in : p.Any → String
  key_in entry = elim (object_of p (some entry)) [
    | none ↦ ""
    | some svc ↦ or_else (non_empty_string p (get svc "key")) ""
  ]

  see_key_lem :
      (index : ℕ) (svc : Object p) (s : Issues) (c : CrossReference) (k : String)
      → non_empty_string p (get svc "key") ≡ some k
      → no_errors (see_key p index svc (s, c)).0 ≡ true
      → (no_errors s ≡ true)
        × (has c.seen_keys k ≡ false)
        × ((x : String)
            → has (see_key p index svc (s, c)).1.seen_keys x
              ≡ (if k == x then true else has c.seen_keys x))
  unfolding see_key
  see_key_lem index svc s c k e h = elim (Option-cases (get c.seen_keys k)) [
    | inr (prev, found) ↦ absurd (grind (arith, no_errors-add_error))
    | inl unseen ↦ (
      rw (see_key, e, unseen) at h,
      ground (arith, unseen),
      λ x. rw (see_key, e, unseen) (ground (arith, get-set c.seen_keys k x index)),
    )
  ]

  see_name_lem :
      (index : ℕ) (svc : Object p) (st : Issues × CrossReference)
      → (no_errors (see_name p index svc st).0 ≡ no_errors st.0)
        × ((see_name p index svc st).1.seen_keys ≡ st.1.seen_keys)
  unfolding see_name add_warning
  see_name_lem index svc (s, c) = (ground arith, ground arith)

  see_key_quiet :
      (index : ℕ) (svc : Object p) (st : Issues × CrossReference)
      → no_errors (see_key p index svc st).0 ≡ true
      → no_errors st.0 ≡ true
  unfolding see_key
  see_key_quiet index svc (s, c) h = grind (arith, no_errors-add_error)

  cross_reference_quiet :
      (index : ℕ) (entries : List p.Any) (st : Issues × CrossReference)
      → no_errors (cross_reference p index entries st).0 ≡ true
      → no_errors st.0 ≡ true
  unfolding cross_reference
  cross_reference_quiet index [] st h = h
  cross_reference_quiet index (entry ∷ entries) st h =
      elim (Option-cases (object_of p (some entry))) [
        | inl e ↦ cross_reference_quiet (suc index) entries st (rw (cross_reference, e) at h)
        | inr (svc, e) ↦ see_key_quiet index svc st (
            sym (see_name_lem index svc (see_key p index svc st)).0
            ∙ cross_reference_quiet (suc index) entries
                (see_name p index svc (see_key p index svc st)) (rw (cross_reference, e) at h))
      ]

  -- One service of the loop: its key was not seen, and is now.
  see_lem :
      (index : ℕ) (svc : Object p) (st : Issues × CrossReference) (k : String)
      → non_empty_string p (get svc "key") ≡ some k
      → no_errors (see_name p index svc (see_key p index svc st)).0 ≡ true
      → (no_errors st.0 ≡ true)
        × (has st.1.seen_keys k ≡ false)
        × ((x : String)
            → has (see_name p index svc (see_key p index svc st)).1.seen_keys x
              ≡ (if k == x then true else has st.1.seen_keys x))
  see_lem index svc (s, c) k e h =
      let (same, kept) = see_name_lem index svc (see_key p index svc (s, c)) in
      let (quiet, unseen, noted) = see_key_lem index svc s c k e (sym same ∙ h) in
      (quiet, unseen, λ x. ap (λ m. has m x) kept ∙ noted x)

  key_in_lem :
      (entry : p.Any) (svc : Object p) (k : String)
      → object_of p (some entry) ≡ some svc
      → non_empty_string p (get svc "key") ≡ some k
      → key_in entry ≡ k
  key_in_lem entry svc k e f = ground (arith, e, f)

  cross_reference_lem :
      (index : ℕ) (entries : List p.Any) (st : Issues × CrossReference)
      → ((entry : p.Any) → In entry entries → IsService entry)
      → no_errors (cross_reference p index entries st).0 ≡ true
      → (no_errors st.0 ≡ true)
        × UniqueKeys key_in entries
        × ((entry : p.Any) → In entry entries → has st.1.seen_keys (key_in entry) ≡ false)
        × ((x : String)
            → has (cross_reference p index entries st).1.seen_keys x ≡ true
            → has st.1.seen_keys x ≡ false
            → (entry : p.Any) × In entry entries × (key_in entry ≡ x))
  unfolding cross_reference
  cross_reference_lem index [] st services h =
      (h, tt, (λ entry i. elim i [ ]), λ x seen unseen. absurd (ground (arith, seen, unseen)))
  cross_reference_lem index (entry ∷ entries) st services h =
      let (svc, e, ok) = services entry (inl refl) in
      let (k, found, team, short) = ok.key in
      let next = see_name p index svc (see_key p index svc st) in
      let (clean, unique, fresh, origin) =
        cross_reference_lem (suc index) entries next (λ x i. services x (inr i))
          (rw (cross_reference, e) at h) in
      let (quiet, unseen, noted) = see_lem index svc st k found clean in
      let named = key_in_lem entry svc k e found in
      (
        quiet,
        (
          any-false (λ x. key_in x == key_in entry) entries
              (λ x i. ground (
                arith,
                fresh x i,
                noted (key_in x),
                named,
                eq_iff k (key_in x),
                eq_iff (key_in x) (key_in entry),
              )),
          unique,
        ),
        (λ x i. elim i [
          | inl first ↦
              ap (λ z. has st.1.seen_keys (key_in z)) (sym first)
              ∙ ap (has st.1.seen_keys) named
              ∙ unseen
          | inr later ↦ ground (arith, fresh x later, noted (key_in x))
        ]),
        λ x seen before. elim (Bool-cases (k == x)) [
          | inl same ↦ (entry, inl refl, named ∙ (eq_iff k x).0 same)
          | inr other ↦
              let (z, i, f) =
                origin x (rw (cross_reference, e) at seen)
                  (ground (arith, noted x, other, before)) in
              (z, inr i, f)
        ],
      )

  knows-keys : (m : JsMap ℕ) (k : String) → any (λ (j : String). j == k) (keys m) ≡ has m k
  unfolding get keys
  knows-keys [] k = refl
  knows-keys ((j, n) ∷ m) k = ground (arith, knows-keys m k)

  -- What a valid manifest is.
  pub record IsManifest (obj : Object p) (services : List p.Any) : Type 0 where
    pub all_services : (entry : p.Any) → In entry services → IsService entry
    pub unique_keys : UniqueKeys key_in services
    pub unique_aliases :
        (v : p.Any) (entries : List p.Any)
        → present p (get obj "aliases") ≡ some v
        → array_of p (some v) ≡ some entries
        → UniqueKeys (alias_name p) entries
    pub linked :
        (v : p.Any) (entries : List p.Any)
        → present p (get obj "associations") ≡ some v
        → array_of p (some v) ≡ some entries
        → (entry : p.Any) → In entry entries
        → (o : Object p) × (service : p.Any) × (object_of p (some entry) ≡ some o)
          × In service services
          × (non_empty_string p (get o "service_key") ≡ some (key_in service))

  structure_lem :
      (input : p.Any) (obj : Object p) (services : List p.Any)
      → (validate_structure p input no_issues).0 ≡ some (obj, services)
      → (object_of p (some input) ≡ some obj) × (array_of p (get obj "services") ≡ some services)
  unfolding validate_structure
  structure_lem input obj services h = (ground (arith, h), ground (arith, h))

  nothing_seen : (k : String) → has {V = ℕ} [] k ≡ false
  nothing_seen k = ap (λ (o : Option ℕ). is_some o) (get-empty k)

  -- The checks of the services and the sections, after that of the structure.
  sections_lem :
      (obj : Object p) (services : List p.Any) (s : Issues)
      → no_errors (
          let entered = (validate_entries p 0 services (s, 0)).0 in
          let crossed = cross_reference_checks p services entered in
          validate_associations p (get obj "associations") crossed.1 (
            validate_canonical_overrides p
              (get obj "canonical_overrides")
              (validate_aliases p (get obj "aliases") crossed.0)))
        ≡ true
      → ((validate_entries p 0 services (s, 0)).1 ≡ length services) × IsManifest obj services
  unfolding cross_reference_checks
  sections_lem obj services s h =
      let entered = validate_entries p 0 services (s, 0) in
      let start : CrossReference = record { seen_keys = []; seen_names = [] } in
      let crossed = cross_reference p 0 services (entered.0, start) in
      let aliased = validate_aliases p (get obj "aliases") crossed.0 in
      let overridden = validate_canonical_overrides p (get obj "canonical_overrides") aliased in
      let service_keys = keys crossed.1.seen_keys in
      let (quiet3, refers) =
        validate_associations_lem p (get obj "associations") service_keys overridden h in
      let quiet2 =
        validate_canonical_overrides_quiet p (get obj "canonical_overrides") aliased quiet3 in
      let (quiet1, aliases) = validate_aliases_lem p (get obj "aliases") crossed.0 quiet2 in
      let quiet0 = cross_reference_quiet 0 services (entered.0, start) quiet1 in
      let (clean, counted, all) = validate_entries_lem 0 services s 0 quiet0 in
      let (same, unique, fresh, origin) =
        cross_reference_lem 0 services (entered.0, start) all quiet1 in
      (
        omega (arith, counted),
        record {
          all_services = all;
          unique_keys = unique;
          unique_aliases = aliases;
          linked = λ v entries given found entry i.
              let (o, k, read, named, known) = refers v entries given found entry i in
              let seen = sym (knows-keys crossed.1.seen_keys k) ∙ known in
              let (service, j, f) = origin k seen (nothing_seen k) in
              (o, service, read, j, named ∙ ap some (sym f));
        },
      )

  -- A manifest that is valid is an object with a list of services, all of which are counted as valid.
  -- Each service has a name and a team key of at most 128 characters; one that is polled has a valid URL
  -- and, if an interval is given, a natural number from 5000 to 3600000 for it, and one that is push-only
  -- has no interval but zero; no two services have one key; and if they are given, no two aliases are
  -- the same, and each association names the key of one of the services.
  pub validate_manifest_lem :
      (input : p.Any)
      → (validate_manifest p input).valid ≡ true
      → (obj : Object p) × (services : List p.Any) × (object_of p (some input) ≡ some obj)
        × (array_of p (get obj "services") ≡ some services)
        × ((validate_manifest p input).valid_count ≡ length services)
        × IsManifest obj services
  unfolding validate_manifest
  validate_manifest_lem input h = elim (Option-cases (validate_structure p input no_issues).0) [
    | inl e ↦ absurd (ground (arith, e, h))
    | inr ((obj, services), e) ↦
        let (is_object, is_array) = structure_lem input obj services e in
        let (counted, ok) =
          sections_lem obj services (validate_structure p input no_issues).2
            (rw (validate_manifest, e) at h) in
        (obj, services, is_object, is_array, rw (validate_manifest, e) counted, ok)
  ]
