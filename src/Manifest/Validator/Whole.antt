-- ===== src/Manifest/Validator/Whole.antt =====
-- `validateManifest`, with `validateStructure` and `crossReferenceChecks`.
pub mod Sound
use Prim.Native.String.{◌++◌ as ◌^^◌}
use depsera.Prelude.{
  ℕ, suc, ◌+◌, String, Bool, true, false, not, ◌&&◌, Option, none, some, List, [], ◌∷◌, length,
  nat_eq, ◌==◌, is_some, if◌then◌else◌,
}
use depsera.JsMap.{JsMap, get, set, keys}
use depsera.Manifest.Validator.Json.{
  natural, Platform, Object, present, array_of, object_of, number_of, non_empty_string,
}
use depsera.Manifest.Validator.Issue.{
  ManifestValidationIssue, Issues, add_error, add_warning, no_errors, knows,
}
use depsera.Manifest.Validator.Service.{Step, entry_path, validate_service_entry}
use depsera.Manifest.Validator.Sections.{
  quoted, validate_aliases, validate_canonical_overrides, validate_associations,
}

pub record ManifestValidationResult : Type 0 where
  pub valid : Bool
  pub version : Option ℕ
  pub service_count : ℕ
  pub valid_count : ℕ
  pub errors : List ManifestValidationIssue
  pub warnings : List ManifestValidationIssue

abbrev pub known_top_level_keys : List String
known_top_level_keys =
    "version" ∷ "services" ∷ "aliases" ∷ "canonical_overrides" ∷ "associations" ∷ []

-- The keys and the names of services with the index of their first entry.
pub record CrossReference : Type 0 where
  pub seen_keys : JsMap ℕ
  pub seen_names : JsMap ℕ

abbrev pub no_issues : Issues
no_issues = record { errors = []; warnings = [] }

module _ (p : Platform) where
  unfoldable pub warn_top_level : Object p → Issues → Issues
  warn_top_level [] s = s
  warn_top_level ((key, _) ∷ fields) s = warn_top_level fields (
      if knows known_top_level_keys key
      then s
      else add_warning key ("Unknown top-level key " ^^ quoted key) s)

  abbrev pub is_one : p.Any → Bool
  is_one v = elim (number_of p (some v)) [ some (natural n) ↦ nat_eq n 1 | _ ↦ false ]

  -- The object with its services, where the structure is valid; the version it has; and the issues.
  unfoldable pub validate_structure :
      p.Any → Issues → Option (Object p × List p.Any) × Option ℕ × Issues
  unfolding warn_top_level
  validate_structure input s = elim (object_of p (some input)) [
    | none ↦ (none, none, add_error "" "Manifest must be a JSON object" s)
    | some obj ↦
        let warned = warn_top_level obj s in
        elim (present p (get obj "version")) [
          | none ↦ (none, none, add_error "version" "version is required" warned)
          | some version ↦
              if not (is_one version)
              then (
                none,
                none,
                add_error "version"
                    ("Unsupported manifest version: "
                      ^^ (p.to_text version ^^ ". Only version 1 is supported"))
                    warned,
              )
              else elim (array_of p (get obj "services")) [
                | none ↦ (
                  none,
                  some 1,
                  add_error "services" "services must be present and be an array" warned,
                )
                | some services ↦ (some (obj, services), some 1, warned)
              ]
        ]
  ]

  -- The issues, and the number of valid entries.
  unfoldable pub validate_entries : ℕ → List p.Any → Issues × ℕ → Issues × ℕ
  unfolding validate_service_entry
  validate_entries index [] st = st
  validate_entries index (entry ∷ services) (s, valid_count) =
      let (issues, entry_valid) = validate_service_entry p entry index s in
      validate_entries (suc index) services
        (issues, if entry_valid then suc valid_count else valid_count)

  unfoldable pub see_key : ℕ → Object p → Issues × CrossReference → Issues × CrossReference
  see_key index svc (s, c) = elim (non_empty_string p (get svc "key")) [
    | none ↦ (s, c)
    | some key ↦ elim (get c.seen_keys key) [
      | some prev ↦ (
        add_error (entry_path p "services" index ^^ ".key")
            ("Duplicate key "
              ^^ (quoted key ^^ (" (first seen at " ^^ (entry_path p "services" prev ^^ ")"))))
            s,
        c,
      )
      | none ↦ (s, record c { seen_keys = set c.seen_keys key index })
    ]
  ]

  unfoldable pub see_name : ℕ → Object p → Issues × CrossReference → Issues × CrossReference
  see_name index svc (s, c) = elim (non_empty_string p (get svc "name")) [
    | none ↦ (s, c)
    | some name ↦ elim (get c.seen_names name) [
      | some prev ↦ (
        add_warning (entry_path p "services" index ^^ ".name")
            ("Duplicate name "
              ^^ (quoted name ^^ (" (first seen at " ^^ (entry_path p "services" prev ^^ ")"))))
            s,
        c,
      )
      | none ↦ (s, record c { seen_names = set c.seen_names name index })
    ]
  ]

  unfoldable pub cross_reference :
      ℕ → List p.Any → Issues × CrossReference → Issues × CrossReference
  unfolding see_key see_name
  cross_reference index [] st = st
  cross_reference index (entry ∷ services) st =
      cross_reference (suc index) services (elim (object_of p (some entry)) [
        | none ↦ st
        | some svc ↦ see_name index svc (see_key index svc st)
      ])

  -- The keys in `seenKeys` are those in `validKeys`.
  unfoldable pub cross_reference_checks : List p.Any → Issues → Issues × List String
  unfolding cross_reference
  cross_reference_checks services s =
      let (issues, c) =
        cross_reference 0 services (s, record { seen_keys = []; seen_names = [] }) in
      (issues, keys c.seen_keys)

  unfoldable pub validate_manifest : p.Any → ManifestValidationResult
  unfolding validate_structure validate_entries cross_reference_checks
  validate_manifest input =
      let (structure, version, s) = validate_structure input no_issues in
      elim structure [
        | none ↦ record {
          valid = false;
          version = version;
          service_count = 0;
          valid_count = 0;
          errors = s.errors;
          warnings = s.warnings;
        }
        | some (obj, services) ↦
            let (entered, valid_count) = validate_entries 0 services (s, 0) in
            let (crossed, service_keys) = cross_reference_checks services entered in
            let final = validate_associations p (get obj "associations") service_keys (
              validate_canonical_overrides p (get obj "canonical_overrides")
                (validate_aliases p (get obj "aliases") crossed)) in
            record {
              valid = no_errors final;
              version = some 1;
              service_count = length services;
              valid_count = valid_count;
              errors = final.errors;
              warnings = final.warnings;
            }
      ]
