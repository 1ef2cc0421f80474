-- ===== src/Manifest/Validator/Issue.antt =====
-- The issues that the validator collects, and its checks of unknown fields and of URLs.
use Prim.Native.String.{◌++◌ as ◌^^◌}
use depsera.Prelude.{
  String, ◌≡◌, refl, Bool, true, false, not, ◌&&◌, Option, none, some, List, [], ◌∷◌, ◌++◌, any,
  ◌==◌, arith, List-cases, Bool-cases, inl, inr, if◌then◌else◌,
}
use depsera.Manifest.Validator.Json.{Platform, Object, string_of, is_valid_url}

pub data ManifestValidationSeverity : Type 0 where
  error warning : ManifestValidationSeverity

pub record ManifestValidationIssue : Type 0 where
  pub severity : ManifestValidationSeverity
  pub path : String
  pub message : String

-- The two lists that every check appends to.
pub record Issues : Type 0 where
  pub errors : List ManifestValidationIssue
  pub warnings : List ManifestValidationIssue

unfoldable pub add_error : String → String → Issues → Issues
add_error path message s = record s {
  errors = s.errors ++ record { severity = error; path = path; message = message } ∷ [];
}

unfoldable pub add_warning : String → String → Issues → Issues
add_warning path message s = record s {
  warnings = s.warnings ++ record { severity = warning; path = path; message = message } ∷ [];
}

abbrev pub no_errors : Issues → Bool
no_errors s = elim s.errors [ [] ↦ true | _ ∷ _ ↦ false ]

pub no_errors-add_error :
    (path message : String) (s : Issues) → no_errors (add_error path message s) ≡ false
unfolding add_error
no_errors-add_error path message s = elim (List-cases s.errors) [
  | inl nothing ↦ rw (nothing, ◌++◌) refl
  | inr (e, errors, found) ↦ rw (found, ◌++◌) refl
]

pub no_errors-add_warning :
    (path message : String) (s : Issues) → no_errors (add_warning path message s) ≡ no_errors s
unfolding add_warning
no_errors-add_warning path message s = refl

-- `Set.has` of a set of names
abbrev pub knows : List String → String → Bool
knows known key = any (λ (k : String). k == key) known

module _ (p : Platform) where
  unfoldable pub warn_unknown_keys : Object p → List String → String → Issues → Issues
  warn_unknown_keys [] known path s = s
  warn_unknown_keys ((key, _) ∷ fields) known path s = warn_unknown_keys fields known path (
      if knows known key
      then s
      else add_warning (path ^^ ("." ^^ key)) ("Unknown field \"" ^^ (key ^^ "\"")) s)

  pub no_errors-warn_unknown_keys :
      (o : Object p) (known : List String) (path : String) (s : Issues)
      → no_errors (warn_unknown_keys o known path s) ≡ no_errors s
  unfolding warn_unknown_keys add_warning
  no_errors-warn_unknown_keys [] known path s = refl
  no_errors-warn_unknown_keys ((key, _) ∷ fields) known path s =
      let unknown = add_warning (path ^^ ("." ^^ key)) ("Unknown field \"" ^^ (key ^^ "\"")) s in
      elim (Bool-cases (knows known key)) [
        | inl e ↦ rw e (no_errors-warn_unknown_keys fields known path s)
        | inr e ↦ rw e (no_errors-warn_unknown_keys fields known path unknown)
      ]

  -- The issues, and whether the URL is accepted.
  unfoldable pub validate_manifest_url : Option p.Any → String → Issues → Issues × Bool
  validate_manifest_url value path s = elim (string_of p value) [
    | none ↦ (add_error path "Must be a non-empty string" s, false)
    | some url ↦
        if url == ""
        then (add_error path "Must be a non-empty string" s, false)
        else if not (is_valid_url p url)
        then (add_error path "Must be a valid HTTP or HTTPS URL" s, false)
        else if p.is_blocked url
        then (add_warning path "URL targets a private or internal address" s, true)
        else (s, true)
  ]

  pub validate_manifest_url_lem :
      (value : Option p.Any) (path : String) (s : Issues)
      → no_errors (validate_manifest_url value path s).0
        ≡ ((validate_manifest_url value path s).1 && no_errors s)
  unfolding validate_manifest_url
  validate_manifest_url_lem value path s = ground (
    arith,
    no_errors-add_error path "Must be a non-empty string" s,
    no_errors-add_error path "Must be a valid HTTP or HTTPS URL" s,
    no_errors-add_warning path "URL targets a private or internal address" s,
  )
