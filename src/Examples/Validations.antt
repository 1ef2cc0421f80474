-- ===== src/Examples/Validations.antt =====
-- A manifest of two services with an alias and an association, and manifests with mistakes.
use depsera.Prelude.{
  ℕ, String, true, false, ◌≡◌, refl, none, some, List, [], ◌∷◌, map, length, ◌==◌, if◌then◌else◌,
}
use depsera.JsMap.{JsMap, get, set, keys}
use depsera.Manifest.Validator.Json.{
  natural, View, text, number, array, object, Platform, Object, array_of, object_of, is_team_key,
  split_slash,
}
use depsera.Manifest.Validator.Whole.{validate_manifest}
use depsera.Manifest.Validator.Whole.Sound.{IsManifest, validate_manifest_lem}

data Doc : Type 0 where
  word : String → Doc
  whole : ℕ → Doc
  entry : JsMap String → Doc
  entries : List (JsMap String) → Doc
  document : List (JsMap String) → List (JsMap String) → List (JsMap String) → Doc

abbrev field : String × String → String × Doc
field (k, v) = (k, word v)

abbrev view_of : Doc → View Doc
view_of (word s) = text s
view_of (whole n) = number (natural n)
view_of (entry fields) = object (map field fields)
view_of (entries list) = array (map entry list)
view_of (document services aliases associations) = object (
    ("version", whole 1)
    ∷ ("services", entries services)
    ∷ ("aliases", entries aliases)
    ∷ ("associations", entries associations)
    ∷ [])

abbrev platform : Platform
platform = record {
  Any = Doc;
  view = view_of;
  to_text = λ v. "";
  show = λ n. "";
  trim = λ s. s;
  utf16_length = λ s. 9;
  protocol_of = λ s. if s == "nowhere" then none else some "https:";
  is_blocked = λ s. false;
  schema_error = λ v. none;
  metric_schema_error = λ v. none;
}

abbrev service_entry : String → String → JsMap String
service_entry key url = ("key", key) ∷ ("name", key) ∷ ("health_endpoint", url) ∷ []

abbrev shop : Doc
shop =
    document (service_entry "shop" "https://shop" ∷ service_entry "pay-2" "https://pay" ∷ [])
      ((("alias", "pg") ∷ ("canonical_name", "PostgreSQL") ∷ []) ∷ [])
      ((("service_key", "shop")
          ∷ ("dependency_name", "pay")
          ∷ ("linked_service_key", "team/pay-2")
          ∷ ("association_type", "api_call")
          ∷ [])
        ∷ [])

shop_is_valid : (validate_manifest platform shop).valid ≡ true
unfolding validate_manifest object_of depsera.Manifest.Validator.Json.present get
    depsera.Manifest.Validator.Json.number_of array_of
    depsera.Manifest.Validator.Sections.validate_associations
    depsera.Manifest.Validator.Sections.validate_canonical_overrides
    depsera.Manifest.Validator.Sections.validate_aliases
    depsera.Manifest.Validator.Json.non_empty_string depsera.Manifest.Validator.Json.string_of
    depsera.Manifest.Validator.Issue.validate_manifest_url
    depsera.Manifest.Validator.Json.is_valid_url depsera.Manifest.Validator.Issue.add_error
    depsera.Manifest.Validator.Service.format_of is_team_key
    depsera.Manifest.Validator.Issue.warn_unknown_keys split_slash set keys
shop_is_valid = refl

-- The entry is counted as valid, and the manifest is not valid.
metrics_url_refused :
    let bad =
      document
        ((("metrics_endpoint", "nowhere") ∷ service_entry "shop" "https://shop") ∷ [])
        []
        [] in
    ((validate_manifest platform bad).valid ≡ false)
    × ((validate_manifest platform bad).valid_count ≡ 1)
unfolding validate_manifest object_of depsera.Manifest.Validator.Json.present get
    depsera.Manifest.Validator.Json.number_of array_of
    depsera.Manifest.Validator.Sections.validate_associations
    depsera.Manifest.Validator.Sections.validate_canonical_overrides
    depsera.Manifest.Validator.Sections.validate_aliases
    depsera.Manifest.Validator.Json.non_empty_string depsera.Manifest.Validator.Json.string_of
    depsera.Manifest.Validator.Issue.validate_manifest_url
    depsera.Manifest.Validator.Json.is_valid_url depsera.Manifest.Validator.Issue.add_error
    depsera.Manifest.Validator.Service.format_of is_team_key
    depsera.Manifest.Validator.Issue.warn_unknown_keys split_slash set keys
metrics_url_refused = (refl, refl)

keys_tested : (is_team_key "pay-2" ≡ true) × (is_team_key "-pay" ≡ false) × (is_team_key "" ≡ false)
unfolding is_team_key
keys_tested = (refl, refl, refl)

slash_split : (split_slash "team/pay/x" ≡ some ("team", "pay/x")) × (split_slash "team" ≡ none)
unfolding split_slash
slash_split = (refl, refl)

validate_manifest_lem_example :
    (obj : Object platform) × (services : List Doc) × (object_of platform (some shop) ≡ some obj)
    × (array_of platform (get obj "services") ≡ some services)
    × ((validate_manifest platform shop).valid_count ≡ length services)
    × IsManifest platform obj services
validate_manifest_lem_example = validate_manifest_lem platform shop shop_is_valid
