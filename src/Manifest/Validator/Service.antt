-- ===== src/Manifest/Validator/Service.antt =====
-- `validateServiceEntry`, a step for each of its fields. A step takes the issues and whether the entry
-- is valid so far.
pub mod Sound
use Prim.Native.String.{◌++◌ as ◌^^◌}
use depsera.Prelude.{
  ℕ, String, Bool, true, false, not, ◌&&◌, ◌||◌, Option, none, some, List, [], ◌∷◌, nat_eq, ltb,
  ◌==◌, if◌then◌else◌,
}
use depsera.JsMap.{get}
use depsera.Types.{HealthEndpointFormat, default, schema, prometheus, otlp, is_otlp}
use depsera.Manifest.Validator.Json.{
  Number, natural, negative_integer, not_integer, Platform, Object, present, string_of, object_of,
  number_of, non_empty_string, is_team_key,
}
use depsera.Manifest.Validator.Issue.{Issues, add_error, warn_unknown_keys, validate_manifest_url}

abbrev pub max_key_length : ℕ
max_key_length = 128

abbrev pub min_poll_interval_ms : ℕ
min_poll_interval_ms = 5000

abbrev pub max_poll_interval_ms : ℕ
max_poll_interval_ms = 3600000

abbrev pub known_service_fields : List String
known_service_fields =
    "key" ∷ "name" ∷ "health_endpoint" ∷ "description" ∷ "metrics_endpoint" ∷ "poll_interval_ms"
    ∷ "schema_config" ∷ "health_endpoint_format" ∷ []

abbrev pub Step : Type 0
Step = Issues × Bool

abbrev pub reject : String → String → Step → Step
reject path message (s, _) = (add_error path message s, false)

unfoldable pub parse_format : String → Option HealthEndpointFormat
parse_format s =
    if s == "default"
    then some default
    else if s == "schema"
    then some schema
    else if s == "prometheus"
    then some prometheus
    else if s == "otlp"
    then some otlp
    else none

module _ (p : Platform) where
  unfoldable pub check_key : String → Object p → Step → Step
  check_key path svc st = elim (non_empty_string p (get svc "key")) [
    | none ↦ reject (path ^^ ".key") "key is required and must be a non-empty string" st
    | some key ↦
        if ltb max_key_length (p.utf16_length key)
        then reject (path ^^ ".key") "key must be at most 128 characters" st
        else if not (is_team_key key)
        then reject (path ^^ ".key")
            "key must match pattern ^[a-z0-9][a-z0-9_-]*$ (lowercase alphanumeric, hyphens, underscores)"
            st
        else st
  ]

  unfoldable pub check_name : String → Object p → Step → Step
  check_name path svc st = elim (non_empty_string p (get svc "name")) [
    | none ↦ reject (path ^^ ".name") "name is required and must be a non-empty string" st
    | some _ ↦ st
  ]

  -- The format of the field, where it is given and none of the four.
  abbrev pub given_format : p.Any → Option HealthEndpointFormat
  given_format v = elim (string_of p (some v)) [ none ↦ none | some s ↦ parse_format s ]

  -- The format by which the rest of the entry is judged.
  unfoldable pub format_of : Object p → HealthEndpointFormat
  format_of svc = elim (present p (get svc "health_endpoint_format")) [
    | none ↦ default
    | some v ↦ elim (given_format v) [ none ↦ default | some format ↦ format ]
  ]

  unfoldable pub check_format : String → Object p → Step → Step
  check_format path svc st = elim (present p (get svc "health_endpoint_format")) [
    | none ↦ st
    | some v ↦ elim (given_format v) [
      | none ↦
          reject (path ^^ ".health_endpoint_format")
            "health_endpoint_format must be one of: default, schema, prometheus, otlp" st
      | some _ ↦ st
    ]
  ]

  -- A URL that is refused makes the entry invalid.
  unfoldable pub check_url : Option p.Any → String → Step → Step
  check_url value path (s, entry_valid) =
      let (issues, accepted) = validate_manifest_url p value path s in
      (issues, accepted && entry_valid)

  abbrev pub is_empty_string : p.Any → Bool
  is_empty_string v = elim (string_of p (some v)) [ none ↦ false | some s ↦ s == "" ]

  unfoldable pub check_health_endpoint : String → Object p → Step → Step
  unfolding check_url
  check_health_endpoint path svc st =
      let value = get svc "health_endpoint" in
      if is_otlp (format_of svc)
      then elim (present p value) [
        | none ↦ st
        | some v ↦ if is_empty_string v then st else check_url value (path ^^ ".health_endpoint") st
      ]
      else elim (non_empty_string p value) [
        | none ↦
            reject (path ^^ ".health_endpoint")
              "health_endpoint is required and must be a non-empty string" st
        | some _ ↦ check_url value (path ^^ ".health_endpoint") st
      ]

  unfoldable pub check_description : String → Object p → Step → Step
  check_description path svc st = elim (present p (get svc "description")) [
    | none ↦ st
    | some v ↦ elim (string_of p (some v)) [
      | none ↦ reject (path ^^ ".description") "description must be a string" st
      | some _ ↦ st
    ]
  ]

  -- The answer of the URL check is dropped here.
  unfoldable pub check_metrics_endpoint : String → Object p → Step → Step
  check_metrics_endpoint path svc (s, entry_valid) =
      let at = path ^^ ".metrics_endpoint" in
      let value = get svc "metrics_endpoint" in
      elim (present p value) [
        | none ↦ (s, entry_valid)
        | some v ↦ elim (string_of p value) [
          | none ↦ reject at "metrics_endpoint must be a non-empty string" (s, entry_valid)
          | some url ↦
              if url == ""
              then reject at "metrics_endpoint must be a non-empty string" (s, entry_valid)
              else ((validate_manifest_url p value at s).0, entry_valid)
        ]
      ]

  -- A number that is an integer: where `isNumber` and `Number.isInteger` hold.
  abbrev pub integer_of : p.Any → Option Number
  integer_of v = elim (number_of p (some v)) [
    | none ↦ none
    | some not_integer ↦ none
    | some n ↦ some n
  ]

  abbrev pub is_zero : p.Any → Bool
  is_zero v = elim (number_of p (some v)) [ some (natural n) ↦ nat_eq n 0 | _ ↦ false ]

  abbrev pub in_bounds : Number → Bool
  in_bounds (natural n) = not (ltb n min_poll_interval_ms) && not (ltb max_poll_interval_ms n)
  in_bounds negative_integer = false
  in_bounds not_integer = false

  unfoldable pub check_poll_interval : String → Object p → Step → Step
  check_poll_interval path svc st =
      let at = path ^^ ".poll_interval_ms" in
      elim (present p (get svc "poll_interval_ms")) [
        | none ↦ st
        | some v ↦
            if is_otlp (format_of svc)
            then if is_zero v
              then st
              else reject at "poll_interval_ms must be 0 for OTLP format (push-only)" st
            else elim (integer_of v) [
              | none ↦ reject at "poll_interval_ms must be an integer" st
              | some n ↦
                  if in_bounds n
                  then st
                  else reject at "poll_interval_ms must be between 5000 and 3600000" st
            ]
      ]

  abbrev pub is_metric_format : HealthEndpointFormat → Bool
  is_metric_format prometheus = true
  is_metric_format otlp = true
  is_metric_format _ = false

  unfoldable pub check_schema_config : String → Object p → Step → Step
  check_schema_config path svc st = elim (present p (get svc "schema_config")) [
    | none ↦ st
    | some v ↦
        let refusal =
          if is_metric_format (format_of svc) then p.metric_schema_error v else p.schema_error v in
        elim refusal [ none ↦ st | some message ↦ reject (path ^^ ".schema_config") message st ]
  ]

  unfoldable pub check_fields : String → Object p → Step → Step
  unfolding check_key check_name check_format check_health_endpoint check_description
      check_metrics_endpoint check_poll_interval check_schema_config
  check_fields path svc st = check_schema_config path svc (
      check_poll_interval path svc (
        check_metrics_endpoint path svc (
          check_description path svc (
            check_health_endpoint path svc
              (check_format path svc (check_name path svc (check_key path svc st)))))))

  abbrev pub entry_path : String → ℕ → String
  entry_path section index = section ^^ ("[" ^^ (p.show index ^^ "]"))

  -- The issues, and whether the entry is valid.
  unfoldable pub validate_service_entry : p.Any → ℕ → Issues → Step
  unfolding check_fields
  validate_service_entry entry index s =
      let path = entry_path "services" index in
      elim (object_of p (some entry)) [
        | none ↦ (add_error path "Service entry must be an object" s, false)
        | some svc ↦
            check_fields path svc (warn_unknown_keys p svc known_service_fields path s, true)
      ]
