-- ===== src/Manifest/Validator/Service/Sound.antt =====
-- Entries that raise no error.
use Prim.Native.String.{◌++◌ as ◌^^◌}
use depsera.Prelude.{
  ℕ, ◌≤◌, String, ◌≡◌, refl, sym, ap, ◌∙◌, ◌⊎◌, true, false, Option, none, some, inl, inr, arith,
  Option-cases,
}
use depsera.JsMap.{get}
use depsera.Types.{is_otlp}
use depsera.Manifest.Validator.Json.{
  Number, natural, negative_integer, not_integer, Platform, Object, present, string_of, object_of,
  number_of, non_empty_string, is_team_key, is_valid_url,
}
use depsera.Manifest.Validator.Issue.{
  Issues, no_errors, no_errors-add_error, no_errors-warn_unknown_keys, validate_manifest_url,
  validate_manifest_url_lem, warn_unknown_keys,
}
use depsera.Manifest.Validator.Service.{
  Step, reject, check_key, check_name, check_format, check_url, check_health_endpoint,
  check_description, check_metrics_endpoint, check_poll_interval, check_schema_config, check_fields,
  validate_service_entry, format_of, entry_path, known_service_fields,
}

-- Where a step leaves no error there was none, and it has not refused the entry.
abbrev Kept : Step → Step → Type 0
Kept st next = no_errors next.0 ≡ true → (no_errors st.0 ≡ true) × (next.1 ≡ st.1)

reject_noisy : (path message : String) (st : Step) → no_errors (reject path message st).0 ≡ false
reject_noisy path message (s, b) = no_errors-add_error path message s

Kept-reject : (path message : String) (st : Step) → Kept st (reject path message st)
Kept-reject path message st h = absurd (ground (arith, h, reject_noisy path message st))

module _ (p : Platform) where
  Kept-check_key : (path : String) (svc : Object p) (st : Step) → Kept st (check_key p path svc st)
  unfolding check_key
  Kept-check_key path svc st h = grind (arith, reject_noisy)

  Kept-check_name :
      (path : String) (svc : Object p) (st : Step) → Kept st (check_name p path svc st)
  unfolding check_name
  Kept-check_name path svc st h = grind (arith, reject_noisy)

  Kept-check_format :
      (path : String) (svc : Object p) (st : Step) → Kept st (check_format p path svc st)
  unfolding check_format
  Kept-check_format path svc st h = grind (arith, reject_noisy)

  Kept-check_description :
      (path : String) (svc : Object p) (st : Step) → Kept st (check_description p path svc st)
  unfolding check_description
  Kept-check_description path svc st h = grind (arith, reject_noisy)

  Kept-check_poll_interval :
      (path : String) (svc : Object p) (st : Step) → Kept st (check_poll_interval p path svc st)
  unfolding check_poll_interval
  Kept-check_poll_interval path svc st h = grind (arith, reject_noisy)

  Kept-check_schema_config :
      (path : String) (svc : Object p) (st : Step) → Kept st (check_schema_config p path svc st)
  unfolding check_schema_config
  Kept-check_schema_config path svc st h = grind (arith, reject_noisy)

  Kept-check_url :
      (value : Option p.Any) (path : String) (st : Step) → Kept st (check_url p value path st)
  unfolding check_url
  Kept-check_url value path (s, b) h = ground (arith, h, validate_manifest_url_lem p value path s)

  Kept-check_health_endpoint :
      (path : String) (svc : Object p) (st : Step) → Kept st (check_health_endpoint p path svc st)
  unfolding check_health_endpoint
  Kept-check_health_endpoint path svc st h =
      let url = Kept-check_url (get svc "health_endpoint") (path ^^ ".health_endpoint") st in
      grind (arith, reject_noisy)

  Kept-check_metrics_endpoint :
      (path : String) (svc : Object p) (st : Step) → Kept st (check_metrics_endpoint p path svc st)
  unfolding check_metrics_endpoint
  Kept-check_metrics_endpoint path svc (s, b) h =
      let url =
        validate_manifest_url_lem p (get svc "metrics_endpoint") (path ^^ ".metrics_endpoint") s in
      grind (arith, reject_noisy, no_errors-add_error)

  -- The key is a team key of at most 128 characters, an entry that is polled has a valid URL and, if
  -- an interval is given, a natural number in bounds; a push-only one has no interval but zero.
  pub record ServiceOk (svc : Object p) : Type 0 where
    pub key :
        (k : String) × (non_empty_string p (get svc "key") ≡ some k)
        × (is_team_key k ≡ true)
        × (p.utf16_length k ≤ 128)
    pub named : (n : String) × (non_empty_string p (get svc "name") ≡ some n)
    pub endpoint :
        is_otlp (format_of p svc) ≡ false
        → (url : String) × (string_of p (get svc "health_endpoint") ≡ some url)
          × (is_valid_url p url ≡ true)
    pub interval :
        (v : p.Any)
        → is_otlp (format_of p svc) ≡ false
        → present p (get svc "poll_interval_ms") ≡ some v
        → (n : ℕ) × (number_of p (some v) ≡ some (natural n)) × (5000 ≤ n) × (n ≤ 3600000)
    pub no_interval :
        (v : p.Any)
        → is_otlp (format_of p svc) ≡ true
        → present p (get svc "poll_interval_ms") ≡ some v
        → number_of p (some v) ≡ some (natural 0)

  key_ok :
      (path : String) (svc : Object p) (st : Step)
      → no_errors (check_key p path svc st).0 ≡ true
      → (k : String) × (non_empty_string p (get svc "key") ≡ some k)
        × (is_team_key k ≡ true)
        × (p.utf16_length k ≤ 128)
  unfolding check_key
  key_ok path svc st h = elim (Option-cases (non_empty_string p (get svc "key"))) [
    | inl e ↦ absurd (grind (arith, reject_noisy))
    | inr (k, e) ↦ (k, e, grind (arith, reject_noisy), grind (arith, reject_noisy))
  ]

  string_of_non_empty :
      (v : Option p.Any) (s : String) → non_empty_string p v ≡ some s → string_of p v ≡ some s
  unfolding non_empty_string
  string_of_non_empty v s h = ground (arith, h)

  url_ok :
      (value : Option p.Any) (path : String) (st : Step)
      → no_errors (check_url p value path st).0 ≡ true
      → (url : String) × (string_of p value ≡ some url) × (is_valid_url p url ≡ true)
  unfolding check_url validate_manifest_url
  url_ok value path (s, b) h = elim (Option-cases (string_of p value)) [
    | inl e ↦ absurd (grind (arith, no_errors-add_error))
    | inr (url, e) ↦ (url, e, grind (arith, no_errors-add_error))
  ]

  endpoint_ok :
      (path : String) (svc : Object p) (st : Step)
      → no_errors (check_health_endpoint p path svc st).0 ≡ true
      → is_otlp (format_of p svc) ≡ false
      → (url : String) × (string_of p (get svc "health_endpoint") ≡ some url)
        × (is_valid_url p url ≡ true)
  unfolding check_health_endpoint
  endpoint_ok path svc st h polled =
      url_ok (get svc "health_endpoint") (path ^^ ".health_endpoint") st
        (grind (arith, reject_noisy))

  name_ok :
      (path : String) (svc : Object p) (st : Step)
      → no_errors (check_name p path svc st).0 ≡ true
      → (n : String) × (non_empty_string p (get svc "name") ≡ some n)
  unfolding check_name
  name_ok path svc st h = elim (Option-cases (non_empty_string p (get svc "name"))) [
    | inl e ↦ absurd (grind (arith, reject_noisy))
    | inr (n, e) ↦ (n, e)
  ]

  Number-cases :
      (o : Option Number)
      → ((n : ℕ) × (o ≡ some (natural n)))
        ⊎ ((o ≡ none) ⊎ ((o ≡ some negative_integer) ⊎ (o ≡ some not_integer)))
  Number-cases none = inr (inl refl)
  Number-cases (some (natural n)) = inl (n, refl)
  Number-cases (some negative_integer) = inr (inr (inl refl))
  Number-cases (some not_integer) = inr (inr (inr refl))

  interval_ok :
      (path : String) (svc : Object p) (st : Step) (v : p.Any)
      → no_errors (check_poll_interval p path svc st).0 ≡ true
      → is_otlp (format_of p svc) ≡ false
      → present p (get svc "poll_interval_ms") ≡ some v
      → (n : ℕ) × (number_of p (some v) ≡ some (natural n)) × (5000 ≤ n) × (n ≤ 3600000)
  unfolding check_poll_interval
  interval_ok path svc st v h polled present_ = elim (Number-cases (number_of p (some v))) [
    | inl (n, whole) ↦ (n, whole, grind (arith, reject_noisy), grind (arith, reject_noisy))
    | inr (inl none_) ↦ absurd (grind (arith, reject_noisy))
    | inr (inr (inl negative)) ↦ absurd (grind (arith, reject_noisy))
    | inr (inr (inr fraction)) ↦ absurd (grind (arith, reject_noisy))
  ]

  no_interval_ok :
      (path : String) (svc : Object p) (st : Step) (v : p.Any)
      → no_errors (check_poll_interval p path svc st).0 ≡ true
      → is_otlp (format_of p svc) ≡ true
      → present p (get svc "poll_interval_ms") ≡ some v
      → number_of p (some v) ≡ some (natural 0)
  unfolding check_poll_interval
  no_interval_ok path svc st v h pushed present_ = elim (Number-cases (number_of p (some v))) [
    | inl (n, whole) ↦
        let zero_ : n ≡ 0 = grind (arith, reject_noisy) in whole ∙ ap (λ k. some (natural k)) zero_
    | inr (inl none_) ↦ absurd (grind (arith, reject_noisy))
    | inr (inr (inl negative)) ↦ absurd (grind (arith, reject_noisy))
    | inr (inr (inr fraction)) ↦ absurd (grind (arith, reject_noisy))
  ]

  fields_ok :
      (path : String) (svc : Object p) (st : Step)
      → no_errors (check_fields p path svc st).0 ≡ true
      → (no_errors st.0 ≡ true) × ((check_fields p path svc st).1 ≡ st.1) × ServiceOk svc
  unfolding check_fields
  fields_ok path svc st h =
      let s1 = check_key p path svc st in
      let s2 = check_name p path svc s1 in
      let s3 = check_format p path svc s2 in
      let s4 = check_health_endpoint p path svc s3 in
      let s5 = check_description p path svc s4 in
      let s6 = check_metrics_endpoint p path svc s5 in
      let s7 = check_poll_interval p path svc s6 in
      let (h7, e7) = Kept-check_schema_config path svc s7 h in
      let (h6, e6) = Kept-check_poll_interval path svc s6 h7 in
      let (h5, e5) = Kept-check_metrics_endpoint path svc s5 h6 in
      let (h4, e4) = Kept-check_description path svc s4 h5 in
      let (h3, e3) = Kept-check_health_endpoint path svc s3 h4 in
      let (h2, e2) = Kept-check_format path svc s2 h3 in
      let (h1, e1) = Kept-check_name path svc s1 h2 in
      let (h0, e0) = Kept-check_key path svc st h1 in
      (
        h0,
        e7 ∙ e6 ∙ e5 ∙ e4 ∙ e3 ∙ e2 ∙ e1 ∙ e0,
        record {
          key = key_ok path svc st h1;
          endpoint = endpoint_ok path svc s3 h4;
          interval = λ v. interval_ok path svc s6 v h7;
          no_interval = λ v. no_interval_ok path svc s6 v h7;
          named = name_ok path svc s1 h2;
        },
      )

  -- An entry that raises no error is counted as valid, and is an object with what `ServiceOk` says.
  pub validate_service_entry_lem :
      (entry : p.Any) (index : ℕ) (s : Issues)
      → no_errors (validate_service_entry p entry index s).0 ≡ true
      → (no_errors s ≡ true)
        × ((validate_service_entry p entry index s).1 ≡ true)
        × ((svc : Object p) × (object_of p (some entry) ≡ some svc) × ServiceOk svc)
  unfolding validate_service_entry
  validate_service_entry_lem entry index s h = elim (Option-cases (object_of p (some entry))) [
    | inl e ↦ absurd (grind (arith, no_errors-add_error))
    | inr (svc, e) ↦
        let path = entry_path p "services" index in
        let start : Step = (warn_unknown_keys p svc known_service_fields path s, true) in
        let (clean, valid, ok) = fields_ok path svc start (rw (validate_service_entry, e) at h) in
        (
          sym (no_errors-warn_unknown_keys p svc known_service_fields path s) ∙ clean,
          rw (validate_service_entry, e) valid,
          (svc, e, ok),
        )
  ]
