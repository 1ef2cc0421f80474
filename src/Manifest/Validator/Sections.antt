-- ===== src/Manifest/Validator/Sections.antt =====
-- The optional sections of a manifest: `validateAliases`, `validateCanonicalOverrides` and
-- `validateAssociations`. A loop carries the index, the set of what was seen, and the issues.
pub mod Sound
use Prim.Native.String.{◌++◌ as ◌^^◌}
use depsera.Prelude.{
  ℕ, suc, String, Bool, true, false, not, ◌&&◌, ◌||◌, Option, none, some, List, [], ◌∷◌, ◌==◌,
  is_some, if◌then◌else◌,
}
use depsera.JsMap.{get}
use depsera.Manifest.Validator.Json.{
  Platform, Object, present, string_of, array_of, object_of, non_empty_string, is_team_key,
  split_slash,
}
use depsera.Manifest.Validator.Issue.{Issues, add_error, knows, warn_unknown_keys}
use depsera.Manifest.Validator.Service.{entry_path}

-- The issues, and the names seen so far.
abbrev pub Seen : Type 0
Seen = Issues × List String

-- A name that was seen is an error, another is noted.
abbrev pub see : String → String → String → Seen → Seen
see path message name (s, seen) =
    if knows seen name then (add_error path message s, seen) else (s, name ∷ seen)

abbrev pub refuse : String → String → Seen → Seen
refuse path message (s, seen) = (add_error path message s, seen)

abbrev pub association_types : List String
association_types = "api_call" ∷ "database" ∷ "message_queue" ∷ "cache" ∷ "other" ∷ []

abbrev pub quoted : String → String
quoted s = "\"" ^^ (s ^^ "\"")

module _ (p : Platform) where
  -- The entry as an object, after the warnings for its unknown fields.
  unfoldable pub enter :
      String → String → List String → p.Any → Seen → (Object p → Seen → Seen) → Seen
  enter path message known entry (s, seen) check = elim (object_of p (some entry)) [
    | none ↦ refuse path message (s, seen)
    | some o ↦ check o (warn_unknown_keys p o known path s, seen)
  ]

  unfoldable pub check_alias : String → Object p → Seen → Seen
  check_alias path alias st = elim (non_empty_string p (get alias "alias")) [
    | none ↦ refuse (path ^^ ".alias") "alias is required and must be a non-empty string" st
    | some name ↦ elim (non_empty_string p (get alias "canonical_name")) [
      | none ↦
          refuse (path ^^ ".canonical_name")
            "canonical_name is required and must be a non-empty string" st
      | some _ ↦ see (path ^^ ".alias") ("Duplicate alias " ^^ quoted name) name st
    ]
  ]

  unfoldable pub check_aliases : ℕ → List p.Any → Seen → Seen
  unfolding check_alias enter
  check_aliases index [] st = st
  check_aliases index (entry ∷ aliases) st =
      let path = entry_path p "aliases" index in
      check_aliases (suc index) aliases (
        enter path "Alias entry must be an object" ("alias" ∷ "canonical_name" ∷ []) entry st
          (check_alias path))

  unfoldable pub validate_aliases : Option p.Any → Issues → Issues
  unfolding check_aliases
  validate_aliases aliases s = elim (present p aliases) [
    | none ↦ s
    | some v ↦ elim (array_of p (some v)) [
      | none ↦ add_error "aliases" "aliases must be an array" s
      | some entries ↦ (check_aliases 0 entries (s, [])).0
    ]
  ]

  -- A contact that is given must be an object, an impact a string.
  unfoldable pub check_contact : String → Object p → Seen → Seen
  check_contact path o st = elim (present p (get o "contact")) [
    | none ↦ st
    | some v ↦ elim (object_of p (some v)) [
      | none ↦ refuse (path ^^ ".contact") "contact must be an object" st
      | some _ ↦ st
    ]
  ]

  unfoldable pub check_impact : String → Object p → Seen → Seen
  check_impact path o st = elim (present p (get o "impact")) [
    | none ↦ st
    | some v ↦ elim (string_of p (some v)) [
      | none ↦ refuse (path ^^ ".impact") "impact must be a string" st
      | some _ ↦ st
    ]
  ]

  unfoldable pub check_override : String → Object p → Seen → Seen
  unfolding check_contact check_impact
  check_override path o st = elim (non_empty_string p (get o "canonical_name")) [
    | none ↦
        refuse (path ^^ ".canonical_name")
          "canonical_name is required and must be a non-empty string" st
    | some name ↦
        if not (is_some (present p (get o "contact"))) && not (is_some (present p (get o "impact")))
        then refuse path "At least one of contact or impact is required" st
        else see (path ^^ ".canonical_name") ("Duplicate canonical_name " ^^ quoted name) name
            (check_impact path o (check_contact path o st))
  ]

  unfoldable pub check_overrides : ℕ → List p.Any → Seen → Seen
  unfolding check_override enter
  check_overrides index [] st = st
  check_overrides index (entry ∷ overrides) st =
      let path = entry_path p "canonical_overrides" index in
      check_overrides (suc index) overrides (
        enter path "Canonical override entry must be an object"
          ("canonical_name" ∷ "contact" ∷ "impact" ∷ []) entry st (check_override path))

  unfoldable pub validate_canonical_overrides : Option p.Any → Issues → Issues
  unfolding check_overrides
  validate_canonical_overrides overrides s = elim (present p overrides) [
    | none ↦ s
    | some v ↦ elim (array_of p (some v)) [
      | none ↦ add_error "canonical_overrides" "canonical_overrides must be an array" s
      | some entries ↦ (check_overrides 0 entries (s, [])).0
    ]
  ]

  abbrev pub tuple_of : String → String → String → String
  tuple_of service_key dependency_name linked =
      service_key ^^ ("|" ^^ (dependency_name ^^ ("|" ^^ linked)))

  -- The message with which a linked key is refused; the regular expression refuses an empty part.
  unfoldable pub linked_key_error : String → Option String
  linked_key_error linked = elim (split_slash linked) [
    | none ↦ some "linked_service_key must be in \"team_key/service_key\" format"
    | some (team, key) ↦
        if not (is_team_key team)
        then some "linked_service_key team_key portion must match ^[a-z0-9][a-z0-9_-]*$"
        else if not (is_team_key key)
        then some "linked_service_key service_key portion must match ^[a-z0-9][a-z0-9_-]*$"
        else none
  ]

  -- The type of the association, and after it the checks that look at other entries.
  unfoldable pub check_references :
      String → List String → Object p → String → String → String → Seen → Seen
  check_references path service_keys assoc service_key dependency_name linked st =
      elim (non_empty_string p (get assoc "association_type")) [
        | none ↦
            refuse (path ^^ ".association_type")
              "association_type is required and must be a non-empty string" st
        | some type ↦
            if not (knows association_types type)
            then refuse (path ^^ ".association_type")
                "association_type must be one of: api_call, database, message_queue, cache, other"
                st
            else see path
                ("Duplicate association: service_key="
                  ^^ (quoted service_key
                      ^^ (", dependency_name="
                          ^^ (quoted dependency_name
                              ^^ (", linked_service_key=" ^^ quoted linked)))))
                (tuple_of service_key dependency_name linked)
                (if knows service_keys service_key
                  then st
                  else refuse (path ^^ ".service_key")
                      ("service_key "
                        ^^ (quoted service_key
                            ^^ " does not match any service key in the manifest"))
                      st)
      ]

  unfoldable pub check_association : String → List String → Object p → Seen → Seen
  unfolding check_references linked_key_error
  check_association path service_keys assoc st =
      elim (non_empty_string p (get assoc "service_key")) [
        | none ↦
            refuse (path ^^ ".service_key") "service_key is required and must be a non-empty string"
              st
        | some service_key ↦ elim (non_empty_string p (get assoc "dependency_name")) [
          | none ↦
              refuse (path ^^ ".dependency_name")
                "dependency_name is required and must be a non-empty string" st
          | some dependency_name ↦ elim (non_empty_string p (get assoc "linked_service_key")) [
            | none ↦
                refuse (path ^^ ".linked_service_key")
                  "linked_service_key is required and must be a non-empty string" st
            | some linked ↦ elim (linked_key_error linked) [
              | some message ↦ refuse (path ^^ ".linked_service_key") message st
              | none ↦
                  check_references path service_keys assoc service_key dependency_name linked st
            ]
          ]
        ]
      ]

  unfoldable pub check_associations : List String → ℕ → List p.Any → Seen → Seen
  unfolding check_association enter
  check_associations service_keys index [] st = st
  check_associations service_keys index (entry ∷ associations) st =
      let path = entry_path p "associations" index in
      check_associations service_keys (suc index) associations (
        enter path "Association entry must be an object"
          ("service_key" ∷ "dependency_name" ∷ "linked_service_key" ∷ "association_type" ∷ []) entry
          st (check_association path service_keys))

  unfoldable pub validate_associations : Option p.Any → List String → Issues → Issues
  unfolding check_associations
  validate_associations associations service_keys s = elim (present p associations) [
    | none ↦ s
    | some v ↦ elim (array_of p (some v)) [
      | none ↦ add_error "associations" "associations must be an array" s
      | some entries ↦ (check_associations service_keys 0 entries (s, [])).0
    ]
  ]
