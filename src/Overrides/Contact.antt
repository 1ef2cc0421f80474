-- ===== src/Overrides/Contact.antt =====
-- `resolveContact` of server/src/utils/overrideResolver.ts. What JSON.parse and JSON.stringify do is
-- a parameter; an object is its properties in the order of their insertion.
use depsera.Prelude.{String, Option, none, some, [], ◌∷◌, or_else}
use depsera.JsMap.{JsMap, set}
use depsera.Overrides.{truthy_text}

-- `as_object` is `none` for a value that is no object, or an array.
pub record ContactJson : Type 1 where
  pub Any : Type 0
  pub parse : String → Option Any
  pub as_object : Any → Option (JsMap Any)
  pub stringify : JsMap Any → String

module _ (json : ContactJson) where
  unfoldable pub parse_contact_json : Option String → Option (JsMap json.Any)
  parse_contact_json value = elim (truthy_text value) [
    | none ↦ none
    | some text ↦ elim (json.parse text) [ none ↦ none | some parsed ↦ json.as_object parsed ]
  ]

  -- `{ ...a, ...b }`
  unfoldable pub spread : JsMap json.Any → JsMap json.Any → JsMap json.Any
  spread a [] = a
  spread a ((k, v) ∷ b) = spread (set a k v) b

  abbrev or_empty : Option (JsMap json.Any) → JsMap json.Any
  or_empty o = or_else o []

  abbrev pub merged :
      Option (JsMap json.Any)
      → Option (JsMap json.Any)
      → Option (JsMap json.Any)
      → Option (JsMap json.Any)
  merged none none none = none
  merged polled canonical instance_ =
      some (spread (spread (spread [] (or_empty polled)) (or_empty canonical)) (or_empty instance_))

  unfoldable pub resolve_contact : Option String → Option String → Option String → Option String
  unfolding parse_contact_json spread
  resolve_contact polled canonical_override instance_override =
      elim (merged (parse_contact_json polled) (parse_contact_json canonical_override)
        (parse_contact_json instance_override)) [
          | none ↦ none
          | some object ↦ some (json.stringify object)
        ]
