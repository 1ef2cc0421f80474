-- ===== src/Manifest/Validator/Json.antt =====
-- What the validator asks of a value that JSON.parse returned, with the helpers of
-- server/src/utils/validation.ts. The values, the URL parser, the address check and the two validators
-- of schema configurations are parameters.
use Prim.Native.Char.{Char, code}
use Prim.Native.String.{String as Text}
use depsera.Prelude.{
  ℕ, String, Bool, true, false, not, ◌&&◌, ◌||◌, Option, none, some, List, nat_eq, ltb, ◌==◌,
  if◌then◌else◌,
}
use depsera.JsMap.{JsMap}

-- A number is a natural number or not, since the validator asks for no other.
pub data Number : Type 0 where
  natural : ℕ → Number
  negative_integer not_integer : Number

pub data View (A : Type 0) : Type 0 where
  null : View A
  boolean : Bool → View A
  number : Number → View A
  text : String → View A
  array : List A → View A
  object : JsMap A → View A

-- `protocol_of` is `none` where `new URL` throws, `is_blocked` holds where `validateUrlHostname`
-- throws, and the last two give the message with which a schema configuration is refused.
pub record Platform : Type 1 where
  pub Any : Type 0
  pub view : Any → View Any
  pub to_text : Any → String
  pub show : ℕ → String
  pub trim : String → String
  pub utf16_length : String → ℕ
  pub protocol_of : String → Option String
  pub is_blocked : String → Bool
  pub schema_error : Any → Option String
  pub metric_schema_error : Any → Option String

abbrev in_range : ℕ → ℕ → ℕ → Bool
in_range low high n = not (ltb n low) && not (ltb high n)

-- `[a-z0-9]`
abbrev is_alphanumeric : Char → Bool
is_alphanumeric c = in_range 97 122 (code c) || in_range 48 57 (code c)

-- `[a-z0-9_-]`
abbrev is_key_char : Char → Bool
is_key_char c = is_alphanumeric c || nat_eq (code c) 95 || nat_eq (code c) 45

all_key_chars : String → Bool
all_key_chars Text.[] = true
all_key_chars (Text.◌∷◌ c s) = is_key_char c && all_key_chars s

-- `TEAM_KEY_REGEX.test`
unfoldable pub is_team_key : String → Bool
unfolding all_key_chars
is_team_key Text.[] = false
is_team_key (Text.◌∷◌ c s) = is_alphanumeric c && all_key_chars s

-- The text before the first slash and the text after it.
unfoldable pub split_slash : String → Option (String × String)
split_slash Text.[] = none
split_slash (Text.◌∷◌ c s) =
    let rest = split_slash s in
    if nat_eq (code c) 47
    then some (Text.[], s)
    else elim rest [ none ↦ none | some (team, key) ↦ some (Text.◌∷◌ c team, key) ]

module _ (p : Platform) where
  abbrev pub Object : Type 0
  Object = JsMap p.Any

  -- What is neither undefined nor null.
  unfoldable pub present : Option p.Any → Option p.Any
  present none = none
  present (some v) = elim (p.view v) [ null ↦ none | _ ↦ some v ]

  unfoldable pub string_of : Option p.Any → Option String
  string_of none = none
  string_of (some v) = elim (p.view v) [ text s ↦ some s | _ ↦ none ]

  unfoldable pub array_of : Option p.Any → Option (List p.Any)
  array_of none = none
  array_of (some v) = elim (p.view v) [ array vs ↦ some vs | _ ↦ none ]

  unfoldable pub object_of : Option p.Any → Option Object
  object_of none = none
  object_of (some v) = elim (p.view v) [ object o ↦ some o | _ ↦ none ]

  unfoldable pub number_of : Option p.Any → Option Number
  number_of none = none
  number_of (some v) = elim (p.view v) [ number n ↦ some n | _ ↦ none ]

  -- The string, where `isNonEmptyString` holds.
  unfoldable pub non_empty_string : Option p.Any → Option String
  non_empty_string v = elim (string_of v) [
    | none ↦ none
    | some s ↦ if p.trim s == "" then none else some s
  ]

  unfoldable pub is_valid_url : String → Bool
  is_valid_url url = elim (p.protocol_of url) [
    | none ↦ false
    | some protocol ↦ (protocol == "http:") || (protocol == "https:")
  ]
