-- ===== src/Grouping.antt =====
-- server/src/utils/deduplication.ts. A property key is the function that reads the property.
pub mod Laws
use depsera.Prelude.{String, Option, none, some, List, [], ◌∷◌, ◌++◌, or_else, if◌then◌else◌}
use depsera.JsMap.{JsMap, get, set, has, values}

module _ {A : Type 0} where
  -- `map.get(key) || []`
  abbrev pub group_of : JsMap (List A) → String → List A
  group_of m k = or_else (get m k) []

  unfoldable pub group_into : (A → String) → JsMap (List A) → List A → JsMap (List A)
  group_into key m [] = m
  group_into key m (x ∷ xs) = group_into key (set m (key x) (group_of m (key x) ++ x ∷ [])) xs

  abbrev pub group_by_key : List A → (A → String) → JsMap (List A)
  group_by_key items key = group_into key [] items

  unfoldable pub see_first : (A → String) → JsMap A → List A → JsMap A
  see_first key seen [] = seen
  see_first key seen (x ∷ xs) =
      see_first key (if has seen (key x) then seen else set seen (key x) x) xs

  -- `deduplicateByKey`, and `deduplicateById` with the key id
  abbrev pub deduplicate_by_key : List A → (A → String) → List A
  deduplicate_by_key items key = values (see_first key [] items)
