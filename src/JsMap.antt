-- ===== src/JsMap.antt =====
-- JavaScript's `Map<string, V>`: an association list in insertion order. A `set` of a key that is
-- present writes in place, as the language says.
pub mod Laws
pub mod Distinct
use depsera.Prelude.{
  ℕ, String, Bool, Option, none, some, List, [], ◌∷◌, map, ◌==◌, if◌then◌else◌, is_some,
}

abbrev pub JsMap {ℓ} : Type ℓ → Type ℓ
JsMap V = List (String × V)

module _ {ℓ} {V : Type ℓ} where
  unfoldable pub get : JsMap V → String → Option V
  get [] k = none
  get ((j, v) ∷ m) k = let rest = get m k in if j == k then some v else rest

  unfoldable pub set : JsMap V → String → V → JsMap V
  set [] k v = (k, v) ∷ []
  set ((j, w) ∷ m) k v = let rest = set m k v in if j == k then (k, v) ∷ m else (j, w) ∷ rest

  unfoldable pub delete : JsMap V → String → JsMap V
  delete [] k = []
  delete ((j, w) ∷ m) k = let rest = delete m k in if j == k then rest else (j, w) ∷ rest

  abbrev pub has : JsMap V → String → Bool
  has m k = is_some (get m k)

  unfoldable pub keys : JsMap V → List String
  keys m = map (λ (e : String × V). e.0) m

  unfoldable pub values : JsMap V → List V
  values m = map (λ (e : String × V). e.1) m
