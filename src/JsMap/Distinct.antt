-- ===== src/JsMap/Distinct.antt =====
-- The keys of a `Map` are distinct.
use depsera.Prelude.{
  String, ◌≡◌, ◌≢◌, sym, ap, ◌∙◌, inl, inr, none, some, [], ◌∷◌, ◌==◌, arith, eq_iff, Bool-cases,
}
use depsera.JsMap.{JsMap, get, set}
use depsera.JsMap.Laws.{get-set, get-empty}

module _ {ℓ} {V : Type ℓ} where
  abbrev pub Distinct : JsMap V → Type ℓ
  Distinct [] = Unit
  Distinct ((k, v) ∷ m) = (get m k ≡ none) × Distinct m

  pub Distinct-set : (m : JsMap V) (k : String) (v : V) → Distinct m → Distinct (set m k v)
  unfolding set
  Distinct-set [] k v d = (get-empty k, tt)
  Distinct-set ((j, w) ∷ m) k v (new, d) = elim (Bool-cases (j == k)) [
    | inl same ↦ rw same (ap (get m) (sym ((eq_iff j k).0 same)) ∙ new, d)
    | inr other ↦
        rw other (
          ground (arith, get-set m k j v, new, other, eq_iff j k, eq_iff k j),
          Distinct-set m k v d,
        )
  ]

  pub other_key : (m : JsMap V) (a k : String) (v : V) → get m a ≡ none → get m k ≡ some v → k ≢ a
  other_key m a k v absent given same = ground (arith, ap (get m) same, absent, given)
