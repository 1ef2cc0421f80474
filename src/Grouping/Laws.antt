-- ===== src/Grouping/Laws.antt =====
-- What a group holds.
use depsera.Prelude.{
  String, ◌≡◌, refl, sym, ◌∙◌, List, [], ◌∷◌, ◌++◌, keep, or_else, ◌==◌, String-cases, inl, inr, ap,
  eq_refl, eq_false, append_assoc, append-nil,
}
use depsera.JsMap.{JsMap, set}
use depsera.JsMap.Laws.{get-set, get-empty}
use depsera.Grouping.{group_of, group_into, group_by_key}

module _ {A : Type 0} (key : A → String) where
  group_into_lem :
      (m : JsMap (List A)) (items : List A) (k : String)
      → group_of (group_into key m items) k ≡ group_of m k ++ keep (λ x. key x == k) items
  unfolding group_into
  group_into_lem m [] k = sym (append-nil (group_of m k))
  group_into_lem m (x ∷ items) k =
      group_into_lem (set m (key x) (group_of m (key x) ++ x ∷ [])) items k
      ∙ rw (get-set m (key x) k (group_of m (key x) ++ x ∷ [])) (elim (String-cases (key x) k) [
        | inl same ↦
            rw same
              (rw (eq_refl k) (append_assoc (group_of m k) (x ∷ []) (keep (λ y. key y == k) items)))
        | inr other ↦ rw (eq_false (key x) k other) refl
      ])

  -- A group holds the items of its key, in order.
  pub group_by_key_lem :
      (items : List A) (k : String)
      → group_of (group_by_key items key) k ≡ keep (λ x. key x == k) items
  group_by_key_lem items k =
      group_into_lem [] items k
      ∙ ap (λ o. or_else o [] ++ keep (λ x. key x == k) items) (get-empty {V = List A} k)
