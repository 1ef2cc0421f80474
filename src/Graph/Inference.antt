-- ===== src/Graph/Inference.antt =====
-- server/src/services/graph/ServiceTypeInferencer.ts. The types are counted in maps.
use depsera.Prelude.{ℕ, ◌+◌, String, Option, none, some, List, [], ◌∷◌, ltb, or_else, if◌then◌else◌}
use depsera.JsMap.{JsMap, get, set}
use depsera.Graph.Row.{DependencyWithTarget, target_of}

-- `typeCounts.set(type, (typeCounts.get(type) || 0) + 1)`
abbrev pub count_type : JsMap ℕ → String → JsMap ℕ
count_type counts type = set counts type (or_else (get counts type) 0 + 1)

unfoldable pub count_incoming_types : JsMap (JsMap ℕ) → List DependencyWithTarget → JsMap (JsMap ℕ)
count_incoming_types incoming [] = incoming
count_incoming_types incoming (d ∷ dependencies) =
    count_incoming_types
      (elim (target_of d) [
        | none ↦ incoming
        | some target ↦
            set incoming target (count_type (or_else (get incoming target) []) d.dependency.type)
      ])
      dependencies

-- The type with the highest count, the first of those that share it; `best` is what the loop holds.
unfoldable pub most_common : Option String → ℕ → JsMap ℕ → Option String
most_common best max_count [] = best
most_common best max_count ((type, count) ∷ counts) =
    if ltb max_count count
    then most_common (some type) count counts
    else most_common best max_count counts

unfoldable pub compute_dominant_types : JsMap (JsMap ℕ) → JsMap String
unfolding most_common
compute_dominant_types [] = []
compute_dominant_types ((service_id, counts) ∷ incoming) =
    (service_id, or_else (most_common none 0 counts) "other") ∷ compute_dominant_types incoming

-- `compute`
unfoldable pub infer_service_types : List DependencyWithTarget → JsMap String
unfolding count_incoming_types compute_dominant_types
infer_service_types dependencies = compute_dominant_types (count_incoming_types [] dependencies)
