-- ===== src/Graph/Traverse/Ends.antt =====
-- The loop ends: each round visits an identifier that is the start or a target of a row.
use depsera.Prelude.{
  ℕ, zero, suc, ◌≤◌, ◌<◌, String, ◌≡◌, refl, ap, ◌∙◌, inl, inr, not, none, some, List, [], ◌∷◌,
  length, In, In-keep, arith, Bool-cases, Option-cases, List-cases,
}
use depsera.Graph.Row.{DependencyWithTarget, GraphRows, includes, target_of, find_by_service_ids}
use depsera.Graph.Traverse.{
  Traversal, next_frontier, unvisited_of, expand, frontier_after, traverse_upstream,
}
use depsera.Graph.Traverse.Sets.{In-unique, missing, missing-falls}

-- The targets of rows.
abbrev pub targets : List DependencyWithTarget → List String
targets [] = []
targets (d ∷ dependencies) =
    let rest = targets dependencies in
    elim (target_of d) [ none ↦ rest | some target ↦ target ∷ rest ]

pub length-targets :
    (dependencies : List DependencyWithTarget) → length (targets dependencies) ≤ length dependencies
length-targets [] = omega arith
length-targets (d ∷ dependencies) = elim (Option-cases (target_of d)) [
  | inl none_ ↦ rw (none_, length) (omega (arith, length-targets dependencies))
  | inr (t, e) ↦ rw (e, length) (omega (arith, length-targets dependencies))
]

pub In-next_frontier :
    (visited : List String) (dependencies : List DependencyWithTarget) (v : String)
    → In v (next_frontier visited dependencies)
    → (d : DependencyWithTarget) × In d dependencies × (target_of d ≡ some v)
unfolding next_frontier
In-next_frontier visited [] v i = elim i [ ]
In-next_frontier visited (d ∷ dependencies) v i = elim (Option-cases (target_of d)) [
  | inl none_ ↦
      let (r, j, e) = In-next_frontier visited dependencies v (rw (none_, In) at i) in (r, inr j, e)
  | inr (target, found) ↦ elim (Bool-cases (includes visited target)) [
    | inl seen ↦
        let (r, j, e) = In-next_frontier visited dependencies v (rw (found, seen, In) at i) in
        (r, inr j, e)
    | inr unseen ↦ elim (rw (found, unseen, In) at i) [
      | inl same ↦ (d, inl refl, found ∙ ap some same)
      | inr later ↦ let (r, j, e) = In-next_frontier visited dependencies v later in (r, inr j, e)
    ]
  ]
]

In-targets :
    (d : DependencyWithTarget) (dependencies : List DependencyWithTarget) (v : String)
    → In d dependencies
    → target_of d ≡ some v
    → In v (targets dependencies)
In-targets d [] v i e = elim i [ ]
In-targets d (r ∷ dependencies) v (inl same) e = rw (ap target_of same ∙ e, In) (inl refl)
In-targets d (r ∷ dependencies) v (inr i) e = elim (Option-cases (target_of r)) [
  | inl none_ ↦ rw (none_, In) (In-targets d dependencies v i e)
  | inr (t, h) ↦ rw (h, In) (inr (In-targets d dependencies v i e))
]

pub traverse_exits :
    (rows : GraphRows) (fuel : ℕ) (t : Traversal) (frontier : List String)
    → unvisited_of t frontier ≡ []
    → traverse_upstream rows fuel t frontier ≡ some t
unfolding traverse_upstream
traverse_exits rows zero t frontier done = ground (arith, done)
traverse_exits rows (suc fuel) t frontier done = ground (arith, done)

pub traverse_out :
    (rows : GraphRows) (t : Traversal) (frontier ids : List String) (id : String)
    → unvisited_of t frontier ≡ id ∷ ids
    → traverse_upstream rows zero t frontier ≡ none
unfolding traverse_upstream
traverse_out rows t frontier ids id e = ground (arith, e)

pub traverse_round :
    (rows : GraphRows) (fuel : ℕ) (t : Traversal) (frontier ids : List String) (id : String)
    → unvisited_of t frontier ≡ id ∷ ids
    → traverse_upstream rows (suc fuel) t frontier
      ≡ traverse_upstream rows fuel
          (expand rows t (unvisited_of t frontier))
          (frontier_after rows t (unvisited_of t frontier))
unfolding traverse_upstream
traverse_round rows fuel t frontier ids id e = rw (traverse_upstream, e) refl

module _ (rows : GraphRows) (universe : List String)
    (closed : (v : String) → In v (targets rows.dependencies) → In v universe) where
  next_inside :
      (t : Traversal) (unvisited : List String) (v : String)
      → In v (frontier_after rows t unvisited)
      → In v universe
  unfolding find_by_service_ids
  next_inside t unvisited v i =
      let (d, j, e) = In-next_frontier _ (find_by_service_ids unvisited rows) v (In-unique v _ i) in
      closed v (In-targets d rows.dependencies v (In-keep d _ rows.dependencies j).0 e)

  -- A round makes fewer of the universe missing.
  falls :
      (t : Traversal) (frontier ids : List String) (id : String)
      → ((v : String) → In v frontier → In v universe)
      → unvisited_of t frontier ≡ id ∷ ids
      → missing universe (expand rows t (unvisited_of t frontier)).visited_services
        < missing universe t.visited_services
  unfolding expand
  falls t frontier ids id inside e =
      let (in_frontier, new) =
        In-keep id (λ i. not (includes t.visited_services i)) frontier (rw e (inl refl)) in
      missing-falls universe t.visited_services (unvisited_of t frontier) id (inside id in_frontier)
        (ground (arith, new)) (rw e (inl refl))

  pub traverse_ends :
      (fuel : ℕ) (t : Traversal) (frontier : List String)
      → ((v : String) → In v frontier → In v universe)
      → missing universe t.visited_services ≤ fuel
      → (final : Traversal) × (traverse_upstream rows fuel t frontier ≡ some final)
  traverse_ends zero t frontier inside h = elim (List-cases (unvisited_of t frontier)) [
    | inl done ↦ (t, traverse_exits rows zero t frontier done)
    | inr (id, ids, e) ↦ absurd (omega (arith, falls t frontier ids id inside e, h))
  ]
  traverse_ends (suc fuel) t frontier inside h = elim (List-cases (unvisited_of t frontier)) [
    | inl done ↦ (t, traverse_exits rows (suc fuel) t frontier done)
    | inr (id, ids, e) ↦
        let unvisited = unvisited_of t frontier in
        let (final, rest) =
          traverse_ends fuel (expand rows t unvisited) (frontier_after rows t unvisited)
            (λ v i. next_inside t unvisited v i)
            (omega (arith, falls t frontier ids id inside e, h)) in
        (final, traverse_round rows fuel t frontier ids id e ∙ rest)
  ]
