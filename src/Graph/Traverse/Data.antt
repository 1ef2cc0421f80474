-- ===== src/Graph/Traverse/Data.antt =====
-- The services that the traversal collects, each with its dependencies.
use depsera.Prelude.{
  String, ◌≡◌, refl, sym, ap, ◌∙◌, inl, inr, true, List, [], ◌∷◌, keep, In, In-keep, In-of-keep,
  In-map, In-of-map, In-append, In-append_left, In-append_right, ◌==◌, eq_iff, Bool-cases, some,
  subst, ℕ,
}
use depsera.Grouping.{group_of, group_by_key}
use depsera.Grouping.Laws.{group_by_key_lem}
use depsera.Graph.Row.{
  ServiceWithTeam, DependencyWithTarget, GraphRows, includes, owner_of, find_by_ids_with_team,
  find_by_service_ids,
}
use depsera.Graph.Traverse.{
  Traversal, unvisited_of, expand, frontier_after, pair_up, traverse_upstream, not_visited,
}
use depsera.Graph.Traverse.Sets.{includes-of-In, In-of-includes}
use depsera.Graph.Traverse.Reachable.{traverse_rule}

-- The dependencies of a service.
abbrev pub deps_of : GraphRows → ServiceWithTeam → List DependencyWithTarget
deps_of rows s = keep (λ d. owner_of d == s.service.id) rows.dependencies

keep_both :
    (ids : List String) (k : String) (rows : List DependencyWithTarget)
    → includes ids k ≡ true
    → keep (λ d. owner_of d == k) (keep (λ d. includes ids (owner_of d)) rows)
      ≡ keep (λ d. owner_of d == k) rows
keep_both ids k [] h = refl
keep_both ids k (d ∷ rows) h = elim (Bool-cases (owner_of d == k)) [
  | inl mine ↦
      rw (ap (includes ids) ((eq_iff (owner_of d) k).0 mine) ∙ h)
        (rw mine (ap (◌∷◌ d) (keep_both ids k rows h)))
  | inr other ↦ elim (Bool-cases (includes ids (owner_of d))) [
    | inl listed ↦ rw listed (rw other (keep_both ids k rows h))
    | inr left_out ↦ rw left_out (rw other (keep_both ids k rows h))
  ]
]

module _ (rows : GraphRows) where
  record Collected (t : Traversal) (frontier : List String) : Type 0 where
    sound :
        (s : ServiceWithTeam) (deps : List DependencyWithTarget)
        → In (s, deps) t.service_data
        → In s rows.services × In s.service.id t.visited_services × (deps ≡ deps_of rows s)
    full :
        (s : ServiceWithTeam)
        → In s rows.services
        → In s.service.id t.visited_services
        → In (s, deps_of rows s) t.service_data

  Collected-start : (start : String) → Collected not_visited (start ∷ [])
  Collected-start start = record { sound = λ s deps i. elim i [ ]; full = λ s i j. elim j [ ] }

  paired :
      (ids : List String) (s : ServiceWithTeam)
      → includes ids s.service.id ≡ true
      → group_of (group_by_key (find_by_service_ids ids rows) owner_of) s.service.id
        ≡ deps_of rows s
  unfolding find_by_service_ids
  paired ids s h =
      group_by_key_lem owner_of (find_by_service_ids ids rows) s.service.id
      ∙ keep_both ids s.service.id rows.dependencies h

  Collected-expand :
      (t : Traversal) (frontier : List String)
      → Collected t frontier
      → Collected
          (expand rows t (unvisited_of t frontier))
          (frontier_after rows t (unvisited_of t frontier))
  unfolding expand find_by_ids_with_team
  Collected-expand t frontier h =
      let ids = unvisited_of t frontier in
      let services = find_by_ids_with_team ids rows in
      let deps = find_by_service_ids ids rows in
      record {
        sound = λ s ds i. elim (In-append (s, ds) t.service_data (pair_up deps services) i) [
          | inl old ↦
              let (j, seen, e) = h.sound s ds old in
              (j, In-append_left s.service.id t.visited_services ids seen, e)
          | inr new ↦
              let (r, j, e) =
                In-of-map
                  (λ (x : ServiceWithTeam). (x, group_of (group_by_key deps owner_of) x.service.id))
                  (s, ds) services new in
              let (k, listed) = In-keep r (λ x. includes ids x.service.id) rows.services j in
              let same : r ≡ s = ap (λ p. p.0) e in
              (
                subst (λ x. In x rows.services) same k,
                In-append_right s.service.id t.visited_services ids (
                    In-of-includes s.service.id ids
                      (ap (λ x. includes ids x.service.id) (sym same) ∙ listed)),
                sym (ap (λ p. p.1) e) ∙ paired ids r listed ∙ ap (deps_of rows) same,
              )
        ];
        full = λ s i j. elim (In-append s.service.id t.visited_services ids j) [
          | inl old ↦ In-append_left _ t.service_data (pair_up deps services) (h.full s i old)
          | inr new ↦
              let listed = includes-of-In s.service.id ids new in
              In-append_right _ t.service_data (pair_up deps services) (
                subst (λ ds. In (s, ds) (pair_up deps services)) (paired ids s listed)
                  (In-map
                    (λ (x : ServiceWithTeam).
                      (x, group_of (group_by_key deps owner_of) x.service.id))
                    s services
                    (In-of-keep s (λ x. includes ids x.service.id) rows.services i listed)))
        ];
      }

  -- Of the services visited, each with all its dependencies.
  pub service_data_lem :
      (start : String) (fuel : ℕ) (final : Traversal)
      → traverse_upstream rows fuel not_visited (start ∷ []) ≡ some final
      → ((s : ServiceWithTeam) (deps : List DependencyWithTarget)
          → In (s, deps) final.service_data
          → In s rows.services × In s.service.id final.visited_services × (deps ≡ deps_of rows s))
        × ((s : ServiceWithTeam)
            → In s rows.services
            → In s.service.id final.visited_services
            → In (s, deps_of rows s) final.service_data)
  service_data_lem start fuel final e =
      let (last, h, done) =
        traverse_rule rows start Collected Collected-expand fuel not_visited (start ∷ []) final
          (Collected-start start) e in
      (h.sound, h.full)
