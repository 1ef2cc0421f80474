-- ===== src/Graph/Traverse/Reachable.antt =====
-- What the traversal visits: the services that a walk along the rows leads to.
use depsera.Prelude.{
  ℕ, zero, suc, String, ◌≡◌, refl, sym, ap, ◌∙◌, subst, ◌↔◌, ◌⊎◌, inl, inr, not, some, List, [],
  ◌∷◌, ◌++◌, length, In, In-keep, In-of-keep, In-append, In-append_left, In-append_right, arith,
  Bool-cases, Option-cases, List-cases,
}
use depsera.Graph.Row.{
  DependencyWithTarget, GraphRows, includes, owner_of, target_of, find_by_service_ids,
}
use depsera.Graph.Traverse.{
  Traversal, next_frontier, unvisited_of, expand, frontier_after, traverse_upstream, not_visited,
}
use depsera.Graph.Traverse.Sets.{
  In-of-includes, includes-of-In, In-unique, In-of-unique, missing_nothing,
}
use depsera.Graph.Traverse.Ends.{
  targets, length-targets, In-next_frontier, traverse_ends, traverse_exits, traverse_round,
  traverse_out,
}

-- A service has a dependency that another service provides.
abbrev pub Link : GraphRows → String → String → Type 0
Link rows u v =
    (d : DependencyWithTarget) × In d rows.dependencies × (owner_of d ≡ u) × (target_of d ≡ some v)

pub data Upstream (rows : GraphRows) (start : String) : String → Type 0 where
  here : Upstream rows start start
  further : {u v : String} → Upstream rows start u → Link rows u v → Upstream rows start v

In-of-next_frontier :
    (visited : List String) (dependencies : List DependencyWithTarget) (d : DependencyWithTarget)
    (v : String)
    → In d dependencies
    → target_of d ≡ some v
    → In v visited ⊎ In v (next_frontier visited dependencies)
unfolding next_frontier
In-of-next_frontier visited [] d v i e = elim i [ ]
In-of-next_frontier visited (r ∷ dependencies) d v (inl same) e =
    let found : target_of r ≡ some v = ap target_of same ∙ e in
    elim (Bool-cases (includes visited v)) [
      | inl seen ↦ inl (In-of-includes v visited seen)
      | inr unseen ↦ inr (rw (found, unseen, In) (inl refl))
    ]
In-of-next_frontier visited (r ∷ dependencies) d v (inr i) e =
    elim (In-of-next_frontier visited dependencies d v i e) [
      | inl seen ↦ inl seen
      | inr later ↦ inr (elim (Option-cases (target_of r)) [
        | inl none_ ↦ rw (none_, In) later
        | inr (t, h) ↦ elim (Bool-cases (includes visited t)) [
          | inl seen ↦ rw (h, seen, In) later
          | inr unseen ↦ rw (h, unseen, In) (inr later)
        ]
      ])
    ]

module _ (rows : GraphRows) (start : String) where
  record Inv (t : Traversal) (frontier : List String) : Type 0 where
    sound : (v : String) → In v t.visited_services → Upstream rows start v
    pending : (v : String) → In v frontier → Upstream rows start v
    source : In start t.visited_services ⊎ In start frontier
    closed :
        (u v : String)
        → In u t.visited_services
        → Link rows u v
        → In v t.visited_services ⊎ In v frontier

  -- What the round visits.
  moved :
      (t : Traversal) (frontier : List String) (v : String)
      → In v t.visited_services ⊎ In v frontier
      → In v (t.visited_services ++ unvisited_of t frontier)
  moved t frontier v (inl seen) = In-append_left v t.visited_services (unvisited_of t frontier) seen
  moved t frontier v (inr waiting) = elim (Bool-cases (includes t.visited_services v)) [
    | inl seen ↦
        In-append_left v t.visited_services (unvisited_of t frontier)
          (In-of-includes v t.visited_services seen)
    | inr unseen ↦
        In-append_right v t.visited_services (unvisited_of t frontier)
          (In-of-keep v (λ i. not (includes t.visited_services i)) frontier waiting (ap not unseen))
  ]

  Inv-expand :
      (t : Traversal) (frontier : List String)
      → Inv t frontier
      → Inv
          (expand rows t (unvisited_of t frontier))
          (frontier_after rows t (unvisited_of t frontier))
  unfolding expand find_by_service_ids
  Inv-expand t frontier h =
      let unvisited = unvisited_of t frontier in
      let visits : (v : String) → In v (t.visited_services ++ unvisited) → Upstream rows start v =
        λ v i. elim (In-append v t.visited_services unvisited i) [
          | inl seen ↦ h.sound v seen
          | inr new ↦
              h.pending v (In-keep v (λ j. not (includes t.visited_services j)) frontier new).0
        ] in
      record {
        sound = visits;
        pending = λ v i.
            let (d, j, e) =
              In-next_frontier (t.visited_services ++ unvisited)
                (find_by_service_ids unvisited rows) v
                (In-unique v
                  (next_frontier (t.visited_services ++ unvisited)
                    (find_by_service_ids unvisited rows))
                  i) in
            let (k, owned) = In-keep d (λ x. includes unvisited (owner_of x)) rows.dependencies j in
            further
              (visits (owner_of d) (
                In-append_right (owner_of d) t.visited_services unvisited
                  (In-of-includes (owner_of d) unvisited owned)))
              (d, k, refl, e);
        source = inl (moved t frontier start h.source);
        closed = λ u v i (d, j, owned, e). elim (In-append u t.visited_services unvisited i) [
          | inl seen ↦ inl (moved t frontier v (h.closed u v seen (d, j, owned, e)))
          | inr new ↦
              elim (In-of-next_frontier (t.visited_services ++ unvisited)
                (find_by_service_ids unvisited rows) d v
                (In-of-keep d (λ x. includes unvisited (owner_of x)) rows.dependencies j
                  (ap (includes unvisited) owned ∙ includes-of-In u unvisited new))
                e) [ inl seen ↦ inl seen | inr later ↦ inr (In-of-unique v _ later) ]
        ];
      }

  -- With nothing unvisited in the frontier, all that is upstream is visited.
  visited_all :
      (t : Traversal) (frontier : List String) (v : String)
      → unvisited_of t frontier ≡ []
      → In v t.visited_services ⊎ In v frontier
      → In v t.visited_services
  visited_all t frontier v done known =
      elim (In-append v t.visited_services (unvisited_of t frontier) (moved t frontier v known)) [
        | inl seen ↦ seen
        | inr waiting ↦ elim (subst (In v) done waiting) [ ]
      ]

  complete :
      (t : Traversal) (frontier : List String)
      → Inv t frontier
      → unvisited_of t frontier ≡ []
      → {v : String} → Upstream rows start v
      → In v t.visited_services
  complete t frontier h done here = visited_all t frontier start done h.source
  complete t frontier h done (further {u} {v} p link) =
      visited_all t frontier v done (h.closed u v (complete t frontier h done p) link)

  -- What the rounds keep holds at the end.
  pub traverse_rule :
      (P : Traversal → List String → Type 0)
      → ((t : Traversal) (frontier : List String)
          → P t frontier
          → P
              (expand rows t (unvisited_of t frontier))
              (frontier_after rows t (unvisited_of t frontier)))
      → (fuel : ℕ) (t : Traversal) (frontier : List String) (final : Traversal) → P t frontier
      → traverse_upstream rows fuel t frontier ≡ some final
      → (last : List String) × P final last × (unvisited_of final last ≡ [])
  traverse_rule P keeps zero t frontier final p e = elim (List-cases (unvisited_of t frontier)) [
    | inl done ↦
        let same : t ≡ final = ground (arith, traverse_exits rows zero t frontier done, e) in
        (
          frontier,
          subst (λ x. P x frontier) same p,
          subst (λ x. unvisited_of x frontier ≡ []) same done,
        )
    | inr (id, ids, more) ↦ absurd (ground (arith, traverse_out rows t frontier ids id more, e))
  ]
  traverse_rule P keeps (suc fuel) t frontier final p e =
      elim (List-cases (unvisited_of t frontier)) [
        | inl done ↦
            let same : t ≡ final =
              ground (arith, traverse_exits rows (suc fuel) t frontier done, e) in
            (
              frontier,
              subst (λ x. P x frontier) same p,
              subst (λ x. unvisited_of x frontier ≡ []) same done,
            )
        | inr (id, ids, more) ↦
            traverse_rule P keeps fuel (expand rows t (unvisited_of t frontier))
              (frontier_after rows t (unvisited_of t frontier)) final (keeps t frontier p)
              (sym (traverse_round rows fuel t frontier ids id more) ∙ e)
      ]

  Inv-start : Inv not_visited (start ∷ [])
  Inv-start = record {
    sound = λ v i. elim i [ ];
    pending = λ v i. elim i [
      | inl same ↦ subst (Upstream rows start) same here
      | inr none_ ↦ elim none_ [ ]
    ];
    source = inr (inl refl);
    closed = λ u v i link. elim i [ ];
  }

  pub visited_iff :
      (fuel : ℕ) (final : Traversal)
      → traverse_upstream rows fuel not_visited (start ∷ []) ≡ some final
      → (v : String) → In v final.visited_services ↔ Upstream rows start v
  visited_iff fuel final e v =
      let (last, h, done) =
        traverse_rule Inv Inv-expand fuel not_visited (start ∷ []) final Inv-start e in
      (h.sound v, complete final last h done)

  pub traverse_returns :
      (final : Traversal) × (traverse_upstream rows
          (suc (length rows.dependencies))
          not_visited
          (start ∷ [])
        ≡ some final)
  traverse_returns =
      let universe = start ∷ targets rows.dependencies in
      traverse_ends rows universe (λ v i. inr i) (suc (length rows.dependencies)) not_visited
        (start ∷ []) (λ v i. elim i [ inl same ↦ inl same | inr none_ ↦ elim none_ [ ] ])
        (omega (arith, missing_nothing universe, length-targets rows.dependencies))

-- With fuel for one round more than there are rows, the traversal ends, and it visits exactly the
-- identifiers that a walk along the rows of dependencies leads to.
pub traverse_upstream_lem :
    (rows : GraphRows) (start : String)
    → (final : Traversal) × (traverse_upstream rows
          (suc (length rows.dependencies))
          not_visited
          (start ∷ [])
        ≡ some final)
      × ((v : String) → In v final.visited_services ↔ Upstream rows start v)
traverse_upstream_lem rows start =
    let (final, e) = traverse_returns rows start in
    (final, e, visited_iff rows start (suc (length rows.dependencies)) final e)
