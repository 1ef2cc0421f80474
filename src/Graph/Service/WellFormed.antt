-- ===== src/Graph/Service/WellFormed.antt =====
-- The graphs are well-formed: unique nodes and edges, and edges between nodes.
use depsera.Prelude.{
  ℕ, String, ◌≡◌, refl, sym, ap, ◌∙◌, subst, inl, inr, true, some, List, [], ◌∷◌, map, keep, In,
  In-keep, In-map, In-of-map, ◌==◌, arith, eq_iff, eq_refl, Bool-cases, List-cases,
}
use depsera.JsMap.{JsMap, get}
use depsera.Rows.{has_key, UniqueKeys}
use depsera.Drift.{equals}
use depsera.Grouping.{group_of, group_by_key}
use depsera.Overrides.Contact.{ContactJson}
use depsera.Graph.Row.{
  ServiceWithTeam, DependencyWithTarget, includes, owner_of, find_by_ids_with_team,
  find_by_service_ids,
}
use depsera.Graph.External.{Text, ExternalGroup, ExternalNodeEnrichment, group_unassociated_deps}
use depsera.Graph.Inference.{infer_service_types}
use depsera.Graph.Builder.{
  GraphNode, GraphEdge, GraphResponse, add_node, has_node, service_node, add_service_node, add_edge,
}
use depsera.Graph.Builder.Invariant.{
  node_id, id_of_edge, Inv, has_node-add_node, Inv-add_node, node_ids-add_edge, Inv-add_edge,
}
use depsera.Graph.Traverse.{Traversal, traverse_upstream, not_visited}
use depsera.Graph.Traverse.Sets.{In-of-includes}
use depsera.Graph.Traverse.Reachable.{traverse_upstream_lem}
use depsera.Graph.Traverse.Data.{service_data_lem}
use depsera.Graph.Service.{
  Stores, Builder, new_builder, add_services, add_groups, enrichment_map, add_external_nodes,
  add_edges, find_external_service_ids, add_external_services, pair_with_deps, build_graph,
  services_of_team, get_team_graph, add_edges_of_services, build_subgraph, get_service_subgraph,
}

-- No two nodes and no two edges have one identifier, and each edge leads from a node to a node.
pub record WellFormed {Any : Type 0} (g : GraphResponse Any) : Type 0 where
  pub unique_nodes : UniqueKeys node_id g.nodes
  pub unique_edges : UniqueKeys id_of_edge g.edges
  pub from_node : (e : GraphEdge Any) → In e g.edges → has_key node_id e.source g.nodes ≡ true
  pub to_node : (e : GraphEdge Any) → In e g.edges → has_key node_id e.target g.nodes ≡ true

module _ (js : Text) (json : ContactJson) where
  -- The builder of `b'` has the nodes of `b`, and is in order.
  record Grown (b b' : Builder js json) : Type 0 where
    keeps : (k : String) → has_node b k ≡ true → has_node b' k ≡ true
    inv : Inv b'

  Grown-refl : (b : Builder js json) → Inv b → Grown b b
  Grown-refl b h = record { keeps = λ k e. e; inv = h }

  Grown-trans : {a b c : Builder js json} → Grown a b → Grown b c → Grown a c
  Grown-trans g h = record { keeps = λ k e. h.keeps k (g.keeps k e); inv = h.inv }

  Grown-add_node : (n : GraphNode) (b : Builder js json) → Inv b → Grown b (add_node n b)
  Grown-add_node n b h = record {
    keeps = λ k e. ground (arith, e, has_node-add_node n b k);
    inv = Inv-add_node n b h;
  }

  Inv-new_builder : (stores : Stores) → Inv (new_builder js json stores)
  Inv-new_builder stores = record {
    known_nodes = λ k. refl;
    unique_nodes = tt;
    known_edges = λ k. refl;
    unique_edges = tt;
    from_node = λ e i. elim i [ ];
    to_node = λ e i. elim i [ ];
  }

  Grown-add_services :
      (types : JsMap String) (services : List (ServiceWithTeam × List DependencyWithTarget))
      (b : Builder js json)
      → Inv b
      → Grown b (add_services js json types services b)
  unfolding add_services
  Grown-add_services types [] b h = Grown-refl b h
  Grown-add_services types ((s, deps) ∷ services) b h =
      let first = Grown-add_node (service_node s deps (get types s.service.id)) b h in
      Grown-trans first (
        Grown-add_services types services (add_service_node s deps (get types s.service.id) b)
          first.inv)

  -- Each of the services has its node.
  service_added :
      (types : JsMap String) (services : List (ServiceWithTeam × List DependencyWithTarget))
      (b : Builder js json) (s : ServiceWithTeam) (deps : List DependencyWithTarget)
      → Inv b
      → In (s, deps) services
      → has_node (add_services js json types services b) s.service.id ≡ true
  unfolding add_services service_node
  service_added types [] b s deps h i = elim i [ ]
  service_added types ((r, ds) ∷ services) b s deps h (inl same) =
      let node = service_node r ds (get types r.service.id) in
      let first = Grown-add_node node b h in
      (Grown-add_services types services (add_node node b) first.inv).keeps s.service.id (
        ground (
          arith,
          has_node-add_node node b s.service.id,
          ap (λ p. p.0.service.id) same,
          eq_refl s.service.id,
        ))
  service_added types ((r, ds) ∷ services) b s deps h (inr i) =
      let node = service_node r ds (get types r.service.id) in
      service_added types services (add_node node b) s deps (Grown-add_node node b h).inv i

  Grown-add_groups :
      (enrichments : JsMap ExternalNodeEnrichment) (groups : JsMap ExternalGroup)
      (b : Builder js json)
      → Inv b
      → Grown b (add_groups js json enrichments groups b)
  unfolding add_groups
  Grown-add_groups enrichments [] b h = Grown-refl b h
  Grown-add_groups enrichments ((name, group) ∷ groups) b h =
      let first = Grown-add_node _ b h in
      Grown-trans first (Grown-add_groups enrichments groups _ first.inv)

  Grown-add_external_nodes :
      (stores : Stores) (dependencies : List DependencyWithTarget) (b : Builder js json)
      → Inv b
      → Grown b (add_external_nodes js json stores dependencies b)
  unfolding add_external_nodes
  Grown-add_external_nodes stores dependencies b h =
      elim (List-cases (group_unassociated_deps js dependencies)) [
        | inl nothing ↦ rw (add_external_nodes, nothing) (Grown-refl b h)
        | inr (group, groups, e) ↦
            let grown =
              Grown-add_groups (enrichment_map js json [] stores.enrichments) (group ∷ groups) b
                h in
            rw (add_external_nodes, e)
              (record {
                keeps = grown.keeps;
                inv = record {
                  known_nodes = grown.inv.known_nodes;
                  unique_nodes = grown.inv.unique_nodes;
                  known_edges = grown.inv.known_edges;
                  unique_edges = grown.inv.unique_edges;
                  from_node = grown.inv.from_node;
                  to_node = grown.inv.to_node;
                };
              })
      ]

  Grown-add_edges :
      (dependencies : List DependencyWithTarget) (b : Builder js json)
      → ((d : DependencyWithTarget) → In d dependencies → has_node b (owner_of d) ≡ true)
      → Inv b
      → Grown b (add_edges js json dependencies b)
  unfolding add_edges
  Grown-add_edges [] b owners h = Grown-refl b h
  Grown-add_edges (d ∷ dependencies) b owners h =
      let next = add_edge js json d b in
      let same = node_ids-add_edge js json d b in
      let stays : (k : String) → has_node b k ≡ true → has_node next k ≡ true =
        λ k e. ap (λ ids. includes ids k) same ∙ e in
      let first : Grown b next = record {
        keeps = stays;
        inv = Inv-add_edge js json d b (owners d (inl refl)) h;
      } in
      Grown-trans first
        (Grown-add_edges dependencies next (λ x i. stays (owner_of x) (owners x (inr i))) first.inv)

  Grown-add_edges_of_services :
      (services : List (ServiceWithTeam × List DependencyWithTarget)) (b : Builder js json)
      → ((s : ServiceWithTeam) (deps : List DependencyWithTarget) (d : DependencyWithTarget)
          → In (s, deps) services
          → In d deps
          → has_node b (owner_of d) ≡ true)
      → Inv b
      → Grown b (add_edges_of_services js json services b)
  unfolding add_edges_of_services
  Grown-add_edges_of_services [] b owners h = Grown-refl b h
  Grown-add_edges_of_services ((s, deps) ∷ services) b owners h =
      let first = Grown-add_edges deps b (λ d i. owners s deps d (inl refl) i) h in
      Grown-trans first (
        Grown-add_edges_of_services services (add_edges js json deps b)
          (λ r ds d i j. first.keeps (owner_of d) (owners r ds d (inr i) j)) first.inv)

  WellFormed-build :
      (b : Builder js json) → Inv b → WellFormed (record { nodes = b.nodes; edges = b.edges })
  WellFormed-build b h = record {
    unique_nodes = h.unique_nodes;
    unique_edges = h.unique_edges;
    from_node = λ e i. h.known_nodes e.source ∙ h.from_node e i;
    to_node = λ e i. h.known_nodes e.target ∙ h.to_node e i;
  }

  -- Where the dependencies are those of the services, all edges lead to nodes.
  WellFormed-build_graph :
      (stores : Stores) (services : List ServiceWithTeam) (dependencies : List DependencyWithTarget)
      → ((d : DependencyWithTarget)
          → In d dependencies
          → (s : ServiceWithTeam) × In s services × (s.service.id ≡ owner_of d))
      → WellFormed (build_graph js json stores services dependencies)
  unfolding build_graph add_external_services
  WellFormed-build_graph stores services dependencies owners =
      let types = infer_service_types dependencies in
      let pairs = pair_with_deps js json dependencies services in
      let start = new_builder js json stores in
      let g1 = Grown-add_services types pairs start (Inv-new_builder stores) in
      let owned = add_services js json types pairs start in
      let external =
        find_by_ids_with_team (find_external_service_ids js json [] dependencies owned)
          stores.rows in
      let pointing =
        map
          (λ (s : ServiceWithTeam). (
            s,
            keep (λ (d : DependencyWithTarget). equals d.target_service_id s.service.id)
                dependencies,
          ))
          external in
      let g2 = Grown-add_services types pointing owned g1.inv in
      let g3 = Grown-add_external_nodes stores dependencies _ g2.inv in
      let g4 =
        Grown-add_edges dependencies _
          (λ d i.
            let (s, j, e) = owners d i in
            (Grown-trans g2 g3).keeps (owner_of d) (
              ap (has_node owned) (sym e)
              ∙ service_added types pairs start s _ (Inv-new_builder stores) (
                  In-map
                    (λ (x : ServiceWithTeam).
                      (x, group_of (group_by_key dependencies owner_of) x.service.id))
                    s services j)))
          g3.inv in
      WellFormed-build _ g4.inv

  nothing : WellFormed {Any = json.Any} (record { nodes = []; edges = [] })
  nothing = record {
    unique_nodes = tt;
    unique_edges = tt;
    from_node = λ e i. elim i [ ];
    to_node = λ e i. elim i [ ];
  }

  -- The graph of a team has no two nodes and no two edges of one identifier, and each of its edges
  -- leads from a node to a node.
  pub get_team_graph-WellFormed :
      (stores : Stores) (team_id : String) → WellFormed (get_team_graph js json stores team_id)
  unfolding get_team_graph find_by_service_ids
  get_team_graph-WellFormed stores team_id = elim (Bool-cases (includes stores.team_ids team_id)) [
    | inr unknown ↦ rw (get_team_graph, unknown) nothing
    | inl known ↦ elim (List-cases (services_of_team js json stores team_id)) [
      | inl none_ ↦ rw (get_team_graph, known, none_) nothing
      | inr (s, services, e) ↦
          let ids = map (λ (x : ServiceWithTeam). x.service.id) (s ∷ services) in
          rw (get_team_graph, known, e)
            (WellFormed-build_graph stores (s ∷ services) (find_by_service_ids ids stores.rows)
              (λ d i.
                let listed =
                  (In-keep d (λ x. includes ids (owner_of x)) stores.rows.dependencies i).1 in
                let (r, k, same) =
                  In-of-map (λ (x : ServiceWithTeam). x.service.id) (owner_of d) (s ∷ services)
                    (In-of-includes (owner_of d) ids listed) in
                (r, k, same)))
    ]
  ]

  subgraph_WellFormed :
      (stores : Stores) (start : String) (fuel : ℕ) (t : Traversal)
      → traverse_upstream stores.rows fuel not_visited (start ∷ []) ≡ some t
      → WellFormed (build_subgraph js json stores t)
  unfolding build_subgraph
  subgraph_WellFormed stores start fuel t e =
      let types = infer_service_types t.all_dependencies in
      let empty = new_builder js json stores in
      let g1 = Grown-add_services types t.service_data empty (Inv-new_builder stores) in
      let g2 = Grown-add_external_nodes stores t.all_dependencies _ g1.inv in
      let g3 =
        Grown-add_edges_of_services t.service_data _
          (λ s deps d i j.
            let (k, seen, same) = (service_data_lem stores.rows start fuel t e).0 s deps i in
            let mine : owner_of d ≡ s.service.id =
              (eq_iff (owner_of d) s.service.id).0
                (In-keep d (λ x. owner_of x == s.service.id) stores.rows.dependencies
                  (subst (In d) same j)).1 in
            g2.keeps (owner_of d) (
              ap (has_node (add_services js json types t.service_data empty)) mine
              ∙ service_added types t.service_data empty s deps (Inv-new_builder stores) i))
          g2.inv in
      WellFormed-build _ g3.inv

  -- The traversal behind the graph of a service ends, and the graph has no two nodes and no two
  -- edges of one identifier, and each of its edges leads from a node to a node.
  pub get_service_subgraph-WellFormed :
      (stores : Stores) (service_id : String)
      → (g : GraphResponse json.Any) × (get_service_subgraph js json stores service_id ≡ some g)
        × WellFormed g
  unfolding get_service_subgraph
  get_service_subgraph-WellFormed stores service_id =
      let (t, e, visited) = traverse_upstream_lem stores.rows service_id in
      (
        build_subgraph js json stores t,
        rw (get_service_subgraph, e) refl,
        subgraph_WellFormed stores service_id _ t e,
      )
