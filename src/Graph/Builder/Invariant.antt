-- ===== src/Graph/Builder/Invariant.antt =====
-- The builder keeps its nodes and edges unique, and draws edges between nodes.
use depsera.Prelude.{
  String, ◌≡◌, refl, sym, ap, ◌∙◌, inl, inr, Bool, true, false, ◌||◌, [], ◌∷◌, ◌==◌, In, In-append,
  arith, eq_iff, Bool-cases, Option-cases,
}
use depsera.Rows.{has_key, UniqueKeys}
use depsera.Rows.Laws.{has_key-append, UniqueKeys-append}
use depsera.Overrides.Contact.{ContactJson}
use depsera.Graph.Row.{DependencyWithTarget, includes, owner_of}
use depsera.Graph.External.{Text}
use depsera.Graph.Builder.{
  GraphNode, GraphEdge, DependencyGraphBuilder, add_node, has_node, source_of, edge_id,
  create_edge_data, add_edge,
}

abbrev pub node_id : GraphNode → String
node_id n = n.id

abbrev pub id_of_edge : {Any : Type 0} → GraphEdge Any → String
id_of_edge e = e.id

pub record Inv {Any : Type 0} (b : DependencyGraphBuilder Any) : Type 0 where
  pub known_nodes : (k : String) → has_key node_id k b.nodes ≡ includes b.node_ids k
  pub unique_nodes : UniqueKeys node_id b.nodes
  pub known_edges : (k : String) → has_key id_of_edge k b.edges ≡ includes b.edge_ids k
  pub unique_edges : UniqueKeys id_of_edge b.edges
  pub from_node : (e : GraphEdge Any) → In e b.edges → has_node b e.source ≡ true
  pub to_node : (e : GraphEdge Any) → In e b.edges → has_node b e.target ≡ true

or_swap : (a b : Bool) → (a || b) ≡ (b || a)
or_swap true true = refl
or_swap true false = refl
or_swap false true = refl
or_swap false false = refl

module _ {Any : Type 0} where
  pub has_node-add_node :
      (n : GraphNode) (b : DependencyGraphBuilder Any) (k : String)
      → has_node (add_node n b) k ≡ (has_node b k || (n.id == k))
  unfolding add_node
  has_node-add_node n b k = elim (Bool-cases (includes b.node_ids n.id)) [
    | inl there ↦ rw there (elim (Bool-cases (n.id == k)) [
      | inl same ↦
          ground (arith, same, ap (includes b.node_ids) (sym ((eq_iff n.id k).0 same)) ∙ there)
      | inr other ↦ ground (arith, other)
    ])
    | inr new ↦ rw new (or_swap (n.id == k) (has_node b k))
  ]

  pub Inv-add_node : (n : GraphNode) (b : DependencyGraphBuilder Any) → Inv b → Inv (add_node n b)
  unfolding add_node
  Inv-add_node n b h = elim (Bool-cases (includes b.node_ids n.id)) [
    | inl there ↦ rw there h
    | inr new ↦
        let later : (k : String) → has_node b k ≡ true → ((n.id == k) || has_node b k) ≡ true =
          λ k e. ground (arith, e) in
        rw new (record {
          known_nodes = λ k.
              has_key-append node_id k b.nodes n
              ∙ ap (λ x. x || (n.id == k)) (h.known_nodes k)
              ∙ or_swap (includes b.node_ids k) (n.id == k);
          unique_nodes =
              UniqueKeys-append node_id b.nodes n h.unique_nodes (h.known_nodes n.id ∙ new);
          known_edges = h.known_edges;
          unique_edges = h.unique_edges;
          from_node = λ e i. later e.source (h.from_node e i);
          to_node = λ e i. later e.target (h.to_node e i);
        })
  ]

module _ (js : Text) (json : ContactJson) where
  pub node_ids-add_edge :
      (d : DependencyWithTarget) (b : DependencyGraphBuilder json.Any)
      → (add_edge js json d b).node_ids ≡ b.node_ids
  unfolding add_edge
  node_ids-add_edge d b = elim (Option-cases (source_of js json b d)) [
    | inl nothing ↦ ground (arith, nothing)
    | inr (source, e) ↦ ground (arith, e)
  ]

  pub Inv-add_edge :
      (d : DependencyWithTarget) (b : DependencyGraphBuilder json.Any)
      → has_node b (owner_of d) ≡ true
      → Inv b
      → Inv (add_edge js json d b)
  unfolding add_edge
  Inv-add_edge d b owner h = elim (Option-cases (source_of js json b d)) [
    | inl nothing ↦ rw (add_edge, nothing) h
    | inr (source, e) ↦ elim (Bool-cases (has_node b source)) [
      | inr absent_ ↦ rw (add_edge, e, absent_) h
      | inl present ↦ elim (Bool-cases (includes b.edge_ids (edge_id js json source d))) [
        | inl there ↦ rw (add_edge, e, present, there) h
        | inr new ↦
            let edge : GraphEdge json.Any = record {
              id = edge_id js json source d;
              source = source;
              target = owner_of d;
              edge_data = create_edge_data js json b d;
            } in
            rw (add_edge, e, present, new)
              (record {
                known_nodes = h.known_nodes;
                unique_nodes = h.unique_nodes;
                known_edges = λ k.
                    has_key-append id_of_edge k b.edges edge
                    ∙ ap (λ x. x || (edge.id == k)) (h.known_edges k)
                    ∙ or_swap (includes b.edge_ids k) (edge.id == k);
                unique_edges =
                    UniqueKeys-append id_of_edge b.edges edge h.unique_edges
                      (h.known_edges edge.id ∙ new);
                from_node = λ x i. elim (In-append x b.edges (edge ∷ []) i) [
                  | inl old ↦ h.from_node x old
                  | inr last ↦ elim last [
                    | inl same ↦ ap (λ y. has_node b y.source) (sym same) ∙ present
                    | inr nothing ↦ elim nothing [ ]
                  ]
                ];
                to_node = λ x i. elim (In-append x b.edges (edge ∷ []) i) [
                  | inl old ↦ h.to_node x old
                  | inr last ↦ elim last [
                    | inl same ↦ ap (λ y. has_node b y.target) (sym same) ∙ owner
                    | inr nothing ↦ elim nothing [ ]
                  ]
                ];
              })
      ]
    ]
  ]
