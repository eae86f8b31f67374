-- ===== src/Graph/Edges/Invariant.antt =====
-- core/src/graph.rs: the invariant of a graph, and the change of one edge.
use meritrank_rust.Prelude.{
  ℕ, ◌≡◌, refl, ◌∙◌, Option, none, some, false, ◌&&◌, if◌then◌else◌, ◌==◌, arith, length,
}
use meritrank_rust.Deps.{Deps}
use meritrank_rust.Graph.Node.{NodeData, weight_to}
use meritrank_rust.Graph.Node.Laws.{IsNode}
use meritrank_rust.Graph.Edges.{Graph, get_node_data}

module _ (d : Deps) where
  abbrev pub weight_of : Option (NodeData d) → ℕ → Option d.F
  weight_of none j = none
  weight_of (some n) j = weight_to d n j

  abbrev pub inbound_of : Option (NodeData d) → ℕ → Option d.F
  inbound_of none i = none
  inbound_of (some n) i = d.edges.get i n.inbound_edges

  -- The weight of an edge, and what the target's cache says of it; none for a missing node.
  abbrev pub weight_at : Graph d → ℕ → ℕ → Option d.F
  weight_at g i j = weight_of (get_node_data d g i) j

  abbrev pub inbound_at : Graph d → ℕ → ℕ → Option d.F
  inbound_at g j i = inbound_of (get_node_data d g j) i

  abbrev pub AllNodes : Graph d → Type 0
  AllNodes g = (i : ℕ) (n : NodeData d) → get_node_data d g i ≡ some n → IsNode d n

  -- Each node is well formed, no node is its own neighbour, and the inbound caches mirror the
  -- outgoing edges. So every edge leads to a node of the graph.
  pub record IsGraph (g : Graph d) : Type 0 where
    pub nodes_valid : AllNodes g
    pub loopless : (i : ℕ) → weight_at g i i ≡ none
    pub mirror : (i j : ℕ) → inbound_at g j i ≡ weight_at g i j

  -- `g'` is `g` with the edge between two nodes set to `o`, all other edges as they were.
  pub record EdgeUpdate (g g' : Graph d) (from to : ℕ) (o : Option d.F) : Type 0 where
    pub size : length g'.nodes ≡ length g.nodes
    pub weights :
        (i j : ℕ) → weight_at g' i j ≡ (if from == i && to == j then o else weight_at g i j)
    pub inbound :
        (i j : ℕ) → inbound_at g' j i ≡ (if from == i && to == j then o else inbound_at g j i)
    pub valid : AllNodes g → AllNodes g'

  pub EdgeUpdate-IsGraph :
      (g g' : Graph d) (from to : ℕ) (o : Option d.F)
      → (from == to) ≡ false
      → EdgeUpdate g g' from to o
      → IsGraph g
      → IsGraph g'
  EdgeUpdate-IsGraph g g' from to o distinct u p = record {
    nodes_valid = u.valid p.nodes_valid;
    loopless = λ i. ground (arith, u.weights i i, p.loopless i);
    mirror = λ i j. ground (arith, u.weights i j, u.inbound i j, p.mirror i j);
  }

  pub EdgeUpdate-trans :
      (g g' g'' : Graph d) (from to : ℕ) (o o' : Option d.F)
      → EdgeUpdate g g' from to o
      → EdgeUpdate g' g'' from to o'
      → EdgeUpdate g g'' from to o'
  EdgeUpdate-trans g g' g'' from to o o' u v = record {
    size = v.size ∙ u.size;
    weights = λ i j. ground (arith, u.weights i j, v.weights i j);
    inbound = λ i j. ground (arith, u.inbound i j, v.inbound i j);
    valid = λ p. v.valid (u.valid p);
  }

  -- Nothing to remove, nothing removed.
  pub EdgeUpdate-absent :
      (g : Graph d) (from to : ℕ)
      → IsGraph g
      → weight_at g from to ≡ none
      → EdgeUpdate g g from to none
  EdgeUpdate-absent g from to p absent = record {
    size = refl;
    weights = λ i j. ground arith;
    inbound = λ i j. ground (arith, p.mirror i j);
    valid = λ q. q;
  }

  -- New data for the source and for the target make an update of the edge between them.
  module _ (g g' : Graph d) (from to : ℕ) (o : Option d.F) (n n' m m' : NodeData d)
      (source : get_node_data d g from ≡ some n) (target : get_node_data d g to ≡ some m)
      (distinct : (from == to) ≡ false) where
    pub EdgeUpdate-of_nodes :
        length g'.nodes ≡ length g.nodes
        → ((j : ℕ)
            → get_node_data d g' j
              ≡ (if from == j then some n' else if to == j then some m' else get_node_data d g j))
        → (IsNode d n → IsNode d n')
        → (IsNode d m → IsNode d m')
        → ((j : ℕ) → weight_to d n' j ≡ (if to == j then o else weight_to d n j))
        → ((j : ℕ) → weight_to d m' j ≡ weight_to d m j)
        → n'.inbound_edges ≡ n.inbound_edges
        → ((i : ℕ)
            → d.edges.get i m'.inbound_edges
              ≡ (if from == i then o else d.edges.get i m.inbound_edges))
        → EdgeUpdate g g' from to o
    EdgeUpdate-of_nodes size after valid_n valid_m weights_n weights_m inbound_n inbound_m =
        record {
          size = size;
          weights = λ i j. ground (arith, after i, weights_n j, weights_m j);
          inbound = λ i j. ground (arith, after j, inbound_m i);
          valid = λ p j x e.
              ground (arith, after j, valid_n (p from n source), valid_m (p to m target), p j x);
        }
