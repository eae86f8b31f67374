-- ===== src/Graph/Walks/Removal.antt =====
-- core/src/graph.rs: `remove_edge` where there is nothing to remove.
use meritrank_rust.Prelude.{
  ℕ, ◌≡◌, refl, inl, inr, none, some, false, ◌==◌, arith, set_self, Option-cases,
}
use meritrank_rust.Deps.{Deps}
use meritrank_rust.Graph.Node.{NodeData, remove_outgoing, weight_to}
use meritrank_rust.Graph.Edges.{Graph, get_node_data, put, remove_edge, remove_from}
use meritrank_rust.Graph.Edges.Invariant.{weight_at, IsGraph, EdgeUpdate-IsGraph}
use meritrank_rust.Graph.Walks.Trail.{SameGraph, SameGraph-refl, SameGraph-put, SameGraph-IsGraph}
use meritrank_rust.Graph.Edges.Operations.{remove_edge_lem}

module _ (d : Deps) where
  -- The cached distribution of all edges is dropped before the panic.
  abbrev uncached : NodeData d → NodeData d
  uncached n = record n { abs_distr_cache = none }

  remove_outgoing_absent :
      (n : NodeData d) (to : ℕ) → weight_to d n to ≡ none → (remove_outgoing d n to).0 ≡ uncached n
  unfolding remove_outgoing weight_to
  remove_outgoing_absent n to h =
      let no_pos : d.edges.get to n.pos_edges ≡ none = ground arith in
      let no_neg : d.edges.get to n.neg_edges ≡ none = ground arith in
      rw
        (
          remove_outgoing,
          no_pos,
          no_neg,
          d.edges.swap_remove_absent to n.pos_edges no_pos,
          d.edges.swap_remove_absent to n.neg_edges no_neg,
        )
        refl

  SameGraph-uncached :
      (g : Graph d) (i : ℕ) (n : NodeData d)
      → IsGraph d g
      → get_node_data d g i ≡ some n
      → SameGraph d (put d g i (uncached n)) g
  SameGraph-uncached g i n p e =
      let valid = p.nodes_valid i n e in
      SameGraph-put d g i n (uncached n) e
        (record {
          exclusive = valid.exclusive;
          abs_fresh = λ wi h. cc;
          pos_fresh = valid.pos_fresh;
        })
        (record { pos = refl; neg = refl; inbound = refl; pos_total = refl; neg_total = refl })

  unlink_absent :
      (g : Graph d) (from to : ℕ) (m : NodeData d)
      → IsGraph d g
      → get_node_data d g to ≡ some m
      → weight_at d g from to ≡ none
      → put d g to (record m { inbound_edges = d.edges.swap_remove from m.inbound_edges }) ≡ g
  unlink_absent g from to m p e h =
      let no_entry : d.edges.get from m.inbound_edges ≡ none = ground (arith, p.mirror from to) in
      rw (d.edges.swap_remove_absent from m.inbound_edges no_entry, set_self g.nodes to m e) refl

  remove_from_absent :
      (g : Graph d) (from to : ℕ)
      → IsGraph d g
      → weight_at d g from to ≡ none
      → SameGraph d (remove_from d g from to).0 g
  unfolding remove_from
  remove_from_absent g from to p h = elim (Option-cases (get_node_data d g from)) [
    | inl f ↦ rw (f, remove_from) (SameGraph-refl d g)
    | inr (n, f) ↦
        rw (f, remove_from)
          (rw (remove_outgoing_absent n to (ground arith)) (SameGraph-uncached g from n p f))
  ]

  remove_edge_absent :
      (g : Graph d) (from to : ℕ)
      → IsGraph d g
      → weight_at d g from to ≡ none
      → SameGraph d (remove_edge d g from to).0 g
  unfolding remove_edge
  remove_edge_absent g from to p h = elim (Option-cases (get_node_data d g to)) [
    | inl e ↦ rw (e, remove_edge) (SameGraph-refl d g)
    | inr (m, e) ↦
        rw (e, remove_edge)
          (rw (unlink_absent g from to m p e h) (remove_from_absent g from to p h))
  ]

  -- Whatever it is called with, also where it panics.
  pub remove_edge-IsGraph :
      (g : Graph d) (from to : ℕ)
      → (from == to) ≡ false
      → IsGraph d g
      → IsGraph d (remove_edge d g from to).0
  remove_edge-IsGraph g from to distinct p = elim (Option-cases (weight_at d g from to)) [
    | inl absent ↦ SameGraph-IsGraph d _ g (remove_edge_absent g from to p absent) p
    | inr (w, present) ↦
        EdgeUpdate-IsGraph d g _ from to none distinct (remove_edge_lem d g from to w p present).1 p
  ]
