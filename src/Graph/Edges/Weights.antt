-- ===== src/Graph/Edges/Weights.antt =====
-- core/src/graph.rs: what `set_edge` and `remove_edge` do to the edges, on every branch.
use meritrank_rust.Prelude.{
  ℕ, ◌≡◌, refl, ◌∙◌, none, some, false, ◌==◌, arith, get_elem?, set, get_elem?-set, length-set,
}
use meritrank_rust.Deps.{Deps}
use meritrank_rust.Errors.{ok, panic}
use meritrank_rust.Graph.Node.{NodeData, weight_to, remove_outgoing, insert_outgoing}
use meritrank_rust.Graph.Node.Laws.{
  IsNode, weight_to-remove_outgoing, weight_to-insert_outgoing, remove_outgoing-IsNode,
  insert_outgoing-IsNode,
}
use meritrank_rust.Graph.Edges.{Graph, get_node_data, put, remove_edge, add_edge}
use meritrank_rust.Graph.Edges.Invariant.{EdgeUpdate, EdgeUpdate-of_nodes}

module _ (d : Deps) where
  inbound-remove_outgoing :
      (n : NodeData d) (to : ℕ) → (remove_outgoing d n to).0.inbound_edges ≡ n.inbound_edges
  unfolding remove_outgoing
  inbound-remove_outgoing n to = ground arith

  inbound-insert_outgoing :
      (n : NodeData d) (to : ℕ) (w : d.F)
      → (insert_outgoing d n to w).0.inbound_edges ≡ n.inbound_edges
  unfolding insert_outgoing
  inbound-insert_outgoing n to w = ground arith

  -- An edge that is there is removed without a panic.
  pub remove_outgoing_returns :
      (n : NodeData d) (to : ℕ) (w : d.F)
      → IsNode d n
      → weight_to d n to ≡ some w
      → (remove_outgoing d n to).1 ≡ ok w
  unfolding remove_outgoing weight_to
  remove_outgoing_returns n to w p h = ground (arith, p.exclusive to)

  pub remove_outgoing_panics :
      (n : NodeData d) (to : ℕ) → weight_to d n to ≡ none → (remove_outgoing d n to).1 ≡ panic
  unfolding remove_outgoing weight_to
  remove_outgoing_panics n to h = ground arith

  weight_to_with_inbound :
      (m : NodeData d) (e : d.edges.Map) (j : ℕ)
      → weight_to d (record m { inbound_edges = e }) j ≡ weight_to d m j
  unfolding weight_to
  weight_to_with_inbound m e j = refl

  IsNode-with_inbound :
      (m : NodeData d) (e : d.edges.Map) → IsNode d m → IsNode d (record m { inbound_edges = e })
  IsNode-with_inbound m e p = record {
    exclusive = p.exclusive;
    abs_fresh = p.abs_fresh;
    pos_fresh = p.pos_fresh;
  }

  module _ (g : Graph d) (from to : ℕ) (n m : NodeData d) (source : get_node_data d g from ≡ some n)
      (target : get_node_data d g to ≡ some m) (distinct : (from == to) ≡ false) where
    abbrev pub unlinked : NodeData d
    unlinked = record m { inbound_edges = d.edges.swap_remove from m.inbound_edges }

    abbrev pub linked : d.F → NodeData d
    linked w = record m { inbound_edges = d.edges.insert from w m.inbound_edges }

    -- `remove_edge` and `add_edge` in one step.
    abbrev pub removed : Graph d
    removed = put d (put d g to unlinked) from (remove_outgoing d n to).0

    abbrev pub added : d.F → Graph d
    added w = put d (put d g from (insert_outgoing d n to w).0) to (linked w)

    pub source_kept : (v : NodeData d) → get_elem? (set g.nodes to v) from ≡ some n
    source_kept v = ground (arith, get_elem?-set g.nodes to from m v target)

    pub target_kept : (v : NodeData d) → get_elem? (set g.nodes from v) to ≡ some m
    target_kept v = ground (arith, get_elem?-set g.nodes from to n v source)

    pub remove_edge_eq : remove_edge d g from to ≡ (removed, (remove_outgoing d n to).1)
    unfolding remove_edge
    remove_edge_eq = ground (arith, source_kept unlinked)

    pub removed-EdgeUpdate :
        (w : d.F) → (remove_outgoing d n to).1 ≡ ok w → EdgeUpdate d g removed from to none
    removed-EdgeUpdate w h =
        EdgeUpdate-of_nodes d g removed from to none n (remove_outgoing d n to).0 m unlinked source
          target distinct
          (length-set (set g.nodes to unlinked) from _ ∙ length-set g.nodes to unlinked)
          (λ j. ground (
            arith,
            get_elem?-set (set g.nodes to unlinked) from j n (remove_outgoing d n to).0
                (source_kept unlinked),
            get_elem?-set g.nodes to j m unlinked target,
          ))
          (remove_outgoing-IsNode d n to w h) (IsNode-with_inbound m _)
          (λ j. (weight_to-remove_outgoing d n to j w h).1) (weight_to_with_inbound m _)
          (inbound-remove_outgoing n to) (λ i. d.edges.get-swap_remove i from m.inbound_edges)

    pub add_edge_eq :
        (w : d.F)
        → d.is_nan w ≡ false
        → d.is_infinite w ≡ false
        → (insert_outgoing d n to w).1 ≡ ok tt
        → add_edge d g from to w ≡ (added w, ok tt)
    unfolding add_edge
    add_edge_eq w nan inf h = ground (arith, target_kept (insert_outgoing d n to w).0)

    pub added-EdgeUpdate :
        (w : d.F)
        → d.is_nan w ≡ false
        → weight_to d n to ≡ none
        → (insert_outgoing d n to w).1 ≡ ok tt
        → EdgeUpdate d g (added w) from to (some w)
    added-EdgeUpdate w nan absent h =
        EdgeUpdate-of_nodes d g (added w) from to (some w) n (insert_outgoing d n to w).0 m
          (linked w) source target distinct
          (length-set (set g.nodes from _) to (linked w) ∙ length-set g.nodes from _)
          (λ j. ground (
            arith,
            get_elem?-set (set g.nodes from (insert_outgoing d n to w).0) to j m (linked w)
                (target_kept (insert_outgoing d n to w).0),
            get_elem?-set g.nodes from j n (insert_outgoing d n to w).0 source,
          ))
          (insert_outgoing-IsNode d n to w absent) (IsNode-with_inbound m _)
          (λ j. weight_to-insert_outgoing d n to j w nan absent h) (weight_to_with_inbound m _)
          (inbound-insert_outgoing n to w) (λ i. d.edges.get-insert i from w m.inbound_edges)
