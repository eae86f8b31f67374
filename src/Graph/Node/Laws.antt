-- ===== src/Graph/Node/Laws.antt =====
-- core/src/graph.rs: what an update of a node's outgoing edges does to its weights, and that the
-- cached distributions never go stale.
use meritrank_rust.Prelude.{ℕ, ◌≡◌, ◌⊎◌, inl, none, some, false, if◌then◌else◌, ◌==◌, arith}
use meritrank_rust.Deps.{Deps}
use meritrank_rust.Errors.{ok}
use meritrank_rust.Graph.Node.{
  NodeData, default, values, combined_weights, weight_to, remove_outgoing, insert_outgoing,
}

module _ (d : Deps) where
  -- The invariant of a node: no node is a positive and a negative neighbour at once, and a cached
  -- distribution is that of the present weights.
  pub record IsNode (n : NodeData d) : Type 0 where
    pub exclusive :
        (j : ℕ) → (d.edges.get j n.pos_edges ≡ none) ⊎ (d.edges.get j n.neg_edges ≡ none)
    pub abs_fresh :
        (wi : d.rng.WeightedIndex)
        → n.abs_distr_cache ≡ some wi
        → d.rng.weighted_index (combined_weights d n) ≡ some wi
    pub pos_fresh :
        (wi : d.rng.WeightedIndex)
        → n.pos_distr_cache ≡ some wi
        → d.rng.weighted_index (values d n.pos_edges) ≡ some wi

  pub default-IsNode : IsNode (default d)
  default-IsNode = record {
    exclusive = λ j. inl (d.edges.get-empty j);
    abs_fresh = λ wi h. cc;
    pos_fresh = λ wi h. cc;
  }

  -- Removing an edge returns its weight, and takes away that edge and no other.
  pub weight_to-remove_outgoing :
      (n : NodeData d) (to j : ℕ) (w : d.F)
      → (remove_outgoing d n to).1 ≡ ok w
      → (weight_to d n to ≡ some w)
        × (weight_to d (remove_outgoing d n to).0 j ≡ (if to == j then none else weight_to d n j))
  unfolding remove_outgoing weight_to
  weight_to-remove_outgoing n to j w h =
      ground
        (arith, d.edges.get-swap_remove j to n.pos_edges, d.edges.get-swap_remove j to n.neg_edges)

  -- A node with no such edge: inserting one sets its weight, and no other.
  pub weight_to-insert_outgoing :
      (n : NodeData d) (to j : ℕ) (w : d.F)
      → d.is_nan w ≡ false
      → weight_to d n to ≡ none
      → (insert_outgoing d n to w).1 ≡ ok tt
      → weight_to d (insert_outgoing d n to w).0 j ≡ (if to == j then some w else weight_to d n j)
  unfolding insert_outgoing weight_to
  weight_to-insert_outgoing n to j w nan absent h = ground (
    arith,
    d.edges.get-insert j to w n.pos_edges,
    d.edges.get-insert j to (d.abs w) n.neg_edges,
    d.neg-abs w nan,
  )

  -- A removal that returns keeps the invariant: each cache that a change of weights would make
  -- stale is dropped.
  pub remove_outgoing-IsNode :
      (n : NodeData d) (to : ℕ) (w : d.F)
      → (remove_outgoing d n to).1 ≡ ok w
      → IsNode n
      → IsNode (remove_outgoing d n to).0
  unfolding remove_outgoing
  remove_outgoing-IsNode n to w h p = record {
    exclusive = λ j. ground (
      arith,
      p.exclusive j,
      d.edges.get-swap_remove j to n.pos_edges,
      d.edges.get-swap_remove j to n.neg_edges,
    );
    abs_fresh = λ wi e. ground arith;
    pos_fresh = λ wi e. ground (arith, p.pos_fresh wi, d.edges.swap_remove_absent to n.pos_edges);
  }

  -- So does an insertion, where no edge to the node was there.
  pub insert_outgoing-IsNode :
      (n : NodeData d) (to : ℕ) (w : d.F)
      → weight_to d n to ≡ none
      → IsNode n
      → IsNode (insert_outgoing d n to w).0
  unfolding insert_outgoing weight_to
  insert_outgoing-IsNode n to w absent p = record {
    exclusive = λ j. ground (
      arith,
      p.exclusive j,
      d.edges.get-insert j to w n.pos_edges,
      d.edges.get-insert j to (d.abs w) n.neg_edges,
    );
    abs_fresh = λ wi e. ground (arith, p.abs_fresh wi);
    pos_fresh = λ wi e. ground (arith, p.pos_fresh wi);
  }
