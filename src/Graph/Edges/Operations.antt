-- ===== src/Graph/Edges/Operations.antt =====
-- core/src/graph.rs: `set_edge`, `remove_edge` and `edge_weight` on a well-formed graph.
use meritrank_rust.Prelude.{
  ℕ, ◌≡◌, refl, ◌∙◌, ◌⊎◌, inl, inr, ◌≢◌, Option, none, some, true, false, ◌&&◌, if◌then◌else◌, ◌==◌,
  arith, Option-cases, Bool-cases, length, set, [], ◌∷◌, ◌++◌, get_elem?-set, set_self,
  get_elem?-snoc, get_elem?_ge_none,
}
use meritrank_rust.Deps.{Deps}
use meritrank_rust.Errors.{
  Result, ok, err, panic, node_not_found, nan_weight_encountered, inf_weight_encountered,
  zero_weight_encountered, self_reference_not_allowed, MeritRankError,
}
use meritrank_rust.Graph.Node.{NodeData, default, weight_to, remove_outgoing, insert_outgoing}
use meritrank_rust.Graph.Node.Laws.{default-IsNode, weight_to-remove_outgoing}
use meritrank_rust.Graph.Edges.{
  Graph, new, get_new_nodeid, get_node_data, contains_node, edge_weight, remove_edge, add_edge,
  after_removal, replace_edge, set_edge,
}
use meritrank_rust.Graph.Edges.Invariant.{
  weight_at, inbound_at, IsGraph, EdgeUpdate, EdgeUpdate-trans, EdgeUpdate-absent,
  EdgeUpdate-IsGraph,
}
use meritrank_rust.Graph.Edges.Weights.{
  unlinked, removed, remove_edge_eq, removed-EdgeUpdate, add_edge_eq, added-EdgeUpdate, source_kept,
  remove_outgoing_returns, remove_outgoing_panics,
}

module _ (d : Deps) where
  -- The weights that `set_edge` refuses, and the error for each.
  abbrev pub refusal : d.F → Option MeritRankError
  refusal w =
      if d.is_nan w
      then some nan_weight_encountered
      else if d.is_infinite w
      then some inf_weight_encountered
      else if d.eq w d.zero
      then some zero_weight_encountered
      else none

  insert_outgoing_ok :
      (n : NodeData d) (to : ℕ) (w : d.F)
      → refusal w ≡ none
      → (d.is_nan w ≡ false) × (d.is_infinite w ≡ false) × ((insert_outgoing d n to w).1 ≡ ok tt)
  unfolding insert_outgoing
  insert_outgoing_ok n to w h = ground arith

  add_edge_refused :
      (g : Graph d) (from to : ℕ) (w : d.F) (n : NodeData d) (e : MeritRankError)
      → get_node_data d g from ≡ some n
      → refusal w ≡ some e
      → add_edge d g from to w ≡ (g, err e)
  unfolding add_edge insert_outgoing
  add_edge_refused g from to w n e source h = ground (arith, set_self g.nodes from n source)

  -- The whole of an update: its result, and the edge that it leaves.
  abbrev Sets : Graph d → Graph d × Result (Unit {0}) → ℕ → ℕ → d.F → Type 0
  Sets g r from to w =
      (refusal w ≡ none → (r.1 ≡ ok tt) × EdgeUpdate d g r.0 from to (some w))
      × ((e : MeritRankError)
          → refusal w ≡ some e
          → (r.1 ≡ err e) × EdgeUpdate d g r.0 from to none)

  module _ (from to : ℕ) (w : d.F) (distinct : (from == to) ≡ false) where
    add_edge-Sets :
        (g : Graph d) (n m : NodeData d)
        → get_node_data d g from ≡ some n
        → get_node_data d g to ≡ some m
        → weight_to d n to ≡ none
        → IsGraph d g
        → Sets g (add_edge d g from to w) from to w
    add_edge-Sets g n m source target absent p = (
      λ good.
          let (nan, inf, inserted) = insert_outgoing_ok n to w good in
          rw (add_edge_eq d g from to n m source target distinct w nan inf inserted)
            (refl, added-EdgeUpdate d g from to n m source target distinct w nan absent inserted),
      λ e bad.
          rw (add_edge_refused g from to w n e source bad)
            (refl, EdgeUpdate-absent d g from to p (ground arith)),
    )

    module _ (g : Graph d) (n m : NodeData d) (source : get_node_data d g from ≡ some n)
        (target : get_node_data d g to ≡ some m) where
      removed_source :
          get_node_data d (removed d g from to n m source target distinct) from
          ≡ some (remove_outgoing d n to).0
      removed_source = ground (
        arith,
        get_elem?-set (set g.nodes to (unlinked d g from to n m source target distinct)) from from n
            (remove_outgoing d n to).0
            (source_kept d g from to n m source target distinct
              (unlinked d g from to n m source target distinct)),
      )

      removed_target :
          get_node_data d (removed d g from to n m source target distinct) to
          ≡ some (unlinked d g from to n m source target distinct)
      removed_target = ground (
        arith,
        get_elem?-set (set g.nodes to (unlinked d g from to n m source target distinct)) from to n
            (remove_outgoing d n to).0
            (source_kept d g from to n m source target distinct
              (unlinked d g from to n m source target distinct)),
        get_elem?-set g.nodes to to m (unlinked d g from to n m source target distinct) target,
      )

    removed_absent :
        (n : NodeData d) (old : d.F)
        → (remove_outgoing d n to).1 ≡ ok old
        → weight_to d (remove_outgoing d n to).0 to ≡ none
    removed_absent n old returns = ground (arith, weight_to-remove_outgoing d n to to old returns)

    replace_edge-Sets :
        (g : Graph d) (n m : NodeData d) (old : Option d.F)
        → get_node_data d g from ≡ some n
        → get_node_data d g to ≡ some m
        → weight_to d n to ≡ old
        → IsGraph d g
        → Sets g (replace_edge d g from to w (ok old)) from to w
    unfolding replace_edge after_removal
    replace_edge-Sets g n m none source target e p = add_edge-Sets g n m source target e p
    replace_edge-Sets g n m (some old) source target e p =
        let returns = remove_outgoing_returns d n to old (p.nodes_valid from n source) e in
        let update = removed-EdgeUpdate d g from to n m source target distinct old returns in
        let gone = removed d g from to n m source target distinct in
        let rest =
          add_edge-Sets gone (remove_outgoing d n to).0
            (unlinked d g from to n m source target distinct) (removed_source g n m source target)
            (removed_target g n m source target) (removed_absent n old returns)
            (EdgeUpdate-IsGraph d g gone from to none distinct update p) in
        rw (remove_edge_eq d g from to n m source target distinct) (
          rw returns (
            λ good.
                let (r, u) = rest.0 good in
                (r, EdgeUpdate-trans d g gone _ from to none (some w) update u),
            λ x bad.
                let (r, u) = rest.1 x bad in
                (r, EdgeUpdate-trans d g gone _ from to none none update u),
          ))

  some_of_contains :
      (g : Graph d) (i : ℕ)
      → contains_node d g i ≡ true
      → (n : NodeData d) × (get_node_data d g i ≡ some n)
  some_of_contains g i h = elim (Option-cases (get_node_data d g i)) [
    | inl e ↦ absurd (ground arith)
    | inr found ↦ found
  ]

  set_edge_replaces :
      (g : Graph d) (from to : ℕ) (w : d.F) (n m : NodeData d)
      → get_node_data d g from ≡ some n
      → get_node_data d g to ≡ some m
      → (from == to) ≡ false
      → set_edge d g from to w ≡ replace_edge d g from to w (ok (weight_to d n to))
  unfolding set_edge edge_weight
  set_edge_replaces g from to w n m source target distinct = ground arith

  set_edge-Sets :
      (g : Graph d) (from to : ℕ) (w : d.F)
      → IsGraph d g
      → contains_node d g from ≡ true
      → contains_node d g to ≡ true
      → (from == to) ≡ false
      → Sets g (set_edge d g from to w) from to w
  set_edge-Sets g from to w p cf ct distinct =
      let (n, source) = some_of_contains g from cf in
      let (m, target) = some_of_contains g to ct in
      rw (set_edge_replaces g from to w n m source target distinct)
        (replace_edge-Sets from to w distinct g n m (weight_to d n to) source target refl p)

  -- Between two distinct nodes of a well-formed graph, for a weight that is neither NaN nor
  -- infinite nor zero, `set_edge` returns ok, the edge has that weight, and the weight and the
  -- inbound cache entry of every other pair of nodes are as before.
  pub set_edge_lem :
      (g : Graph d) (from to : ℕ) (w : d.F)
      → IsGraph d g
      → contains_node d g from ≡ true
      → contains_node d g to ≡ true
      → (from == to) ≡ false
      → refusal w ≡ none
      → ((set_edge d g from to w).1 ≡ ok tt)
        × EdgeUpdate d g (set_edge d g from to w).0 from to (some w)
  set_edge_lem g from to w p cf ct distinct good =
      (set_edge-Sets g from to w p cf ct distinct).0 good

  -- Between two distinct nodes of a well-formed graph, a weight that is NaN, infinite or zero is
  -- refused with the error for it, and the edge that was there is gone; the weight and the inbound
  -- cache entry of every other pair are as before.
  pub set_edge_refused :
      (g : Graph d) (from to : ℕ) (w : d.F) (e : MeritRankError)
      → IsGraph d g
      → contains_node d g from ≡ true
      → contains_node d g to ≡ true
      → (from == to) ≡ false
      → refusal w ≡ some e
      → ((set_edge d g from to w).1 ≡ err e)
        × EdgeUpdate d g (set_edge d g from to w).0 from to none
  set_edge_refused g from to w e p cf ct distinct bad =
      (set_edge-Sets g from to w p cf ct distinct).1 e bad

  -- A missing node or a self-reference is an error that changes nothing.
  set_edge_rejected :
      (g : Graph d) (from to : ℕ) (w : d.F)
      → (contains_node d g from ≡ false) ⊎ (contains_node d g to ≡ false) ⊎ ((from == to) ≡ true)
      → (set_edge d g from to w ≡ (g, err node_not_found))
        ⊎ (set_edge d g from to w ≡ (g, err self_reference_not_allowed))
  unfolding set_edge
  set_edge_rejected g from to w h = ground arith

  -- Whatever it is called with, `set_edge` on a well-formed graph does not panic and leaves a
  -- well-formed graph, also where it returns an error: no node is a positive and a negative
  -- neighbour of one node, no node is its own neighbour, inbound caches mirror the edges, and
  -- cached distributions are those of the present weights.
  pub set_edge-IsGraph :
      (g : Graph d) (from to : ℕ) (w : d.F)
      → IsGraph d g
      → IsGraph d (set_edge d g from to w).0 × ((set_edge d g from to w).1 ≢ panic)
  set_edge-IsGraph g from to w p = elim (Bool-cases (contains_node d g from)) [
    | inr nf ↦ rejected (set_edge_rejected g from to w (inl nf))
    | inl cf ↦ elim (Bool-cases (contains_node d g to)) [
      | inr nt ↦ rejected (set_edge_rejected g from to w (inr (inl nt)))
      | inl ct ↦ elim (Bool-cases (from == to)) [
        | inl same ↦ rejected (set_edge_rejected g from to w (inr (inr same)))
        | inr distinct ↦ elim (Option-cases (refusal w)) [
          | inl good ↦
              let (r, u) = set_edge_lem g from to w p cf ct distinct good in
              (EdgeUpdate-IsGraph d g _ from to (some w) distinct u p, λ h. cc)
          | inr (e, bad) ↦
              let (r, u) = set_edge_refused g from to w e p cf ct distinct bad in
              (EdgeUpdate-IsGraph d g _ from to none distinct u p, λ h. cc)
        ]
      ]
    ]
  ]
    where
      rejected :
          (set_edge d g from to w ≡ (g, err node_not_found))
            ⊎ (set_edge d g from to w ≡ (g, err self_reference_not_allowed))
          → IsGraph d (set_edge d g from to w).0 × ((set_edge d g from to w).1 ≢ panic)
      rejected (inl e) = rw e (p, λ h. cc)
      rejected (inr e) = rw e (p, λ h. cc)

  some_of_weight :
      (g : Graph d) (i j : ℕ) (w : d.F)
      → weight_at d g i j ≡ some w
      → (n : NodeData d) × (get_node_data d g i ≡ some n)
  some_of_weight g i j w h = elim (Option-cases (get_node_data d g i)) [
    | inl e ↦ absurd (ground arith)
    | inr found ↦ found
  ]

  some_of_inbound :
      (g : Graph d) (i j : ℕ) (w : d.F)
      → inbound_at d g j i ≡ some w
      → (n : NodeData d) × (get_node_data d g j ≡ some n)
  some_of_inbound g i j w h = elim (Option-cases (get_node_data d g j)) [
    | inl e ↦ absurd (ground arith)
    | inr found ↦ found
  ]

  distinct_of_weight :
      (g : Graph d) (i j : ℕ) (w : d.F)
      → IsGraph d g
      → weight_at d g i j ≡ some w
      → (i == j) ≡ false
  distinct_of_weight g i j w p h = ground (arith, p.loopless i)

  -- On a well-formed graph, `remove_edge` of an edge that is there returns its weight and takes
  -- away that edge and its inbound cache entry, and no other.
  pub remove_edge_lem :
      (g : Graph d) (from to : ℕ) (w : d.F)
      → IsGraph d g
      → weight_at d g from to ≡ some w
      → ((remove_edge d g from to).1 ≡ ok w)
        × EdgeUpdate d g (remove_edge d g from to).0 from to none
  remove_edge_lem g from to w p h =
      let (n, source) = some_of_weight g from to w h in
      let (m, target) = some_of_inbound g from to w (p.mirror from to ∙ h) in
      let distinct = distinct_of_weight g from to w p h in
      let returns = remove_outgoing_returns d n to w (p.nodes_valid from n source) (ground arith) in
      rw (remove_edge_eq d g from to n m source target distinct)
        (returns, removed-EdgeUpdate d g from to n m source target distinct w returns)

  -- Between two distinct nodes of the graph with no edge from the first to the second,
  -- `remove_edge` panics.
  pub remove_edge_panics :
      (g : Graph d) (from to : ℕ)
      → contains_node d g from ≡ true
      → contains_node d g to ≡ true
      → (from == to) ≡ false
      → weight_at d g from to ≡ none
      → (remove_edge d g from to).1 ≡ panic
  remove_edge_panics g from to cf ct distinct h =
      let (n, source) = some_of_contains g from cf in
      let (m, target) = some_of_contains g to ct in
      rw (remove_edge_eq d g from to n m source target distinct)
        (remove_outgoing_panics d n to (ground arith))

  -- `edge_weight` is the error for a missing node, or the weight of the edge, if any.
  pub edge_weight-eq-weight_at :
      (g : Graph d) (i j : ℕ)
      → edge_weight d g i j ≡ (
          if contains_node d g i && contains_node d g j
          then ok (weight_at d g i j)
          else err node_not_found)
  unfolding edge_weight
  edge_weight-eq-weight_at g i j = ground arith

  pub new-IsGraph : IsGraph d (new d)
  new-IsGraph = record { nodes_valid = λ i n h. cc; loopless = λ i. refl; mirror = λ i j. refl }

  weight_to-default : (j : ℕ) → weight_to d (default d) j ≡ none
  unfolding weight_to
  weight_to-default j = ground (arith, d.edges.get-empty j)

  -- A new node gets the next free id; it has no edges, and those of the graph are as before.
  pub get_new_nodeid_lem :
      (g : Graph d)
      → IsGraph d g
      → let (g', id) = get_new_nodeid d g in
        (contains_node d g id ≡ false)
        × (contains_node d g' id ≡ true)
        × IsGraph d g'
        × ((i j : ℕ) → weight_at d g' i j ≡ weight_at d g i j)
  unfolding get_new_nodeid
  get_new_nodeid_lem g p =
      let at = get_elem?-snoc g.nodes (default d) in
      let beyond = get_elem?_ge_none g.nodes (length g.nodes) (omega arith) in
      let same = λ (i j : ℕ). new_weight g i j in
      (
        ground (arith, beyond),
        ground (arith, at (length g.nodes)),
        record {
          nodes_valid = λ i n h. ground (arith, at i, p.nodes_valid i n, default-IsNode d);
          loopless = λ i. same i i ∙ p.loopless i;
          mirror = λ i j. ground (arith, at j, same i j, p.mirror i j, d.edges.get-empty i, beyond);
        },
        same,
      )
    where
      new_weight :
          (g : Graph d) (i j : ℕ)
          → weight_at d (record { nodes = g.nodes ++ default d ∷ [] }) i j ≡ weight_at d g i j
      new_weight g i j = ground (
        arith,
        get_elem?-snoc g.nodes (default d) i,
        weight_to-default j,
        get_elem?_ge_none g.nodes (length g.nodes),
      )
