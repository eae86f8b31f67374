-- ===== src/Graph/Node/Choice.antt =====
-- core/src/graph.rs: what `random_neighbor` may return, and that it changes caches only.
use meritrank_rust.Prelude.{
  ℕ, ◌-◌, ◌<◌, ◌≡◌, refl, ◌∙◌, sym, ap, ◌⊎◌, inl, inr, List, Option, none, some, Bool, true, false,
  ◌&&◌, ltb, arith, Option-cases, Bool-cases, length, get_elem?, is_empty, is_some, length-append,
  length-map, get_elem?_lt_some, ltb→lt, ltb→le,
}
use meritrank_rust.Prelude.IntMap
use meritrank_rust.Deps.{Deps}
use meritrank_rust.Errors.{
  Result, ok, err, panic, no_fuel, graph_nodedata_pos_weighted_index,
  graph_nodedata_abs_weighted_index, internal_fatal_error,
}
use meritrank_rust.Graph.Node.{
  NodeData, keys, values, combined_weights, cached, get_node_at_index, positive_neighbor,
  any_neighbor, random_neighbor,
}
use meritrank_rust.Graph.Node.Laws.{IsNode}

module _ (d : Deps) where
  -- The node has an outgoing edge of that sign.
  abbrev pub HasEdge : NodeData d → ℕ → Bool → Type 0
  HasEdge n x true = is_some (d.edges.get x n.pos_edges) ≡ true
  HasEdge n x false = is_some (d.edges.get x n.neg_edges) ≡ true

  -- What a choice among the positive edges alone, or among all, may give: a neighbour by such an
  -- edge; nothing where there is none; or the refusal of the weights by the generator's crate.
  abbrev pub Chosen : NodeData d → Bool → Result (Option (ℕ × Bool)) → Type 0
  Chosen n positive_only (ok (some (x, b))) = HasEdge n x b × ((positive_only ≡ true) → (b ≡ true))
  Chosen n positive_only (ok none) =
      (is_empty (d.edges.entries n.pos_edges) ≡ true)
      × ((positive_only ≡ true) ⊎ (is_empty (d.edges.entries n.neg_edges) ≡ true))
  Chosen n positive_only (err e) =
      (e ≡ internal_fatal_error (some graph_nodedata_pos_weighted_index))
      ⊎ (e ≡ internal_fatal_error (some graph_nodedata_abs_weighted_index))
  Chosen n positive_only panic = ⊥
  Chosen n positive_only no_fuel = ⊥

  has_key :
      (m : d.edges.Map) (i x : ℕ)
      → get_elem? (keys d m) i ≡ some x
      → is_some (d.edges.get x m) ≡ true
  has_key m i x h =
      ap is_some (sym (d.edges.get-entries x m)) ∙ IntMap.get_of_key (d.edges.entries m) i x h

  drawn_positive :
      (n : NodeData d) (i : ℕ)
      → i < length (values d n.pos_edges)
      → (x : ℕ) × (get_elem? (keys d n.pos_edges) i ≡ some x)
  drawn_positive n i h = get_elem?_lt_some (keys d n.pos_edges) i (
      omega (
        arith,
        length-map (λ (e : ℕ × d.F). e.0) (d.edges.entries n.pos_edges),
        length-map (λ (e : ℕ × d.F). e.1) (d.edges.entries n.pos_edges),
      ))

  -- Used or just built, a distribution is that of the weights.
  fresh_of_cached :
      (c : Option d.rng.WeightedIndex) (ws : List d.F) (wi : d.rng.WeightedIndex)
      → ((v : d.rng.WeightedIndex) → c ≡ some v → d.rng.weighted_index ws ≡ some v)
      → cached d c ws ≡ some wi
      → d.rng.weighted_index ws ≡ some wi
  fresh_of_cached (some v) ws wi fresh h = fresh wi h
  fresh_of_cached none ws wi fresh h = h

  positive_neighbor-Chosen :
      (n : NodeData d) (s : d.rng.State) → IsNode d n → Chosen n true (positive_neighbor d n s).2
  unfolding positive_neighbor
  positive_neighbor-Chosen n s p = elim (Bool-cases (is_empty (d.edges.entries n.pos_edges))) [
    | inl e ↦ rw (e, positive_neighbor) (e, inl refl)
    | inr e ↦ elim (Option-cases (cached d n.pos_distr_cache (values d n.pos_edges))) [
      | inl c ↦ rw (e, positive_neighbor) (rw c (inl refl))
      | inr (wi, c) ↦
          let fresh = fresh_of_cached n.pos_distr_cache _ wi p.pos_fresh c in
          let (x, k) =
            drawn_positive n (d.rng.sample wi s).0
              (d.rng.sample-lt (values d n.pos_edges) wi s fresh) in
          rw (e, positive_neighbor)
            (rw c (rw k (has_key n.pos_edges (d.rng.sample wi s).0 x k, λ _. refl)))
    ]
  ]

  get_node_at_index-Chosen :
      (n : NodeData d) (i : ℕ)
      → i < length (combined_weights d n)
      → Chosen n false (get_node_at_index d n i)
  unfolding get_node_at_index
  get_node_at_index-Chosen n i h =
      let total = length-append (values d n.pos_edges) (values d n.neg_edges) in
      let kp = length-map (λ (e : ℕ × d.F). e.0) (d.edges.entries n.pos_edges) in
      let vp = length-map (λ (e : ℕ × d.F). e.1) (d.edges.entries n.pos_edges) in
      let kn = length-map (λ (e : ℕ × d.F). e.0) (d.edges.entries n.neg_edges) in
      let vn = length-map (λ (e : ℕ × d.F). e.1) (d.edges.entries n.neg_edges) in
      elim (Bool-cases (ltb i (length (keys d n.pos_edges)))) [
        | inl e ↦
            let (x, k) = get_elem?_lt_some (keys d n.pos_edges) i (ltb→lt _ _ e) in
            rw (e, get_node_at_index) (rw k (has_key n.pos_edges i x k, λ f. refl))
        | inr e ↦
            let j = i - length (keys d n.pos_edges) in
            let (x, k) = get_elem?_lt_some (keys d n.neg_edges) j (omega (arith, ltb→le _ _ e)) in
            rw (e, get_node_at_index) (rw k (has_key n.neg_edges j x k, λ f. cc))
      ]

  any_neighbor-Chosen :
      (n : NodeData d) (s : d.rng.State) → IsNode d n → Chosen n false (any_neighbor d n s).2
  unfolding any_neighbor
  any_neighbor-Chosen n s p =
      elim (Bool-cases
        (is_empty (d.edges.entries n.pos_edges) && is_empty (d.edges.entries n.neg_edges))) [
          | inl e ↦ rw (e, any_neighbor) (ground arith, inr (ground arith))
          | inr e ↦ elim (Option-cases (cached d n.abs_distr_cache (combined_weights d n))) [
            | inl c ↦ rw (e, any_neighbor) (rw c (inr refl))
            | inr (wi, c) ↦
                let fresh = fresh_of_cached n.abs_distr_cache _ wi p.abs_fresh c in
                rw (e, any_neighbor)
                  (rw c (
                    get_node_at_index-Chosen n (d.rng.sample wi s).0
                      (d.rng.sample-lt (combined_weights d n) wi s fresh)))
          ]
        ]

  -- On a well-formed node, `random_neighbor` returns a neighbour by an edge of the sign reported,
  -- a positive one if only those are asked for; or nothing, where there is no edge to choose from;
  -- or the error that the weights are unfit. Its other errors and a panic do not occur.
  pub random_neighbor-Chosen :
      (n : NodeData d) (positive_only : Bool) (s : d.rng.State)
      → IsNode d n
      → Chosen n positive_only (random_neighbor d n positive_only s).2
  unfolding random_neighbor
  random_neighbor-Chosen n true s p = positive_neighbor-Chosen n s p
  random_neighbor-Chosen n false s p = any_neighbor-Chosen n s p

  -- Two nodes with the same edges and sums: they may differ in what is cached.
  pub record SameEdges (m n : NodeData d) : Type 0 where
    pub pos : m.pos_edges ≡ n.pos_edges
    pub neg : m.neg_edges ≡ n.neg_edges
    pub inbound : m.inbound_edges ≡ n.inbound_edges
    pub pos_total : m.pos_sum ≡ n.pos_sum
    pub neg_total : m.neg_sum ≡ n.neg_sum

  abbrev Kept : NodeData d → NodeData d → Type 0
  Kept m n = IsNode d m × SameEdges m n

  Kept-self : (n : NodeData d) → IsNode d n → Kept n n
  Kept-self n p =
      (p, record { pos = refl; neg = refl; inbound = refl; pos_total = refl; neg_total = refl })

  cache_pos-Kept :
      (n : NodeData d) (wi : d.rng.WeightedIndex)
      → d.rng.weighted_index (values d n.pos_edges) ≡ some wi
      → IsNode d n
      → Kept (record n { pos_distr_cache = some wi }) n
  cache_pos-Kept n wi fresh p = (
    record { exclusive = p.exclusive; abs_fresh = p.abs_fresh; pos_fresh = λ v e. fresh ∙ e },
    record { pos = refl; neg = refl; inbound = refl; pos_total = refl; neg_total = refl },
  )

  cache_abs-Kept :
      (n : NodeData d) (wi : d.rng.WeightedIndex)
      → d.rng.weighted_index (combined_weights d n) ≡ some wi
      → IsNode d n
      → Kept (record n { abs_distr_cache = some wi }) n
  cache_abs-Kept n wi fresh p = (
    record { exclusive = p.exclusive; abs_fresh = λ v e. fresh ∙ e; pos_fresh = p.pos_fresh },
    record { pos = refl; neg = refl; inbound = refl; pos_total = refl; neg_total = refl },
  )

  positive_neighbor-Kept :
      (n : NodeData d) (s : d.rng.State) → IsNode d n → Kept (positive_neighbor d n s).0 n
  unfolding positive_neighbor
  positive_neighbor-Kept n s p = elim (Bool-cases (is_empty (d.edges.entries n.pos_edges))) [
    | inl e ↦ rw (e, positive_neighbor) (Kept-self n p)
    | inr e ↦ elim (Option-cases (cached d n.pos_distr_cache (values d n.pos_edges))) [
      | inl c ↦ rw (e, positive_neighbor) (rw c (Kept-self n p))
      | inr (wi, c) ↦
          rw (e, positive_neighbor)
            (rw c (cache_pos-Kept n wi (fresh_of_cached n.pos_distr_cache _ wi p.pos_fresh c) p))
    ]
  ]

  any_neighbor-Kept :
      (n : NodeData d) (s : d.rng.State) → IsNode d n → Kept (any_neighbor d n s).0 n
  unfolding any_neighbor
  any_neighbor-Kept n s p =
      elim (Bool-cases
        (is_empty (d.edges.entries n.pos_edges) && is_empty (d.edges.entries n.neg_edges))) [
          | inl e ↦ rw (e, any_neighbor) (Kept-self n p)
          | inr e ↦ elim (Option-cases (cached d n.abs_distr_cache (combined_weights d n))) [
            | inl c ↦ rw (e, any_neighbor) (rw c (Kept-self n p))
            | inr (wi, c) ↦
                rw (e, any_neighbor)
                  (rw c
                    (cache_abs-Kept n wi (fresh_of_cached n.abs_distr_cache _ wi p.abs_fresh c) p))
          ]
        ]

  -- The choice of a neighbour changes the caches alone, and leaves them fresh.
  pub random_neighbor-IsNode :
      (n : NodeData d) (positive_only : Bool) (s : d.rng.State)
      → IsNode d n
      → IsNode d (random_neighbor d n positive_only s).0
        × SameEdges (random_neighbor d n positive_only s).0 n
  unfolding random_neighbor
  random_neighbor-IsNode n true s p = positive_neighbor-Kept n s p
  random_neighbor-IsNode n false s p = any_neighbor-Kept n s p
