-- ===== src/Graph/Walks/Draws.antt =====
-- core/src/graph.rs: what `generate_walk_segment` draws.
use meritrank_rust.Prelude.{
  ℕ, zero, suc, ◌≤◌, ◌≡◌, refl, sym, ◌∙◌, ap, ◌⊎◌, inl, inr, [], ◌∷◌, ◌++◌, Option, none, some,
  Bool, true, false, ◌||◌, if◌then◌else◌, ◌==◌, is_some, arith, length, last?, Option-cases,
  Bool-cases, get_elem?-set,
}
use meritrank_rust.Deps.{Deps}
use meritrank_rust.Errors.{
  Result, ok, err, panic, no_fuel, MeritRankError, internal_fatal_error,
  graph_nodedata_pos_weighted_index, graph_nodedata_abs_weighted_index,
}
use meritrank_rust.RandomWalk.{RandomWalk, push}
use meritrank_rust.RandomWalk.Shape.{apart, push_positive, push_negative}
use meritrank_rust.Graph.Node.{NodeData, random_neighbor}
use meritrank_rust.Graph.Node.Choice.{
  Chosen, SameEdges, random_neighbor-Chosen, random_neighbor-IsNode,
}
use meritrank_rust.Graph.Edges.{Graph, get_node_data, put}
use meritrank_rust.Graph.Edges.Invariant.{IsGraph}
use meritrank_rust.Graph.Walks.{
  Drawing, stepped, follow, chosen, draw, round, go_on, rounds, started, finished,
  generate_walk_segment,
}
use meritrank_rust.Graph.Walks.Trail.{
  sign_at, sign_at_of_edge, sign_at_target, SameGraph, SameGraph-refl, SameGraph-trans,
  SameGraph-IsGraph, SameGraph-put, Steps, end_of, first_negative, negatives, visited, end_of-snoc,
  visited-snoc, negatives-snoc, first_negative-snoc_positive, first_negative-snoc_negative,
  last-visited, Trail, Trail-snoc,
}

-- The generator's crate refused the weights.
abbrev pub IsUnfit : MeritRankError → Type 0
IsUnfit e =
    (e ≡ internal_fatal_error (some graph_nodedata_pos_weighted_index))
    ⊎ (e ≡ internal_fatal_error (some graph_nodedata_abs_weighted_index))

module _ (d : Deps) (alpha : d.F) (g₀ : Graph d) (start : ℕ) (positive_only : Bool)
    (whole : IsGraph d g₀) where
  record Inv (l : Drawing d) (steps : Steps) : Type 0 where
    same : SameGraph d l.graph g₀
    trail : Trail d g₀ start steps
    nodes : l.segment.nodes ≡ visited steps
    here : l.node ≡ end_of start steps
    mark : l.segment.negative_segment_start ≡ first_negative steps
    mode : negatives steps ≡ (if l.negative_continuation_mode then 1 else 0)
    restricted : positive_only ≡ true → l.negative_continuation_mode ≡ false
    present : is_some (get_node_data d l.graph l.node) ≡ true

  abbrev After : Drawing d × Result Bool → Type 0
  After (l, ok b) = (steps : Steps) × Inv l steps
  After (l, err e) = SameGraph d l.graph g₀ × IsUnfit e
  After (l, panic) = ⊥
  After (l, no_fuel) = ⊥

  -- The next node is none that the walk stands on.
  step_apart :
      (l : Drawing d) (steps : Steps) (x : ℕ)
      → Inv l steps
      → (l.node == x) ≡ false
      → apart (last? l.segment.nodes) (some x) ≡ true
  step_apart l steps x v h = elim (last-visited start steps) [
    | inl e ↦ rw (v.nodes ∙ e) refl
    | inr e ↦ ground (arith, v.nodes, v.here, e)
  ]

  unmarked :
      (l : Drawing d)
      → ((l.negative_continuation_mode || positive_only) ≡ true → false ≡ true)
      → (l.negative_continuation_mode ≡ false) × (positive_only ≡ false)
  unmarked l free = elim (Bool-cases (l.negative_continuation_mode || positive_only)) [
    | inl e ↦ absurd (ground (arith, free e))
    | inr e ↦ (ground arith, ground arith)
  ]

  stepped-After :
      (l : Drawing d) (steps : Steps) (x : ℕ) (b : Bool)
      → Inv l steps
      → sign_at d g₀ l.node x ≡ some b
      → (l.node == x) ≡ false
      → is_some (get_node_data d l.graph x) ≡ true
      → ((l.negative_continuation_mode || positive_only) ≡ true → b ≡ true)
      → After (stepped d l x b (push l.segment x b))
  unfolding stepped
  stepped-After l steps x true v edge distinct there free =
      rw (push_positive l.segment x (step_apart l steps x v distinct)) (
        steps ++ (x, true) ∷ [],
        record {
          same = v.same;
          trail = Trail-snoc d g₀ start x true steps v.trail (rw (← v.here) edge);
          nodes = ap (λ ns. ns ++ x ∷ []) v.nodes ∙ sym (visited-snoc x true steps);
          here = sym (end_of-snoc start x true steps);
          mark = v.mark ∙ sym (first_negative-snoc_positive x steps);
          mode = omega (arith, negatives-snoc x true steps, v.mode);
          restricted = v.restricted;
          present = there;
        },
      )
  stepped-After l steps x false v edge distinct there free =
      let (calm, loose) = unmarked l free in
      let none_yet : negatives steps ≡ 0 = v.mode ∙ ap (λ c. if c then 1 else 0) calm in
      let (clear, marked) = first_negative-snoc_negative x steps none_yet in
      rw (push_negative l.segment x (step_apart l steps x v distinct) (v.mark ∙ clear)) (
        rw calm (
          steps ++ (x, false) ∷ [],
          record {
            same = v.same;
            trail = Trail-snoc d g₀ start x false steps v.trail (rw (← v.here) edge);
            nodes = ap (λ ns. ns ++ x ∷ []) v.nodes ∙ sym (visited-snoc x false steps);
            here = sym (end_of-snoc start x false steps);
            mark = ap (λ ns. some (length ns)) v.nodes ∙ sym marked;
            mode = omega (arith, negatives-snoc x false steps, none_yet);
            restricted = λ p. cc;
            present = there;
          },
        ))

  follow-After :
      (l : Drawing d) (steps : Steps) (n : NodeData d) (choice : Result (Option (ℕ × Bool)))
      → Inv l steps
      → get_node_data d l.graph l.node ≡ some n
      → Chosen d n (l.negative_continuation_mode || positive_only) choice
      → After (follow d l choice)
  unfolding follow
  follow-After l steps n (ok none) v found c = (steps, v)
  follow-After l steps n (ok (some (x, b))) v found c =
      let valid = SameGraph-IsGraph d l.graph g₀ v.same whole in
      let edge =
        sign_at_of_edge d l.graph l.node x b n found (valid.nodes_valid l.node n found) c.0 in
      let (distinct, there) = sign_at_target d l.graph l.node x b valid edge in
      stepped-After l steps x b v (sym (v.same.signs l.node x) ∙ edge) distinct there c.1
  follow-After l steps n (err e) v found c = (v.same, c)
  follow-After l steps n panic v found c = c
  follow-After l steps n no_fuel v found c = c

  Chosen-same :
      (n n' : NodeData d) (b : Bool) (choice : Result (Option (ℕ × Bool)))
      → SameEdges d n' n
      → Chosen d n b choice
      → Chosen d n' b choice
  Chosen-same n n' b (ok none) q c = ground (arith, q.pos, q.neg)
  Chosen-same n n' b (ok (some (x, true))) q c = (ground (arith, q.pos), c.1)
  Chosen-same n n' b (ok (some (x, false))) q c = (ground (arith, q.neg), c.1)
  Chosen-same n n' b (err e) q c = c
  Chosen-same n n' b panic q c = c
  Chosen-same n n' b no_fuel q c = c

  -- A round that goes on or breaks keeps the invariant; the one error is an unfit distribution.
  round-After :
      (l : Drawing d) (steps : Steps) → Inv l steps → After (round d alpha positive_only l)
  unfolding round draw chosen
  round-After l steps v = elim (Option-cases (get_node_data d l.graph l.node)) [
    | inl e ↦ absurd (ground (arith, v.present))
    | inr (n, e) ↦
        rw (e, round)
          (elim (Bool-cases (d.lt alpha (d.rng.random l.state).0)) [
            | inl stop ↦
                rw (stop, draw)
                  (
                    steps,
                    record {
                      same = v.same;
                      trail = v.trail;
                      nodes = v.nodes;
                      here = v.here;
                      mark = v.mark;
                      mode = v.mode;
                      restricted = v.restricted;
                      present = v.present;
                    },
                  )
            | inr go ↦
                let only = l.negative_continuation_mode || positive_only in
                let s = (d.rng.random l.state).1 in
                let n' = (random_neighbor d n only s).0 in
                let s' = (random_neighbor d n only s).1 in
                let choice = (random_neighbor d n only s).2 in
                let valid = (SameGraph-IsGraph d l.graph g₀ v.same whole).nodes_valid l.node n e in
                let (kept, edges) = random_neighbor-IsNode d n only s valid in
                let back = put d l.graph l.node n' in
                let written = get_elem?-set l.graph.nodes l.node l.node n n' e in
                rw (go, draw)
                  (follow-After (record l { graph = back; state = s' }) steps n' choice
                    (record {
                      same =
                          SameGraph-trans d back l.graph g₀
                            (SameGraph-put d l.graph l.node n n' e kept edges) v.same;
                      trail = v.trail;
                      nodes = v.nodes;
                      here = v.here;
                      mark = v.mark;
                      mode = v.mode;
                      restricted = v.restricted;
                      present = ground (arith, written);
                    })
                    (ground (arith, written))
                    (Chosen-same n n' only choice edges (random_neighbor-Chosen d n only s valid)))
          ])
  ]

  abbrev Ends : Drawing d × Result (Unit {0}) → Type 0
  Ends (l, ok b) = (steps : Steps) × Inv l steps
  Ends (l, err e) = SameGraph d l.graph g₀ × IsUnfit e
  Ends (l, panic) = ⊥
  Ends (l, no_fuel) = SameGraph d l.graph g₀

  go_on-Ends :
      (r : Drawing d × Result Bool) (rest : Drawing d → Drawing d × Result (Unit {0}))
      → After r
      → ((l : Drawing d) (steps : Steps) → Inv l steps → Ends (rest l))
      → Ends (go_on d r rest)
  unfolding go_on
  go_on-Ends (l, ok true) rest (steps, v) k = k l steps v
  go_on-Ends (l, ok false) rest (steps, v) k = (steps, v)
  go_on-Ends (l, err e) rest a k = a
  go_on-Ends (l, panic) rest a k = a
  go_on-Ends (l, no_fuel) rest a k = absurd a

  rounds-Ends :
      (fuel : ℕ) (l : Drawing d) (steps : Steps)
      → Inv l steps
      → Ends (rounds d fuel alpha positive_only l)
  unfolding rounds
  rounds-Ends zero l steps v = v.same
  rounds-Ends (suc fuel) l steps v =
      go_on-Ends (round d alpha positive_only l) (rounds d fuel alpha positive_only)
        (round-After l steps v) (rounds-Ends fuel)

  -- What a drawn segment is: the nodes of a trail of the graph, marked at its first negative step,
  -- of which there is at most one, and none where only positive edges are to be followed.
  pub record IsDrawn (segment : RandomWalk) (steps : Steps) : Type 0 where
    pub trail : Trail d g₀ start steps
    pub nodes : segment.nodes ≡ visited steps
    pub mark : segment.negative_segment_start ≡ first_negative steps
    pub one_negative : negatives steps ≤ (if positive_only then 0 else 1)

  abbrev pub Draws : Result RandomWalk → Type 0
  Draws (ok segment) = (steps : Steps) × IsDrawn segment steps
  Draws (err e) = IsUnfit e
  Draws panic = ⊥
  Draws no_fuel = Unit {0}

  finished-Draws :
      (r : Drawing d × Result (Unit {0}))
      → Ends r
      → SameGraph d (finished d r).0 g₀ × Draws (finished d r).2
  unfolding finished
  finished-Draws (l, ok b) (steps, v) = (
    v.same,
    (
      steps,
      record {
        trail = v.trail;
        nodes = v.nodes;
        mark = v.mark;
        one_negative = ground (arith, v.mode, v.restricted);
      },
    ),
  )
  finished-Draws (l, err e) r = r
  finished-Draws (l, panic) r = absurd r
  finished-Draws (l, no_fuel) r = (r, tt)

  -- From a node of a well-formed graph, `generate_walk_segment` changes nothing but cached
  -- distributions; it returns the nodes of a trail along edges of the graph, marked at its first
  -- negative step, with at most one negative step and none where only positive edges are allowed,
  -- or else the error that the weights are unfit to draw by. No other error and no panic is
  -- possible; `no_fuel` is left open here.
  pub generate_walk_segment-Draws :
      (fuel : ℕ) (s : d.rng.State)
      → is_some (get_node_data d g₀ start) ≡ true
      → let r = generate_walk_segment d fuel g₀ s start alpha positive_only in
        SameGraph d r.0 g₀ × Draws r.2
  unfolding generate_walk_segment
  generate_walk_segment-Draws fuel s there = finished-Draws _ (
      rounds-Ends fuel (started d g₀ s start) [] (record {
        same = SameGraph-refl d g₀;
        trail = tt;
        nodes = refl;
        here = refl;
        mark = refl;
        mode = refl;
        restricted = λ p. refl;
        present = there;
      }))
