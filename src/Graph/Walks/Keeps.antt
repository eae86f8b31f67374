-- ===== src/Graph/Walks/Keeps.antt =====
-- core/src/graph.rs: what drawing leaves unchanged. The graph keeps its edges, and a walk that is
-- continued keeps its nodes.
use meritrank_rust.Prelude.{
  ℕ, zero, suc, ◌≡◌, refl, sym, subst, ap, inl, inr, List, [], ◌∷◌, ◌++◌, Option, none, some, Bool,
  true, false, is_some, arith, last?, length, Option-cases, Bool-cases,
}
use mathlib.Core.List.{append-nil}
use meritrank_rust.Deps.{Deps}
use meritrank_rust.Errors.{
  Result, ok, err, panic, no_fuel, fatal, graph_generate_walk_get_node_data,
}
use meritrank_rust.RandomWalk.{RandomWalk, push, extend, repeats, mark_step, both_some}
use meritrank_rust.Graph.Node.{random_neighbor}
use meritrank_rust.Graph.Node.Choice.{random_neighbor-IsNode}
use meritrank_rust.Graph.Edges.{Graph, get_node_data}
use meritrank_rust.Graph.Edges.Invariant.{IsGraph}
use meritrank_rust.Graph.Walks.{
  Drawing, round, go_on, rounds, started, finished, generate_walk_segment, extended, continue_walk,
  forced, forced_step, extend_walk_in_case_of_edge_deletion,
}
use meritrank_rust.Graph.Walks.Trail.{SameGraph, SameGraph-refl, SameGraph-put}
use meritrank_rust.Graph.Walks.Draws.{generate_walk_segment-Draws}

-- The nodes of a walk are the first nodes of another.
abbrev pub Continues : RandomWalk → RandomWalk → Type 0
Continues w' w = (more : List ℕ) × (w'.nodes ≡ w.nodes ++ more)

pub Continues-self : (w : RandomWalk) → Continues w w
Continues-self w = ([], sym (append-nil w.nodes))

mark_step-nodes : (w : RandomWalk) (index : ℕ) (b : Bool) → (mark_step w index b).0.nodes ≡ w.nodes
unfolding mark_step
mark_step-nodes w index true = refl
mark_step-nodes w index false = ground arith

pub push-Continues : (w : RandomWalk) (x : ℕ) (b : Bool) → Continues (push w x b).0 w
unfolding push
push-Continues w x b = elim (Bool-cases (repeats (last? w.nodes) x)) [
  | inl e ↦ rw (e, push) (Continues-self w)
  | inr e ↦ rw (e, push) (x ∷ [], mark_step-nodes _ (length w.nodes) b)
]

pub extend-Continues : (w s : RandomWalk) → Continues (extend w s).0 w
unfolding extend
extend-Continues w s =
    elim (Bool-cases (both_some w.negative_segment_start s.negative_segment_start)) [
      | inl e ↦ rw (e, extend) (Continues-self w)
      | inr e ↦ rw (e, extend) (s.nodes, refl)
    ]

module _ (d : Deps) where
  rounds_stuck :
      (fuel : ℕ) (alpha : d.F) (positive_only : Bool) (l : Drawing d)
      → get_node_data d l.graph l.node ≡ none
      → rounds d (suc fuel) alpha positive_only l ≡ (l, fatal graph_generate_walk_get_node_data)
  unfolding rounds go_on round
  rounds_stuck fuel alpha positive_only l absent =
      let stuck : round d alpha positive_only l ≡ (l, fatal graph_generate_walk_get_node_data) =
        rw (absent, round) refl in
      ap (λ r. go_on d r (rounds d fuel alpha positive_only)) stuck

  generate_walk_segment-SameGraph :
      (fuel : ℕ) (g : Graph d) (s : d.rng.State) (start : ℕ) (alpha : d.F) (positive_only : Bool)
      → IsGraph d g
      → SameGraph d (generate_walk_segment d fuel g s start alpha positive_only).0 g
  unfolding generate_walk_segment rounds finished
  generate_walk_segment-SameGraph zero g s start alpha positive_only p = SameGraph-refl d g
  generate_walk_segment-SameGraph (suc fuel) g s start alpha positive_only p =
      elim (Bool-cases (is_some (get_node_data d g start))) [
        | inl e ↦ (generate_walk_segment-Draws d alpha g start positive_only p (suc fuel) s e).0
        | inr e ↦
            let l = started d g s start in
            let absent : get_node_data d g start ≡ none = ground arith in
            let stuck = rounds_stuck fuel alpha positive_only l absent in
            subst (λ r. SameGraph d (finished d r).0 g) (sym stuck) (SameGraph-refl d g)
      ]

  extended-Keeps :
      (g : Graph d) (walk : RandomWalk) (r : Graph d × d.rng.State × Result RandomWalk)
      → SameGraph d r.0 g
      → SameGraph d (extended d walk r).0 g × Continues (extended d walk r).2.0 walk
  unfolding extended
  extended-Keeps g walk (g', s, ok segment) h = (h, extend-Continues walk segment)
  extended-Keeps g walk (g', s, err e) h = (h, Continues-self walk)
  extended-Keeps g walk (g', s, panic) h = (h, Continues-self walk)
  extended-Keeps g walk (g', s, no_fuel) h = (h, Continues-self walk)

  -- On a well-formed graph, `continue_walk` changes nothing of the graph but cached distributions,
  -- and the nodes of the walk stay the first nodes of the walk that it leaves, also where it
  -- returns an error.
  pub continue_walk-Keeps :
      (fuel : ℕ) (g : Graph d) (s : d.rng.State) (walk : RandomWalk) (alpha : d.F)
      → IsGraph d g
      → SameGraph d (continue_walk d fuel g s walk alpha).0 g
        × Continues (continue_walk d fuel g s walk alpha).2.0 walk
  unfolding continue_walk
  continue_walk-Keeps fuel g s walk alpha p = elim (Option-cases (last? walk.nodes)) [
    | inl e ↦ rw (e, continue_walk) (SameGraph-refl d g, Continues-self walk)
    | inr (x, e) ↦
        rw (e, continue_walk)
          (extended-Keeps g walk (generate_walk_segment d fuel g s x alpha _)
            (generate_walk_segment-SameGraph fuel g s x alpha _ p))
  ]

  forced-Continues :
      (walk : RandomWalk) (r : Result (Option (ℕ × Bool))) → Continues (forced d walk r).0 walk
  unfolding forced
  forced-Continues walk (ok none) = Continues-self walk
  forced-Continues walk (ok (some (x, b))) = push-Continues walk x b
  forced-Continues walk (err e) = Continues-self walk
  forced-Continues walk panic = Continues-self walk
  forced-Continues walk no_fuel = Continues-self walk

  -- On a well-formed graph, `extend_walk_in_case_of_edge_deletion` changes nothing of the graph
  -- but cached distributions, and the nodes of the walk stay the first nodes of the walk that it
  -- leaves, also where it returns an error or panics.
  pub extend_walk_in_case_of_edge_deletion-Keeps :
      (g : Graph d) (s : d.rng.State) (walk : RandomWalk)
      → IsGraph d g
      → SameGraph d (extend_walk_in_case_of_edge_deletion d g s walk).0 g
        × Continues (extend_walk_in_case_of_edge_deletion d g s walk).2.0 walk
  unfolding extend_walk_in_case_of_edge_deletion forced_step
  extend_walk_in_case_of_edge_deletion-Keeps g s walk p = elim (Option-cases (last? walk.nodes)) [
    | inl e ↦ rw (e, extend_walk_in_case_of_edge_deletion) (SameGraph-refl d g, Continues-self walk)
    | inr (x, e) ↦ elim (Option-cases (get_node_data d g x)) [
      | inl f ↦
          rw (e, extend_walk_in_case_of_edge_deletion)
            (rw f (SameGraph-refl d g, Continues-self walk))
      | inr (n, f) ↦
          let only = is_some walk.negative_segment_start in
          let (kept, same) = random_neighbor-IsNode d n only s (p.nodes_valid x n f) in
          rw (e, extend_walk_in_case_of_edge_deletion)
            (rw f (
              SameGraph-put d g x n (random_neighbor d n only s).0 f kept same,
              forced-Continues walk (random_neighbor d n only s).2,
            ))
    ]
  ]
