-- ===== src/Rank/Updates.antt =====
-- core/src/rank.rs: `set_edge`, and how it redraws the walks that the change of an edge affects.
pub mod Graphs
pub mod Tiny
use meritrank_rust.Prelude.{
  ℕ, ◌+◌, List, Option, none, some, Bool, true, false, not, ◌&&◌, ◌||◌, if◌then◌else◌, ◌==◌,
  unwrap_or, head?, is_some,
}
use meritrank_rust.Deps.{Deps}
use meritrank_rust.Errors.{
  Result, ok, err, panic, no_fuel, fatal, ok_or, self_reference_not_allowed, internal_fatal_error,
  rank_set_edge_get_node_data_src, rank_set_edge_get_walk, rank_set_edge_first_node,
  rank_set_edge_get_walk_mut,
}
use meritrank_rust.RandomWalk.{push}
use meritrank_rust.Graph.Node.{NodeData, abs_sum}
use meritrank_rust.Graph.Edges
use meritrank_rust.Graph.Edges.{get_node_data, edge_weight, remove_edge}
use meritrank_rust.Graph.Walks.{continue_walk, extend_walk_in_case_of_edge_deletion}
use meritrank_rust.WalkStorage.{
  find_affected_walkids, split_and_remove_from_bookkeeping, update_walk_bookkeeping,
}
use meritrank_rust.Rank.State.{
  M, bind_result, ◌>>=◌, ◌>>◌, return, lift, when, for_each, on_walks, on_graph, walk_at, on_walk,
  draw_on_walk, count_walk, uncount_walk,
}
use meritrank_rust.Rank.Checks.{run_checks}

module _ (d : Deps) where
  -- `x.abs() > EPSILON` and `x.abs() <= EPSILON`
  abbrev pub large : d.F → Bool
  large x = d.lt d.epsilon (d.abs x)

  abbrev pub small : d.F → Bool
  small x = d.lt (d.abs x) d.epsilon || d.eq (d.abs x) d.epsilon

  -- `.expect("Node should exist!").unwrap_or(0.0)`
  abbrev pub expected : Result (Option d.F) → Result d.F
  expected (ok o) = ok (unwrap_or o d.zero)
  expected (err e) = panic
  expected panic = panic
  expected no_fuel = no_fuel

  unfoldable pub old_weight : ℕ → ℕ → M d d.F
  old_weight src dest w = (w, expected (edge_weight d w.mr.graph src dest))

  unfoldable pub draw_random : M d d.F
  draw_random w = (record w { state = (d.rng.random w.state).1 }, ok (d.rng.random w.state).0)

  -- In the positive segment a walk picks among all edges, in the negative among the positive ones.
  unfoldable pub step_probabilities : NodeData d → d.F → d.F × d.F
  step_probabilities n new_weight = (
    d.div (d.abs new_weight) (d.add (abs_sum d n) (d.abs new_weight)),
    if d.lt d.zero new_weight then d.div new_weight (d.add n.pos_sum new_weight) else d.zero,
  )

  unfoldable pub recalc_probability : Bool → ℕ → d.F → M d (Option (d.F × d.F))
  unfolding step_probabilities
  recalc_probability deletion_mode src new_weight w =
      if deletion_mode then (w, ok none) else elim (get_node_data d w.mr.graph src) [
        | none ↦ (w, fatal rank_set_edge_get_node_data_src)
        | some n ↦ (w, ok (some (step_probabilities n new_weight)))
      ]

  unfoldable pub change_edge : Bool → ℕ → ℕ → d.F → M d (Unit {0})
  change_edge true src dest new_weight = on_graph (λ g. remove_edge d g src dest) >>= λ _. return tt
  change_edge false src dest new_weight = on_graph (λ g. Edges.set_edge d g src dest new_weight)

  unfoldable pub affected_walks : ℕ → ℕ → Option (d.F × d.F) → M d (List (ℕ × ℕ))
  affected_walks src dest probs w =
      let r = find_affected_walkids d w.mr.walks src (some dest) probs w.state in
      (record w { state = r.0 }, r.1)

  -- The first step of the new end of a walk; true if the walk is to end there.
  unfoldable pub redraw_step : Bool → ℕ → d.F → ℕ → M d Bool
  unfolding draw_random
  redraw_step true dest new_weight walk_id = do
    draw_on_walk rank_set_edge_get_walk_mut walk_id (extend_walk_in_case_of_edge_deletion d)
    return false
  redraw_step false dest new_weight walk_id = do
    draw ← draw_random
    λ w.
        (if d.lt draw w.mr.alpha
          then bind_result
              (on_walk rank_set_edge_get_walk_mut walk_id
                (λ walk.
                  push walk dest (is_some walk.negative_segment_start || d.lt d.zero new_weight))
                w)
              (λ _. return false)
          else (w, ok true))

  -- One round of the loop of `set_edge_`.
  unfoldable pub revise_walk : ℕ → Bool → ℕ → d.F → ℕ × ℕ → M d (Unit {0})
  revise_walk fuel deletion_mode dest new_weight (walk_id, visit_pos) = do
    walk ← walk_at rank_set_edge_get_walk walk_id
    ego ← lift (ok_or (head? walk.nodes) (internal_fatal_error (some rank_set_edge_first_node)))
    uncount_walk ego walk
    on_walks (λ st. split_and_remove_from_bookkeeping st walk_id (visit_pos + 1))
    walk_at rank_set_edge_get_walk_mut walk_id >>= λ _. return tt
    skip_continuation ← redraw_step deletion_mode dest new_weight walk_id
    when (not skip_continuation) (λ w.
        draw_on_walk rank_set_edge_get_walk_mut walk_id
          (λ g s walk. continue_walk d fuel g s walk w.mr.alpha) w)
    walk ← walk_at rank_set_edge_get_walk_mut walk_id
    count_walk ego walk
    on_walks (λ st. (update_walk_bookkeeping st walk_id (visit_pos + 1), ok tt))

  -- The part of `set_edge_` behind the test for an unchanged weight.
  unfoldable pub apply_edge : Bool → ℕ → ℕ → ℕ → d.F → M d (Unit {0})
  apply_edge checks fuel src dest new_weight = do
    probs ← recalc_probability (small new_weight) src new_weight
    change_edge (small new_weight) src dest new_weight
    affected ← affected_walks src dest probs
    for_each affected (revise_walk fuel (small new_weight) dest new_weight)
    run_checks d checks

  -- `set_edge_`
  unfoldable pub set_edge_inner : Bool → ℕ → ℕ → ℕ → d.F → M d (Unit {0})
  set_edge_inner checks fuel src dest new_weight =
      if src == dest
      then lift (err self_reference_not_allowed)
      else old_weight src dest >>= λ old.
          if d.eq old new_weight then return tt else apply_edge checks fuel src dest new_weight

  unfoldable pub set_edge : Bool → ℕ → ℕ → ℕ → d.F → M d (Unit {0})
  set_edge checks fuel src dest new_weight = old_weight src dest >>= λ old.
      if d.is_nan new_weight || d.is_infinite new_weight then lift panic else (do
        when (large old && large new_weight) (set_edge_inner checks fuel src dest d.zero)
        set_edge_inner checks fuel src dest new_weight)
