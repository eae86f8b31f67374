-- ===== src/Tests/RankTests.antt =====
-- The walks and counters of core/src/rank.rs at the graph of Tests/GraphTests.
use meritrank_rust.Prelude.{◌≡◌, refl, true, false, [], ◌∷◌}
use meritrank_rust.Errors.{ok, panic}
use meritrank_rust.Graph.Edges.Invariant.{IsGraph}
use meritrank_rust.Graph.Walks.Trail.{SameGraph, SameGraph-IsGraph}
use meritrank_rust.Counter.{
  decrement_counts, decrement_unique_counts, increment_counts, increment_unique_counts,
}
use meritrank_rust.RandomWalk.{push, extend, split_from, negative_subsegment, positive_subsegment}
use meritrank_rust.Graph.Node.{
  abs_sum, weight_to, random_neighbor, insert_outgoing, remove_outgoing,
}
use meritrank_rust.Graph.Edges
use meritrank_rust.Graph.Edges.{get_new_nodeid, edge_weight, add_edge, remove_edge}
use meritrank_rust.Graph.Walks.{
  extend_walk_in_case_of_edge_deletion, continue_walk, generate_walk_segment,
}
use meritrank_rust.WalkStorage.{
  find_affected_walkids, decide_skip_invalidation_on_edge_deletion,
  decide_skip_invalidation_on_edge_addition, split_and_remove_from_bookkeeping, forget_cut,
  forget_visit, revert_hits, clear_block_for_ego, ensure_block_for_ego, assert_visits_consistency,
  clear_slot, note_visit, note_visits, update_walk_bookkeeping,
}
use meritrank_rust.Rank.Checks.{assert_counters_consistency_after_edge_addition, run_checks}
use meritrank_rust.Rank.State
use meritrank_rust.Rank.State.{World}
use meritrank_rust.Rank.Calculate.{calculate, calculate_walk, clear_block}
use meritrank_rust.Rank.Updates.{
  set_edge, old_weight, set_edge_inner, apply_edge, recalc_probability, change_edge, affected_walks,
  revise_walk, redraw_step, draw_random, step_probabilities,
}
use meritrank_rust.Rank.Runs.{Ends, Ends-ok}
use meritrank_rust.Rank.Exact.{IsExact}
use meritrank_rust.Rank.Exact.Blocks.{empty-IsExact}
use meritrank_rust.Rank.Exact.Calculate.{drawing_failure, calculate-IsExact}
use meritrank_rust.Rank.Exact.SetEdge.Whole.{rank_set_edge-IsExact}
use meritrank_rust.Rank.Graphs.{calculate-SameGraph}
use meritrank_rust.Rank.Updates.Graphs.{rank_set_edge-IsGraph}
use meritrank_rust.Rank.Updates.Tiny.{set_edge_tiny_panics}
use meritrank_rust.Tests.Concrete.{deps, pos, negsuc}
use meritrank_rust.Tests.GraphTests.{sample_graph, sample-IsGraph}

unfoldable pub machine : Unit {0}
unfolding State.new calculate State.◌>>=◌ State.on_walks clear_block clear_block_for_ego
    ensure_block_for_ego State.for_each State.ids_from calculate_walk State.on_walk push
    State.draw_on_walk continue_walk generate_walk_segment Edges.set_edge get_new_nodeid edge_weight
    weight_to increment_counts increment_unique_counts add_edge remove_edge random_neighbor
    insert_outgoing remove_outgoing extend negative_subsegment positive_subsegment
    assert_counters_consistency_after_edge_addition run_checks State.count_hits State.count_walk
    State.drawn_walk State.walk_at State.when assert_visits_consistency clear_slot note_visit
    note_visits update_walk_bookkeeping
machine = tt

-- Two walks for each ego, and a tape of draws.
abbrev start : World deps
start = record { mr = State.new deps sample_graph 2; state = 1 ∷ 0 ∷ 1 ∷ 0 ∷ 1 ∷ 0 ∷ [] }

abbrev calculated : World deps
calculated = (calculate deps true 9 0 start).0

start-IsGraph : IsGraph deps start.mr.graph
unfolding machine
start-IsGraph = sample-IsGraph

calculate-SameGraph_example : SameGraph deps calculated.mr.graph start.mr.graph
calculate-SameGraph_example = calculate-SameGraph deps true 9 0 start start-IsGraph

calculated-IsGraph : IsGraph deps calculated.mr.graph
calculated-IsGraph =
    SameGraph-IsGraph deps calculated.mr.graph start.mr.graph calculate-SameGraph_example
      start-IsGraph

-- The edge 0 → 1 of weight 5 becomes one of weight -4, with the walks along it redrawn.
rank_set_edge-IsGraph_example :
    IsGraph deps (set_edge deps true 9 0 1 (negsuc 3) calculated).0.mr.graph
rank_set_edge-IsGraph_example =
    rank_set_edge-IsGraph deps true 9 0 1 (negsuc 3) calculated calculated-IsGraph

set_edge_tiny_panics_example : (set_edge deps true 9 2 0 (pos 1) start).1 ≡ panic
unfolding machine
set_edge_tiny_panics_example =
    set_edge_tiny_panics deps true 9 2 0 (pos 1) start refl refl refl refl refl refl refl refl

counted : (calculate deps true 9 0 start).1 ≡ ok tt
unfolding machine
counted = refl

-- One walk for each ego, and two for an ego without them.
abbrev pub small : World deps
small = record { mr = State.new deps sample_graph 1; state = 1 ∷ 0 ∷ 1 ∷ 0 ∷ 1 ∷ 0 ∷ [] }

small-IsExact : IsExact small.mr.walks small.mr.hits
unfolding State.new
small-IsExact = empty-IsExact 1

small-IsGraph : IsGraph deps small.mr.graph
unfolding State.new
small-IsGraph = sample-IsGraph

abbrev pub walked : World deps
walked = (calculate deps false 9 0 small).0

pub walked_done : (calculate deps false 9 0 small).1 ≡ ok tt
unfolding machine
walked_done = refl

calculate-IsExact_example :
    Ends deps drawing_failure
      (λ w' _. IsExact w'.mr.walks w'.mr.hits)
      (calculate deps false 9 0 small)
unfolding machine
calculate-IsExact_example = calculate-IsExact deps 0 9 small small-IsGraph refl small-IsExact

walked-IsExact : IsExact walked.mr.walks walked.mr.hits
walked-IsExact = Ends-ok deps drawing_failure _ _ tt walked_done calculate-IsExact_example

walked-IsGraph : IsGraph deps walked.mr.graph
walked-IsGraph =
    SameGraph-IsGraph deps walked.mr.graph small.mr.graph
      (calculate-SameGraph deps false 9 0 small small-IsGraph) small-IsGraph

redraw_machine : Unit {0}
unfolding machine set_edge old_weight set_edge_inner apply_edge recalc_probability change_edge
    State.on_graph affected_walks find_affected_walkids decide_skip_invalidation_on_edge_deletion
    decide_skip_invalidation_on_edge_addition revise_walk State.uncount_walk
    split_and_remove_from_bookkeeping split_from redraw_step draw_random
    extend_walk_in_case_of_edge_deletion forget_cut forget_visit decrement_counts
    decrement_unique_counts abs_sum step_probabilities revert_hits
redraw_machine = tt

redrawn : (set_edge deps false 9 0 1 (negsuc 3) walked).1 ≡ ok tt
unfolding redraw_machine
redrawn = refl

rank_set_edge-IsExact_example :
    IsExact
      (set_edge deps false 9 0 1 (negsuc 3) walked).0.mr.walks
      (set_edge deps false 9 0 1 (negsuc 3) walked).0.mr.hits
rank_set_edge-IsExact_example =
    rank_set_edge-IsExact deps false 9 0 1 (negsuc 3) walked walked-IsGraph walked-IsExact redrawn
