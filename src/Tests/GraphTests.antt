-- ===== src/Tests/GraphTests.antt =====
-- The graph of core/src/graph.rs at three nodes, with an edge 0 → 1 of weight 5 and 1 → 2 of -3.
use meritrank_rust.Prelude.{◌≡◌, refl, ◌≢◌, none, some, false, [], ◌∷◌, unwrap_or}
use meritrank_rust.Errors.{ok, err, panic, nan_weight_encountered}
use meritrank_rust.RandomWalk.{push, from_nodes}
use meritrank_rust.Graph.Node.{weight_to, remove_outgoing, insert_outgoing, random_neighbor}
use meritrank_rust.Graph.Node.Choice.{Chosen, random_neighbor-Chosen}
use meritrank_rust.Graph.Node.{NodeData, default}
use meritrank_rust.Graph.Edges.{
  Graph, new, get_new_nodeid, set_edge, remove_edge, edge_weight, add_edge, get_node_data,
}
use meritrank_rust.Graph.Edges.Invariant.{IsGraph, EdgeUpdate}
use meritrank_rust.Graph.Edges.Operations.{
  new-IsGraph, get_new_nodeid_lem, set_edge-IsGraph, set_edge_lem, set_edge_refused,
  remove_edge_lem,
}
use meritrank_rust.Graph.Walks.{
  generate_walk_segment, continue_walk, extend_walk_in_case_of_edge_deletion,
}
use meritrank_rust.Graph.Walks.Keeps.{
  Continues, continue_walk-Keeps, extend_walk_in_case_of_edge_deletion-Keeps,
}
use meritrank_rust.Graph.Walks.Trail.{SameGraph}
use meritrank_rust.Graph.Walks.Draws.{Draws, generate_walk_segment-Draws}
use meritrank_rust.Tests.Concrete.{deps, nan, pos, negsuc}

abbrev pub one : Graph deps
one = (get_new_nodeid deps (new deps)).0

abbrev pub two : Graph deps
two = (get_new_nodeid deps one).0

abbrev pub three : Graph deps
three = (get_new_nodeid deps two).0

abbrev pub linked : Graph deps
linked = (set_edge deps three 0 1 (pos 5)).0

abbrev pub sample_graph : Graph deps
sample_graph = (set_edge deps linked 1 2 (negsuc 2)).0

program : Unit {0}
unfolding get_new_nodeid set_edge remove_edge edge_weight weight_to remove_outgoing insert_outgoing
    add_edge generate_walk_segment random_neighbor push
program = tt

three-IsGraph : IsGraph deps three
three-IsGraph =
    let first = (get_new_nodeid_lem deps (new deps) (new-IsGraph deps)).2 in
    let second = (get_new_nodeid_lem deps one first).2 in (get_new_nodeid_lem deps two second).2

linked-IsGraph : IsGraph deps linked
linked-IsGraph = (set_edge-IsGraph deps three 0 1 (pos 5) three-IsGraph).0

pub sample-IsGraph : IsGraph deps sample_graph
sample-IsGraph = (set_edge-IsGraph deps linked 1 2 (negsuc 2) linked-IsGraph).0

weights :
    (edge_weight deps sample_graph 0 1 ≡ ok (some (pos 5)))
    × (edge_weight deps sample_graph 1 2 ≡ ok (some (negsuc 2)))
    × (edge_weight deps sample_graph 2 0 ≡ ok none)
unfolding program
weights = (refl, refl, refl)

-- Two rounds: 0 → 1 by the positive edge, 1 → 2 by the negative one.
segment :
    (generate_walk_segment deps 9 sample_graph (1 ∷ 0 ∷ 1 ∷ 0 ∷ 90 ∷ []) 0 (pos 85) false).2
    ≡ ok (record { nodes = 1 ∷ 2 ∷ []; negative_segment_start = some 1 })
unfolding program
segment = refl

set_edge_lem_example :
    ((set_edge deps linked 0 1 (pos 7)).1 ≡ ok tt)
    × EdgeUpdate deps linked (set_edge deps linked 0 1 (pos 7)).0 0 1 (some (pos 7))
unfolding program
set_edge_lem_example = set_edge_lem deps linked 0 1 (pos 7) linked-IsGraph refl refl refl refl

set_edge_refused_example :
    ((set_edge deps linked 0 1 nan).1 ≡ err nan_weight_encountered)
    × EdgeUpdate deps linked (set_edge deps linked 0 1 nan).0 0 1 none
unfolding program
set_edge_refused_example =
    set_edge_refused deps linked 0 1 nan nan_weight_encountered linked-IsGraph refl refl refl refl

set_edge-IsGraph_example :
    IsGraph deps (set_edge deps linked 0 1 (pos 0)).0
    × ((set_edge deps linked 0 1 (pos 0)).1 ≢ panic)
set_edge-IsGraph_example = set_edge-IsGraph deps linked 0 1 (pos 0) linked-IsGraph

remove_edge_lem_example :
    ((remove_edge deps linked 0 1).1 ≡ ok (pos 5))
    × EdgeUpdate deps linked (remove_edge deps linked 0 1).0 0 1 none
unfolding program
remove_edge_lem_example = remove_edge_lem deps linked 0 1 (pos 5) linked-IsGraph refl

abbrev source_node : NodeData deps
source_node = unwrap_or (get_node_data deps sample_graph 1) (default deps)

random_neighbor-Chosen_example :
    Chosen deps source_node false (random_neighbor deps source_node false (0 ∷ 0 ∷ [])).2
unfolding program
random_neighbor-Chosen_example =
    random_neighbor-Chosen deps source_node false (0 ∷ 0 ∷ [])
      (sample-IsGraph.nodes_valid 1 source_node refl)

continue_walk-Keeps_example :
    SameGraph deps
      (continue_walk deps 9 sample_graph (1 ∷ 0 ∷ []) (from_nodes (0 ∷ [])) (pos 85)).0
      sample_graph
    × Continues
        (continue_walk deps 9 sample_graph (1 ∷ 0 ∷ []) (from_nodes (0 ∷ [])) (pos 85)).2.0
        (from_nodes (0 ∷ []))
continue_walk-Keeps_example =
    continue_walk-Keeps deps 9 sample_graph (1 ∷ 0 ∷ []) (from_nodes (0 ∷ [])) (pos 85)
      sample-IsGraph

extend_walk_in_case_of_edge_deletion-Keeps_example :
    SameGraph deps
      (extend_walk_in_case_of_edge_deletion deps sample_graph (0 ∷ []) (from_nodes (0 ∷ []))).0
      sample_graph
    × Continues
        (extend_walk_in_case_of_edge_deletion deps sample_graph (0 ∷ []) (from_nodes (0 ∷ []))).2.0
        (from_nodes (0 ∷ []))
extend_walk_in_case_of_edge_deletion-Keeps_example =
    extend_walk_in_case_of_edge_deletion-Keeps deps sample_graph (0 ∷ []) (from_nodes (0 ∷ []))
      sample-IsGraph

generate_walk_segment-Draws_example :
    SameGraph deps
      (generate_walk_segment deps 9 sample_graph (1 ∷ 0 ∷ []) 0 (pos 85) false).0
      sample_graph
    × Draws deps
        (pos 85)
        sample_graph
        0
        false
        sample-IsGraph
        (generate_walk_segment deps 9 sample_graph (1 ∷ 0 ∷ []) 0 (pos 85) false).2
unfolding program
generate_walk_segment-Draws_example =
    generate_walk_segment-Draws deps (pos 85) sample_graph 0 false sample-IsGraph 9 (1 ∷ 0 ∷ [])
      refl
