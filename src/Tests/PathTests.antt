-- ===== src/Tests/PathTests.antt =====
-- The A* search of service/src/utils/astar.rs and service/src/helpers.rs at a graph with the positive
-- edges 0 → 1 and 1 → 2.
use meritrank_rust.Prelude.{
  ℕ, zero, suc, ◌+◌, ◌<◌, ◌≡◌, refl, subst, List, [], ◌∷◌, Option, none, some, replicate, get_elem?,
  arith,
}
use meritrank_rust.Prelude.Partial.{Returns, some_injective}
use meritrank_rust.Graph.Node.{weight_to, remove_outgoing, insert_outgoing}
use meritrank_rust.Graph.Edges.{Graph, get_new_nodeid, set_edge, remove_edge, edge_weight, add_edge}
use meritrank_rust.Service.AStar.{Node, Search, State, Link, init, search_nearest}
use meritrank_rust.Service.AStar.Steps.{
  iteration, search_nearest_step, take_nearest, nearest_from, find_id, fill_gap, finish_search,
  link_step, close_step, where_open, where_closed, revise_open, revise_closed, add_open,
  enum_neighbors_step, step_of,
}
use meritrank_rust.Service.AStar.Trace.{path, find_previous, walk_back, swap_from, reversed}
use meritrank_rust.Service.AStar.Invariant.{none-some}
use meritrank_rust.Service.AStar.Trail.{IsLinked}
use meritrank_rust.Service.AStar.Walk.{IsReported, path-IsReported}
use meritrank_rust.Service.PathSearch.{
  types, default_node, search_within, search_loop, on_status, neighbor_of, grow, report,
  perform_astar_search,
}
use meritrank_rust.Service.PathSearch.Sound.{IsAnswer, perform_astar_search-IsAnswer}
use meritrank_rust.Tests.Concrete.{deps, pos}
use meritrank_rust.Tests.GraphTests.{linked}

abbrev chain : Graph deps
chain = (set_edge deps linked 1 2 (pos 4)).0

program : Unit {0}
unfolding get_new_nodeid set_edge remove_edge edge_weight weight_to remove_outgoing insert_outgoing
    add_edge init iteration path search_nearest_step take_nearest nearest_from find_id fill_gap
    finish_search link_step close_step where_open where_closed revise_open revise_closed add_open
    enum_neighbors_step step_of find_previous walk_back swap_from reversed search_within search_loop
    on_status neighbor_of grow report
program = tt

-- Four places are enough for this path; with two, the slices grow.
found :
    (search_within deps 4 20 chain 0 2 ≡ some (some (0 ∷ 1 ∷ 2 ∷ [])))
    × (search_within deps 2 20 chain 0 2 ≡ some (some (0 ∷ 1 ∷ 2 ∷ [])))
    × (search_within deps 4 20 chain 2 0 ≡ some none)
unfolding program
found = (refl, refl, refl)

perform_astar_search-IsAnswer_example :
    Returns (perform_astar_search deps chain 0 2) (IsAnswer deps chain 0 2)
perform_astar_search-IsAnswer_example = perform_astar_search-IsAnswer deps chain 0 2

-- The search from 0 to 2, before its first iteration.
abbrev begin : Search (types deps)
begin = record {
  open_nodes = (init (types deps) (replicate 4 (default_node deps)) 0 2 (pos 0)).0;
  closed_nodes = replicate 4 (default_node deps);
  state = (init (types deps) (replicate 4 (default_node deps)) 0 2 (pos 0)).1;
}

-- A node is reached from the one before it.
abbrev NextLinked : Node (types deps) → Type 0
NextLinked = IsLinked (types deps) (λ u v. u + 1 ≡ v)

-- The first iteration asks for a neighbour of node 0.
abbrev asking : Search (types deps)
asking = elim (iteration (types deps) begin none) [ some r ↦ r.0 | none ↦ begin ]

abbrev link : Link (types deps)
link = record { neighbor_id = 1; exact_distance = pos 1; estimate = pos 0 }

abbrev node_at : ℕ → Option ℕ → Node (types deps)
node_at id previous = record {
  id = id;
  previous = previous;
  exact_distance = pos 1;
  estimate = pos 0;
  count = 1;
}

abbrev two_closed : List (Node (types deps))
two_closed = node_at 0 none ∷ node_at 1 (some 0) ∷ []

abbrev done : State (types deps)
done = record {
  stage = search_nearest;
  num_open = 0;
  num_closed = 2;
  source = 0;
  destination = 1;
  closest_index = 1;
  closest_estimate = pos 0;
  node = none;
  neighbor_index = 0;
}

two_closed-NextLinked :
    (i : ℕ) → i < 2 → (x : Node (types deps)) → get_elem? two_closed i ≡ some x → NextLinked x
two_closed-NextLinked zero lt x at =
    subst NextLinked (some_injective at) (λ p e. absurd (none-some e))
two_closed-NextLinked (suc zero) lt x at =
    subst NextLinked (some_injective at) (λ p e. let same = some_injective e in omega arith)
two_closed-NextLinked (suc (suc i)) lt x at = absurd (omega arith)

path-IsReported_example :
    Returns (path (types deps) two_closed done (7 ∷ 7 ∷ 7 ∷ [])) (
      IsReported
        (types deps)
        (λ u v. u + 1 ≡ v)
        two_closed
        done
        (omega arith)
        two_closed-NextLinked)
path-IsReported_example =
    path-IsReported (types deps) (λ u v. u + 1 ≡ v) two_closed done (omega arith)
      two_closed-NextLinked (7 ∷ 7 ∷ 7 ∷ [])

-- The slice keeps what is behind the path.
path_found : path (types deps) two_closed done (7 ∷ 7 ∷ 7 ∷ []) ≡ some (2, 0 ∷ 1 ∷ 7 ∷ [])
unfolding program
path_found = refl
