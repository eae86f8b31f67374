-- ===== src/Service/PathSearch.antt =====
-- service/src/helpers.rs: `perform_astar_search`, the A* search of utils/astar.rs along the positive
-- edges of the core's graph. None is a panic, and some none the error `Err(())`. Logging is left out.
pub mod Resize
pub mod Sound
use meritrank_rust.Prelude.{
  ℕ, zero, suc, ◌+◌, ◌-◌, ◌*◌, ◌≡◌, List, [], ◌∷◌, ◌++◌, Option, none, some, Bool, true, false,
  ◌==◌, ==_iff, length, take, replicate, get_elem?, if◌then◌else◌,
}
use meritrank_rust.Prelude.Partial.{◌>>=◌}
use meritrank_rust.Deps.{Deps}
use meritrank_rust.Graph.Node.{NodeData}
use meritrank_rust.Graph.Edges.{Graph, get_node_data}
use meritrank_rust.Service.AStar.{
  Types, Node, NeighborRequest, Link, Search, State, Status, progress, success, fail, out_of_memory,
  neighbor, init,
}
use meritrank_rust.Service.AStar.Steps.{iteration}
use meritrank_rust.Service.AStar.Trace.{path}

abbrev pub resize {ℓ} : {A : Type ℓ} → ℕ → A → List A → List A
resize n a xs = take n xs ++ replicate (n - length xs) a

module _ (d : Deps) where
  -- `NodeId` and `Weight` of the core crate
  abbrev pub types : Types
  types = record {
    NodeId = ℕ;
    Cost = d.F;
    eq = ◌==◌;
    eq_iff = ==_iff;
    lt = d.lt;
    add = d.add;
    default = d.zero;
  }

  abbrev pub default_node : Node types
  default_node = record {
    id = 0;
    previous = none;
    exact_distance = d.zero;
    estimate = d.zero;
    count = 0;
  }

  abbrev pub distance : d.F → d.F
  distance w = if d.lt (d.abs w) d.epsilon then d.of_nat 1000000 else d.div (d.of_nat 1) w

  abbrev pub link_of : NodeData d → Option (ℕ × d.F) → Option (Link types)
  link_of node none = none
  link_of node (some (n, w)) = some (record {
    neighbor_id = n;
    exact_distance = distance (if d.lt d.epsilon node.pos_sum then d.div w node.pos_sum else w);
    estimate = d.zero;
  })

  abbrev pub link_in : Option (NodeData d) → ℕ → Option (Link types)
  link_in none index = none
  link_in (some node) index = link_of node (get_elem? (d.edges.entries node.pos_edges) index)

  -- The answer to a request of the search.
  unfoldable pub neighbor_of : Graph d → NeighborRequest types → Option (Link types)
  neighbor_of g request = link_in (get_node_data d g request.node) request.index

  unfoldable pub grow : Search types → Search types
  grow s = record s {
    open_nodes = resize (length s.open_nodes * 2) default_node s.open_nodes;
    closed_nodes = resize (length s.closed_nodes * 2) default_node s.closed_nodes;
  }

  -- What the loop does with the status of an iteration; `next` are its further rounds.
  unfoldable pub on_status :
      Graph d
      → Search types
      → Option (Link types)
      → Status types
      → (Search types → Option (Link types) → Option (Search types × Status types))
      → Option (Search types × Status types)
  on_status g s link (neighbor request) next = next s (neighbor_of g request)
  on_status g s link out_of_memory next = next (grow s) link
  on_status g s link success next = some (s, success)
  on_status g s link fail next = some (s, fail)
  on_status g s link progress next = next s link

  -- The loop, for as many rounds as are left.
  unfoldable pub search_loop :
      Graph d
      → ℕ
      → Status types
      → Search types
      → Option (Link types)
      → Option (Search types × Status types)
  search_loop g zero status s link = some (s, status)
  search_loop g (suc left) status s link =
      iteration types s link >>= λ r. on_status g r.0 link r.1 (search_loop g left r.1)

  unfoldable pub report : Search types × Status types → Option (Option (List ℕ))
  report (s, success) = path types s.closed_nodes s.state (replicate s.state.num_closed 0) >>= λ r.
      some (some (resize r.0 0 r.1))
  report (s, _) = some none

  -- The search from empty slices of a size, for a number of rounds.
  unfoldable pub search_within : ℕ → ℕ → Graph d → ℕ → ℕ → Option (Option (List ℕ))
  search_within size rounds g ego_id focus_id =
      let start = init types (replicate size default_node) ego_id focus_id d.zero in
      search_loop g rounds progress
        (record {
          open_nodes = start.0;
          closed_nodes = replicate size default_node;
          state = start.1;
        })
        none
      >>= report

  unfoldable pub perform_astar_search : Graph d → ℕ → ℕ → Option (Option (List ℕ))
  perform_astar_search = search_within 1024 10000
