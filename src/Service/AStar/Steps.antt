-- ===== src/Service/AStar/Steps.antt =====
-- service/src/utils/astar.rs: `iteration`, by its stages and their cases.
use meritrank_rust.Prelude.{
  ℕ, zero, suc, ◌+◌, ◌-◌, List, Option, none, some, if◌then◌else◌, ◌||◌, ◌==◌, leb, length,
  get_elem?,
}
use meritrank_rust.Prelude.Partial.{◌>>=◌, put}
use meritrank_rust.Service.AStar.{
  Types, Stage, search_nearest, enum_neighbors, Status, progress, success, fail, out_of_memory,
  neighbor, Link, Node, Search,
}

module _ (t : Types) where
  open t use {NodeId, Cost}

  -- The loops over a slice; the first number is how many rounds are left.

  unfoldable pub nearest_from : List (Node t) → ℕ → ℕ → ℕ → Option ℕ
  nearest_from nodes zero index nearest_index = some nearest_index
  nearest_from nodes (suc left) index nearest_index = do
    node ← get_elem? nodes index
    nearest ← get_elem? nodes nearest_index
    nearest_from nodes left (index + 1) (
        if t.lt (t.add node.exact_distance node.estimate)
          (t.add nearest.exact_distance nearest.estimate)
        then index
        else nearest_index)

  unfoldable pub find_id : List (Node t) → NodeId → ℕ → ℕ → Option (Option ℕ)
  find_id nodes id zero index = some none
  find_id nodes id (suc left) index = do
    node ← get_elem? nodes index
    let rest = find_id nodes id left (index + 1)
    if t.eq node.id id then some (some index) else rest

  -- The last open node takes the place of the one that leaves.
  unfoldable pub fill_gap : List (Node t) → ℕ → ℕ → Option (List (Node t))
  fill_gap nodes index last =
      if index == last then some nodes else (get_elem? nodes last >>= λ node. put nodes index node)

  abbrev pub request : NodeId → ℕ → Status t
  request id index = neighbor (record { node = id; index = index })

  unfoldable pub take_nearest : Search t → Option (Search t × Status t)
  take_nearest s = do
    index ← nearest_from s.open_nodes (s.state.num_open - 1) 1 0
    nearest ← get_elem? s.open_nodes index
    filled ← fill_gap s.open_nodes index (s.state.num_open - 1)
    if t.eq nearest.id s.state.destination
        then (do
          closed ← put s.closed_nodes s.state.num_closed nearest
          some (
            record {
              open_nodes = filled;
              closed_nodes = closed;
              state = record (s.state) {
                node = some nearest;
                num_open = s.state.num_open - 1;
                closest_index = s.state.num_closed;
                closest_estimate = t.default;
                num_closed = s.state.num_closed + 1;
              };
            },
            success,
          ))
        else some (
          record s {
            open_nodes = filled;
            state = record (s.state) {
              node = some nearest;
              num_open = s.state.num_open - 1;
              stage = enum_neighbors;
              neighbor_index = 0;
            };
          },
          request nearest.id 0,
        )

  unfoldable pub search_nearest_step : Search t → Option (Search t × Status t)
  search_nearest_step s =
      if s.state.num_open == 0
      then some (s, fail)
      else if leb (length s.open_nodes) (s.state.num_open + 1)
          || leb (length s.closed_nodes) (s.state.num_closed + 2)
      then some (s, out_of_memory)
      else take_nearest s

  -- Ask for the next neighbour of the same node.
  abbrev pub next_neighbor : Node t → Search t → Search t × Status t
  next_neighbor nearest s = (
    record s { state = record (s.state) { neighbor_index = s.state.neighbor_index + 1 } },
    request nearest.id (s.state.neighbor_index + 1),
  )

  abbrev pub neighbor_node : Node t → Link t → Node t
  neighbor_node nearest link = record {
    id = link.neighbor_id;
    previous = some nearest.id;
    exact_distance = t.add nearest.exact_distance link.exact_distance;
    estimate = link.estimate;
    count = nearest.count + 1;
  }

  unfoldable pub finish_search : Search t → Node t → Node t → Option (Search t × Status t)
  finish_search s nearest found = do
    once ← put s.closed_nodes s.state.num_closed nearest
    twice ← put once (s.state.num_closed + 1) found
    some (
      record s {
        closed_nodes = twice;
        state = record (s.state) {
          closest_index = s.state.num_closed + 1;
          closest_estimate = t.default;
          node = none;
          num_closed = s.state.num_closed + 2;
        };
      },
      success,
    )

  -- The neighbour is at `index` of the closed nodes.
  unfoldable pub revise_closed : Search t → Node t → Node t → ℕ → Option (Search t × Status t)
  revise_closed s nearest found index = do
    old ← get_elem? s.closed_nodes index
    if t.lt found.exact_distance old.exact_distance
        then (do
          closed ← put s.closed_nodes index found
          some (
              next_neighbor nearest (record s {
                closed_nodes = closed;
                state =
                    (if t.lt found.estimate s.state.closest_estimate
                      then record (s.state) {
                        closest_index = index;
                        closest_estimate = found.estimate;
                      }
                      else s.state);
              })))
        else some (next_neighbor nearest s)

  unfoldable pub revise_open : Search t → Node t → Node t → ℕ → Option (Search t × Status t)
  revise_open s nearest found index = do
    old ← get_elem? s.open_nodes index
    if t.lt found.exact_distance old.exact_distance
        then (do
          nodes ← put s.open_nodes index found
          some (next_neighbor nearest (record s { open_nodes = nodes })))
        else some (next_neighbor nearest s)

  unfoldable pub add_open : Search t → Node t → Node t → Option (Search t × Status t)
  add_open s nearest found = do
    nodes ← put s.open_nodes s.state.num_open found
    some (
        next_neighbor nearest (record s {
          open_nodes = nodes;
          state = record (s.state) { num_open = s.state.num_open + 1 };
        }))

  unfoldable pub where_open : Search t → Node t → Node t → Option ℕ → Option (Search t × Status t)
  where_open s nearest found (some index) = revise_open s nearest found index
  where_open s nearest found none = add_open s nearest found

  unfoldable pub where_closed : Search t → Node t → Node t → Option ℕ → Option (Search t × Status t)
  where_closed s nearest found (some index) = revise_closed s nearest found index
  where_closed s nearest found none =
      find_id s.open_nodes found.id s.state.num_open 0 >>= where_open s nearest found

  unfoldable pub link_step : Search t → Node t → Link t → Option (Search t × Status t)
  link_step s nearest link =
      if leb (length s.open_nodes) (s.state.num_open + 1)
      then some (s, out_of_memory)
      else if t.eq link.neighbor_id s.state.destination
      then finish_search s nearest (neighbor_node nearest link)
      else find_id s.closed_nodes link.neighbor_id s.state.num_closed 0
        >>= where_closed s nearest (neighbor_node nearest link)

  -- The node has no more neighbours.
  unfoldable pub close_step : Search t → Node t → Option (Search t × Status t)
  close_step s nearest = do
    closed ← put s.closed_nodes s.state.num_closed nearest
    let is_closer = t.lt nearest.estimate s.state.closest_estimate
    some (
      record s {
        closed_nodes = closed;
        state = record (s.state) {
          closest_index = (if is_closer then s.state.num_closed else s.state.closest_index);
          closest_estimate = (if is_closer then nearest.estimate else s.state.closest_estimate);
          node = none;
          num_closed = s.state.num_closed + 1;
          stage = search_nearest;
        };
      },
      progress,
    )

  unfoldable pub enum_neighbors_step :
      Option (Node t) → Option (Link t) → Search t → Option (Search t × Status t)
  enum_neighbors_step none link s = none
  enum_neighbors_step (some nearest) (some link) s = link_step s nearest link
  enum_neighbors_step (some nearest) none s = close_step s nearest

  unfoldable pub step_of : Stage → Option (Link t) → Search t → Option (Search t × Status t)
  unfolding enum_neighbors_step
  step_of search_nearest link s = search_nearest_step s
  step_of enum_neighbors link s = enum_neighbors_step s.state.node link s

  unfoldable pub iteration : Search t → Option (Link t) → Option (Search t × Status t)
  unfolding step_of
  iteration s link = step_of s.state.stage link s
