-- ===== src/Service/AStar.antt =====
-- service/src/utils/astar.rs: the A* search, one `iteration` at a time, and the path that `path`
-- reads out of the closed nodes. The types of node ids and of costs are arguments, as in the source;
-- `open` and `closed` are slices of a fixed length, of which `num_open` and `num_closed` places are in
-- use. A panic is none.
pub mod Steps
pub mod Trace
pub mod Invariant
pub mod Nearest
pub mod Links
pub mod Iteration
pub mod Reverse
pub mod Trail
pub mod Walk
use meritrank_rust.Prelude.{
  ℕ, zero, suc, ◌+◌, ◌-◌, ◌/◌, ◌≡◌, ◌↔◌, List, [], ◌∷◌, Option, none, some, Bool, true, false,
  if◌then◌else◌, ◌||◌, ◌==◌, leb, length, get_elem?, is_empty, set,
}
use meritrank_rust.Prelude.Partial.{◌>>=◌, put}

-- What the type parameters `Node_Id` and `Cost` provide.
pub record Types : Type 1 where
  pub NodeId : Type 0
  pub Cost : Type 0
  pub eq : NodeId → NodeId → Bool
  pub eq_iff : (a b : NodeId) → (eq a b ≡ true) ↔ (a ≡ b)
  pub lt : Cost → Cost → Bool
  pub add : Cost → Cost → Cost
  pub default : Cost

pub data Stage : Type 0 where
  search_nearest enum_neighbors : Stage

module _ (t : Types) where
  open t use {NodeId, Cost}

  pub record NeighborRequest : Type 0 where
    pub node : NodeId
    pub index : ℕ

  pub data Status : Type 0 where
    progress success fail out_of_memory : Status
    neighbor : NeighborRequest → Status

  pub record Link : Type 0 where
    pub neighbor_id : NodeId
    pub exact_distance : Cost
    pub estimate : Cost

  pub record Node : Type 0 where
    pub id : NodeId
    pub previous : Option NodeId
    pub exact_distance : Cost
    pub estimate : Cost
    pub count : ℕ

  pub record State : Type 0 where
    pub stage : Stage
    pub num_open : ℕ
    pub num_closed : ℕ
    pub source : NodeId
    pub destination : NodeId
    pub closest_index : ℕ
    pub closest_estimate : Cost
    pub node : Option Node
    pub neighbor_index : ℕ

  -- What `iteration` changes.
  pub record Search : Type 0 where
    pub open_nodes : List Node
    pub closed_nodes : List Node
    pub state : State

  abbrev pub first_node : NodeId → Cost → Node
  first_node source max_cost = record {
    id = source;
    previous = none;
    exact_distance = t.default;
    estimate = max_cost;
    count = 1;
  }

  unfoldable pub init : List Node → NodeId → NodeId → Cost → List Node × State
  init open_nodes source destination max_cost = (
    set open_nodes 0 (first_node source max_cost),
    record {
      stage = search_nearest;
      num_open = if is_empty open_nodes then 0 else 1;
      num_closed = 0;
      source = source;
      destination = destination;
      closest_index = 0;
      closest_estimate = max_cost;
      node = none;
      neighbor_index = 0;
    },
  )
