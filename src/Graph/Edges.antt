-- ===== src/Graph/Edges.antt =====
-- core/src/graph.rs: `Graph`, and the operations on its edges.
pub mod Invariant
pub mod Weights
pub mod Operations
use meritrank_rust.Prelude.{
  ℕ, List, [], ◌∷◌, ◌++◌, Option, none, some, Bool, true, false, not, ◌&&◌, ◌||◌, if◌then◌else◌,
  length, get_elem?, set, is_some, ◌==◌,
}
use meritrank_rust.Deps.{Deps}
use meritrank_rust.Errors.{
  Result, ok, err, panic, no_fuel, fatal, node_not_found, self_reference_not_allowed,
  nan_weight_encountered, inf_weight_encountered, graph_set_edge_remove_failed,
}
use meritrank_rust.Graph.Node.{
  NodeData, default, weight_to, remove_outgoing, insert_outgoing, get_inbound_edges,
}

module _ (d : Deps) where
  pub record Graph : Type 0 where
    pub nodes : List (NodeData d)

  abbrev pub new : Graph
  new = record { nodes = [] }

  unfoldable pub get_new_nodeid : Graph → Graph × ℕ
  get_new_nodeid g = (record { nodes = g.nodes ++ default d ∷ [] }, length g.nodes)

  abbrev pub get_node_data : Graph → ℕ → Option (NodeData d)
  get_node_data g node_id = get_elem? g.nodes node_id

  abbrev pub contains_node : Graph → ℕ → Bool
  contains_node g node_id = is_some (get_node_data g node_id)

  -- `get_mut(i)` followed by an assignment
  abbrev pub put : Graph → ℕ → NodeData d → Graph
  put g i n = record { nodes = set g.nodes i n }

  unfoldable pub edge_weight : Graph → ℕ → ℕ → Result (Option d.F)
  edge_weight g from to = elim (get_node_data g from) [
    | none ↦ err node_not_found
    | some node ↦ if not (contains_node g to) then err node_not_found else ok (weight_to d node to)
  ]

  -- The edges out of `from`, once the inbound cache of `to` is updated.
  unfoldable pub remove_from : Graph → ℕ → ℕ → Graph × Result d.F
  remove_from g from to = elim (get_node_data g from) [
    | none ↦ (g, err node_not_found)
    | some node ↦ (put g from (remove_outgoing d node to).0, (remove_outgoing d node to).1)
  ]

  unfoldable pub remove_edge : Graph → ℕ → ℕ → Graph × Result d.F
  unfolding remove_from
  remove_edge g from to = elim (get_node_data g to) [
    | none ↦ (g, err node_not_found)
    | some dst_node ↦
        remove_from
          (put g to
            (record dst_node { inbound_edges = d.edges.swap_remove from dst_node.inbound_edges }))
          from to
  ]

  -- The last lines of `set_edge`, reached where the edges out of `from` were updated.
  cache_inbound : Graph → ℕ → ℕ → d.F → Result (Unit {0}) → Graph × Result (Unit {0})
  cache_inbound g from to weight (ok _) = elim (get_node_data g to) [
    | none ↦ (g, panic)
    | some dst_node ↦ (
      put g to
          (record dst_node { inbound_edges = d.edges.insert from weight dst_node.inbound_edges }),
      ok tt,
    )
  ]
  cache_inbound g from to weight (err e) = (g, err e)
  cache_inbound g from to weight panic = (g, panic)
  cache_inbound g from to weight no_fuel = (g, no_fuel)

  -- `set_edge` from the test of the weight on, the old edge being gone.
  unfoldable pub add_edge : Graph → ℕ → ℕ → d.F → Graph × Result (Unit {0})
  unfolding cache_inbound
  add_edge g from to weight =
      if d.is_nan weight
      then (g, err nan_weight_encountered)
      else if d.is_infinite weight
      then (g, err inf_weight_encountered)
      else elim (get_node_data g from) [
        | none ↦ (g, err node_not_found)
        | some node ↦
            cache_inbound (put g from (insert_outgoing d node to weight).0) from to weight
              (insert_outgoing d node to weight).1
      ]

  -- `if self.remove_edge(from, to).is_err() { return Err(..) }`
  after_removal : ℕ → ℕ → d.F → Graph → Result d.F → Graph × Result (Unit {0})
  after_removal from to weight g (ok _) = add_edge g from to weight
  after_removal from to weight g (err e) = (g, fatal graph_set_edge_remove_failed)
  after_removal from to weight g panic = (g, panic)
  after_removal from to weight g no_fuel = (g, no_fuel)

  -- `if self.edge_weight(from, to)?.is_some()`
  replace_edge : Graph → ℕ → ℕ → d.F → Result (Option d.F) → Graph × Result (Unit {0})
  replace_edge g from to weight (ok (some old)) =
      after_removal from to weight (remove_edge g from to).0 (remove_edge g from to).1
  replace_edge g from to weight (ok none) = add_edge g from to weight
  replace_edge g from to weight (err e) = (g, err e)
  replace_edge g from to weight panic = (g, panic)
  replace_edge g from to weight no_fuel = (g, no_fuel)

  unfoldable pub set_edge : Graph → ℕ → ℕ → d.F → Graph × Result (Unit {0})
  unfolding after_removal replace_edge
  set_edge g from to weight =
      if not (contains_node g from) || not (contains_node g to)
      then (g, err node_not_found)
      else if from == to
      then (g, err self_reference_not_allowed)
      else replace_edge g from to weight (edge_weight g from to)

  unfoldable pub inbound_edges_of : Graph → ℕ → Result (List (ℕ × d.F))
  inbound_edges_of g node_id = elim (get_node_data g node_id) [
    | none ↦ err node_not_found
    | some node ↦ ok (get_inbound_edges d node)
  ]
