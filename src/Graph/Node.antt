-- ===== src/Graph/Node.antt =====
-- core/src/graph.rs: `NodeData`, the outgoing edges of one node with their sums and the cached
-- distributions that a step of a walk is drawn from.
pub mod Laws
pub mod Choice
use meritrank_rust.Prelude.{
  ℕ, ◌-◌, List, [], ◌∷◌, ◌++◌, map, Option, none, some, Bool, true, false, ◌&&◌, if◌then◌else◌, ltb,
  length, get_elem?, is_empty,
}
use meritrank_rust.Deps.{Deps}
use meritrank_rust.Errors.{
  Result, ok, err, panic, fatal, zero_weight_encountered, graph_nodedata_pos_weighted_index,
  graph_nodedata_pos_keys_nth, graph_nodedata_abs_weighted_index, graph_get_node_at_index_pos,
  graph_get_node_at_index_neg,
}

module _ (d : Deps) where
  -- Negative weights are stored as absolute values.
  pub record NodeData : Type 0 where
    pub pos_edges : d.edges.Map
    pub neg_edges : d.edges.Map
    pub inbound_edges : d.edges.Map
    pub pos_sum : d.F
    pub neg_sum : d.F
    pub abs_distr_cache : Option d.rng.WeightedIndex
    pub pos_distr_cache : Option d.rng.WeightedIndex

  abbrev pub default : NodeData
  default = record {
    pos_edges = d.edges.empty;
    neg_edges = d.edges.empty;
    inbound_edges = d.edges.empty;
    pos_sum = d.zero;
    neg_sum = d.zero;
    abs_distr_cache = none;
    pos_distr_cache = none;
  }

  abbrev pub keys : d.edges.Map → List ℕ
  keys m = map (λ e. e.0) (d.edges.entries m)

  abbrev pub values : d.edges.Map → List d.F
  values m = map (λ e. e.1) (d.edges.entries m)

  unfoldable pub get_outgoing_edges : NodeData → List (ℕ × d.F)
  get_outgoing_edges n =
      d.edges.entries n.pos_edges ++ map (λ e. (e.0, d.neg e.1)) (d.edges.entries n.neg_edges)

  unfoldable pub get_inbound_edges : NodeData → List (ℕ × d.F)
  get_inbound_edges n = d.edges.entries n.inbound_edges

  unfoldable pub abs_sum : NodeData → d.F
  abs_sum n = d.add n.pos_sum n.neg_sum

  -- The weights that a step is drawn by.
  abbrev pub combined_weights : NodeData → List d.F
  combined_weights n = values n.pos_edges ++ values n.neg_edges

  unfoldable pub get_node_at_index : NodeData → ℕ → Result (Option (ℕ × Bool))
  get_node_at_index n index =
      if ltb index (length (keys n.pos_edges))
      then elim (get_elem? (keys n.pos_edges) index) [
        | some node_id ↦ ok (some (node_id, true))
        | none ↦ fatal graph_get_node_at_index_pos
      ]
      else elim (get_elem? (keys n.neg_edges) (index - length (keys n.pos_edges))) [
        | some node_id ↦ ok (some (node_id, false))
        | none ↦ fatal graph_get_node_at_index_neg
      ]

  -- The node left (a distribution may have been cached), the generator, and the choice.
  abbrev pub Choosing : Type 0
  Choosing = NodeData × d.rng.State × Result (Option (ℕ × Bool))

  -- A cached distribution is used, or one is built and cached.
  abbrev pub cached : Option d.rng.WeightedIndex → List d.F → Option d.rng.WeightedIndex
  cached (some wi) ws = some wi
  cached none ws = d.rng.weighted_index ws

  unfoldable pub positive_neighbor : NodeData → d.rng.State → Choosing
  positive_neighbor n s =
      if is_empty (d.edges.entries n.pos_edges)
      then (n, s, ok none)
      else elim (cached n.pos_distr_cache (values n.pos_edges)) [
        | none ↦ (n, s, fatal graph_nodedata_pos_weighted_index)
        | some wi ↦ (
          record n { pos_distr_cache = some wi },
          (d.rng.sample wi s).1,
          elim (get_elem? (keys n.pos_edges) (d.rng.sample wi s).0) [
            | some node_id ↦ ok (some (node_id, true))
            | none ↦ fatal graph_nodedata_pos_keys_nth
          ],
        )
      ]

  unfoldable pub any_neighbor : NodeData → d.rng.State → Choosing
  any_neighbor n s =
      if is_empty (d.edges.entries n.pos_edges) && is_empty (d.edges.entries n.neg_edges)
      then (n, s, ok none)
      else elim (cached n.abs_distr_cache (combined_weights n)) [
        | none ↦ (n, s, fatal graph_nodedata_abs_weighted_index)
        | some wi ↦ (
          record n { abs_distr_cache = some wi },
          (d.rng.sample wi s).1,
          get_node_at_index n (d.rng.sample wi s).0,
        )
      ]

  unfoldable pub random_neighbor : NodeData → Bool → d.rng.State → Choosing
  unfolding positive_neighbor any_neighbor get_node_at_index
  random_neighbor n true s = positive_neighbor n s
  random_neighbor n false s = any_neighbor n s

  -- The weight of the edge to a node, as `edge_weight` reads it.
  abbrev pub signed : Option d.F → Option d.F → Option d.F
  signed (some w) neg_weight = some w
  signed none (some w) = some (d.neg w)
  signed none none = none

  unfoldable pub weight_to : NodeData → ℕ → Option d.F
  weight_to n to = signed (d.edges.get to n.pos_edges) (d.edges.get to n.neg_edges)

  abbrev pub clamp : d.F → d.F
  clamp x = if d.lt x d.zero then d.zero else x

  -- The part of `remove_edge` behind the two `swap_remove`s.
  settle_removal : NodeData → Option d.F → Option d.F → NodeData × Result d.F
  settle_removal n (some p) (some q) = (n, panic)
  settle_removal n (some p) none = (
    record n {
      abs_distr_cache = none;
      pos_distr_cache = none;
      pos_sum = clamp (d.sub n.pos_sum p);
    },
    ok p,
  )
  settle_removal n none (some q) =
      (record n { abs_distr_cache = none; neg_sum = clamp (d.sub n.neg_sum q) }, ok (d.neg q))
  settle_removal n none none = (record n { abs_distr_cache = none }, panic)

  unfoldable pub remove_outgoing : NodeData → ℕ → NodeData × Result d.F
  unfolding settle_removal
  remove_outgoing n to =
      settle_removal
        (record n {
          pos_edges = d.edges.swap_remove to n.pos_edges;
          neg_edges = d.edges.swap_remove to n.neg_edges;
        })
        (d.edges.get to n.pos_edges) (d.edges.get to n.neg_edges)

  -- The `match weight` of `set_edge`.
  unfoldable pub insert_outgoing : NodeData → ℕ → d.F → NodeData × Result (Unit {0})
  insert_outgoing n to weight =
      if d.eq weight d.zero
      then (n, err zero_weight_encountered)
      else if d.lt d.zero weight
      then (
        record n {
          pos_edges = d.edges.insert to weight n.pos_edges;
          pos_sum = d.add n.pos_sum weight;
          abs_distr_cache = none;
          pos_distr_cache = none;
        },
        ok tt,
      )
      else (
        record n {
          neg_edges = d.edges.insert to (d.abs weight) n.neg_edges;
          neg_sum = d.add n.neg_sum (d.abs weight);
          abs_distr_cache = none;
        },
        ok tt,
      )
