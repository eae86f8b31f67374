-- ===== src/Graph/Walks.antt =====
-- core/src/graph.rs: drawing a walk. The loop runs on fuel, and says `no_fuel` when that ends; a
-- generator that draws a stopping value in time makes the fuel enough (Graph/Walks/Stops).
pub mod Trail
pub mod Draws
pub mod Stops
pub mod Keeps
pub mod Removal
pub mod Continued
use meritrank_rust.Prelude.{
  ℕ, zero, suc, List, Option, none, some, Bool, true, false, ◌||◌, if◌then◌else◌, is_some, last?,
}
use meritrank_rust.Deps.{Deps}
use meritrank_rust.Errors.{
  Result, ok, err, panic, no_fuel, fatal, graph_generate_walk_get_node_data,
  graph_continue_walk_last_node,
}
use meritrank_rust.RandomWalk.{RandomWalk, new, push, extend}
use meritrank_rust.Graph.Node.{NodeData, random_neighbor}
use meritrank_rust.Graph.Edges.{Graph, get_node_data, put}

module _ (d : Deps) where
  -- The variables of the loop of `generate_walk_segment`.
  pub record Drawing : Type 0 where
    pub graph : Graph d
    pub state : d.rng.State
    pub segment : RandomWalk
    pub node : ℕ
    pub negative_continuation_mode : Bool

  -- A round returns true to go on and false to break.
  stepped : Drawing → ℕ → Bool → RandomWalk × Result (Unit {0}) → Drawing × Result Bool
  stepped l next_step step_is_positive (segment, ok _) =
      if step_is_positive
      then (record l { segment = segment; node = next_step }, ok true)
      else if l.negative_continuation_mode
      then (record l { segment = segment }, panic)
      else (
        record l { segment = segment; node = next_step; negative_continuation_mode = true },
        ok true,
      )
  stepped l next_step step_is_positive (segment, err e) = (record l { segment = segment }, err e)
  stepped l next_step step_is_positive (segment, panic) = (record l { segment = segment }, panic)
  stepped l next_step step_is_positive (segment, no_fuel) =
      (record l { segment = segment }, no_fuel)

  follow : Drawing → Result (Option (ℕ × Bool)) → Drawing × Result Bool
  follow l (ok none) = (l, ok false)
  follow l (ok (some (next_step, b))) = stepped l next_step b (push l.segment next_step b)
  follow l (err e) = (l, err e)
  follow l panic = (l, panic)
  follow l no_fuel = (l, no_fuel)

  chosen : Drawing → NodeData d × d.rng.State × Result (Option (ℕ × Bool)) → Drawing × Result Bool
  chosen l (n, s, choice) = follow (record l { graph = put d l.graph l.node n; state = s }) choice

  draw : d.F → Bool → Drawing → NodeData d → Drawing × Result Bool
  draw alpha positive_only l n =
      if d.lt alpha (d.rng.random l.state).0
      then (record l { state = (d.rng.random l.state).1 }, ok false)
      else chosen l (
          random_neighbor d n (l.negative_continuation_mode || positive_only)
            (d.rng.random l.state).1)

  round : d.F → Bool → Drawing → Drawing × Result Bool
  round alpha positive_only l = elim (get_node_data d l.graph l.node) [
    | none ↦ (l, fatal graph_generate_walk_get_node_data)
    | some n ↦ draw alpha positive_only l n
  ]

  go_on :
      Drawing × Result Bool → (Drawing → Drawing × Result (Unit {0})) → Drawing × Result (Unit {0})
  go_on (l, ok true) rest = rest l
  go_on (l, ok false) rest = (l, ok tt)
  go_on (l, err e) rest = (l, err e)
  go_on (l, panic) rest = (l, panic)
  go_on (l, no_fuel) rest = (l, no_fuel)

  rounds : ℕ → d.F → Bool → Drawing → Drawing × Result (Unit {0})
  rounds zero alpha positive_only l = (l, no_fuel)
  rounds (suc fuel) alpha positive_only l =
      go_on (round alpha positive_only l) (rounds fuel alpha positive_only)

  abbrev pub Drawn : Type 0 → Type 0
  Drawn A = Graph d × d.rng.State × A

  abbrev pub started : Graph d → d.rng.State → ℕ → Drawing
  started g s start_node = record {
    graph = g;
    state = s;
    segment = new;
    node = start_node;
    negative_continuation_mode = false;
  }

  finished : Drawing × Result (Unit {0}) → Drawn (Result RandomWalk)
  finished (l, ok _) = (l.graph, l.state, ok l.segment)
  finished (l, err e) = (l.graph, l.state, err e)
  finished (l, panic) = (l.graph, l.state, panic)
  finished (l, no_fuel) = (l.graph, l.state, no_fuel)

  unfoldable pub generate_walk_segment :
      ℕ → Graph d → d.rng.State → ℕ → d.F → Bool → Drawn (Result RandomWalk)
  unfolding stepped follow chosen draw round go_on rounds finished
  generate_walk_segment fuel g s start_node alpha positive_only =
      finished (rounds fuel alpha positive_only (started g s start_node))

  extended : RandomWalk → Drawn (Result RandomWalk) → Drawn (RandomWalk × Result (Unit {0}))
  extended walk (g, s, ok segment) = (g, s, extend walk segment)
  extended walk (g, s, err e) = (g, s, (walk, err e))
  extended walk (g, s, panic) = (g, s, (walk, panic))
  extended walk (g, s, no_fuel) = (g, s, (walk, no_fuel))

  unfoldable pub continue_walk :
      ℕ → Graph d → d.rng.State → RandomWalk → d.F → Drawn (RandomWalk × Result (Unit {0}))
  unfolding extended
  continue_walk fuel g s walk alpha = elim (last? walk.nodes) [
    | none ↦ (g, s, (walk, fatal graph_continue_walk_last_node))
    | some start_node ↦
        extended walk
          (generate_walk_segment fuel g s start_node alpha (is_some walk.negative_segment_start))
  ]

  forced : RandomWalk → Result (Option (ℕ × Bool)) → RandomWalk × Result (Unit {0})
  forced walk (ok none) = (walk, ok tt)
  forced walk (ok (some (step, b))) = push walk step b
  forced walk (err e) = (walk, err e)
  forced walk panic = (walk, panic)
  forced walk no_fuel = (walk, no_fuel)

  forced_step :
      Graph d
      → ℕ
      → RandomWalk
      → NodeData d × d.rng.State × Result (Option (ℕ × Bool))
      → Drawn (RandomWalk × Result (Unit {0}))
  forced_step g src_node walk (n, s, choice) = (put d g src_node n, s, forced walk choice)

  -- Both `unwrap`s panic on a missing value.
  unfoldable pub extend_walk_in_case_of_edge_deletion :
      Graph d → d.rng.State → RandomWalk → Drawn (RandomWalk × Result (Unit {0}))
  unfolding forced forced_step
  extend_walk_in_case_of_edge_deletion g s walk = elim (last? walk.nodes) [
    | none ↦ (g, s, (walk, panic))
    | some src_node ↦ elim (get_node_data d g src_node) [
      | none ↦ (g, s, (walk, panic))
      | some n ↦
          forced_step g src_node walk (random_neighbor d n (is_some walk.negative_segment_start) s)
    ]
  ]
