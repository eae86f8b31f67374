-- ===== src/Tests/StopTests.antt =====
-- The loop of core/src/graph.rs's `generate_walk_segment` with a generator that never runs out: it
-- turns round four values for ever, of which two are below alpha and two above it.
use meritrank_rust.Prelude.{ℕ, ◌<◌, ◌≡◌, refl, List, [], ◌∷◌, some, none, false, arith, length}
use meritrank_rust.Errors.{ok}
use meritrank_rust.RandomWalk.{push}
use meritrank_rust.Deps.{Rng, Deps}
use meritrank_rust.Graph.Node.{weight_to, remove_outgoing, insert_outgoing, random_neighbor}
use meritrank_rust.Graph.Edges.{
  Graph, new, get_new_nodeid, set_edge, remove_edge, edge_weight, add_edge,
}
use meritrank_rust.Graph.Walks.{generate_walk_segment}
use meritrank_rust.Graph.Walks.Stops.{Stopping, Ended, generate_walk_segment-Ended}
use meritrank_rust.Tests.Concrete.{Num, pos, lt, numbers, table, weighted_index, listed}

data Clock : Type 0 where
  first second third fourth : Clock

abbrev turn : Clock → Clock
turn first = second
turn second = third
turn third = fourth
turn fourth = first

abbrev value : Clock → Num
value first = pos 10
value second = pos 20
value third = pos 90
value fourth = pos 95

clock_sample-lt : (ws : List Num) (wi : ℕ) (s : Clock) → weighted_index ws ≡ some wi → 0 < length ws
clock_sample-lt [] wi s h = cc
clock_sample-lt (w ∷ ws) wi s h = omega arith

-- An index takes one value of the stream, as a draw does.
abbrev clock : Rng Num
clock = record {
  State = Clock;
  random = λ s. (value s, turn s);
  WeightedIndex = ℕ;
  weighted_index = weighted_index;
  sample = λ wi s. (0, turn s);
  sample-lt = clock_sample-lt;
}

abbrev clocked : Deps
clocked = record { floats = numbers; edges = table Num; rng = clock; sets = listed }

-- No value above 85 is further away, whichever rounds draw an index.
abbrev distance : Clock → ℕ
distance first = 2
distance second = 1
distance third = 0
distance fourth = 0

falls_without : (s : Clock) → lt (pos 85) (value s) ≡ false → distance (turn s) < distance s
falls_without first h = omega arith
falls_without second h = omega arith
falls_without third h = cc
falls_without fourth h = cc

falls_with :
    (s : Clock) (wi : ℕ) → lt (pos 85) (value s) ≡ false → distance (turn (turn s)) < distance s
falls_with first wi h = omega arith
falls_with second wi h = omega arith
falls_with third wi h = cc
falls_with fourth wi h = cc

abbrev stopping : Stopping clocked (pos 85)
stopping = record {
  patience = distance;
  falls_without_index = falls_without;
  falls_with_index = falls_with;
}

abbrev two : Graph clocked
two = (get_new_nodeid clocked (get_new_nodeid clocked (new clocked)).0).0

-- Two nodes, with edges to each other.
abbrev ring : Graph clocked
ring = (set_edge clocked (set_edge clocked two 0 1 (pos 5)).0 1 0 (pos 5)).0

-- One round draws 10 and an index; the next draws 90.
segment :
    (generate_walk_segment clocked 3 ring first 0 (pos 85) false).2
    ≡ ok (record { nodes = 1 ∷ []; negative_segment_start = none })
unfolding get_new_nodeid set_edge remove_edge edge_weight weight_to remove_outgoing insert_outgoing
    add_edge generate_walk_segment random_neighbor push
segment = refl

generate_walk_segment-Ended_example :
    Ended (generate_walk_segment clocked 3 ring first 0 (pos 85) false).2
generate_walk_segment-Ended_example =
    generate_walk_segment-Ended clocked (pos 85) stopping 3 ring first 0 false (omega arith)
