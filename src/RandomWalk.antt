-- ===== src/RandomWalk.antt =====
-- core/src/random_walk.rs: a walk is its nodes and the index where its negative segment starts.
-- A method that mutates returns the walk it leaves, also when it returns an error.
pub mod Shape
pub mod Segments
use meritrank_rust.Prelude.{
  ℕ, ◌+◌, ◌-◌, List, [], ◌∷◌, ◌++◌, Option, none, some, Bool, true, false, ◌||◌, if◌then◌else◌, leb,
  ltb, ◌==◌, unwrap_or, length, take, drop, last?, head?, is_empty, contains,
}
use meritrank_rust.Errors.{
  Result, ok, err, panic, fatal, random_walk_push_self_loop, random_walk_push_neg_segment,
  random_walk_extend_two_neg,
}
use meritrank_rust.Deps.{NodeSet}

pub record RandomWalk : Type 0 where
  pub nodes : List ℕ
  pub negative_segment_start : Option ℕ

abbrev pub new : RandomWalk
new = record { nodes = []; negative_segment_start = none }

unfoldable pub from_nodes : List ℕ → RandomWalk
from_nodes nodes = record { nodes = nodes; negative_segment_start = none }

-- `_add_node`
unfoldable pub add_node : RandomWalk → ℕ → RandomWalk
add_node w node_id = record w { nodes = w.nodes ++ node_id ∷ [] }

abbrev pub len : RandomWalk → ℕ
len w = length w.nodes

abbrev pub has_node : RandomWalk → ℕ → Bool
has_node w node_id = contains w.nodes node_id

any_in : List ℕ → List ℕ → Bool
any_in set [] = false
any_in set (node ∷ nodes) = contains set node || any_in set nodes

unfoldable pub intersects_nodes : NodeSet → RandomWalk → List ℕ → Bool
unfolding any_in
intersects_nodes sets w nodes = any_in (sets.from_iter w.nodes) nodes

abbrev pub has_no_nodes : RandomWalk → Bool
has_no_nodes w = is_empty w.nodes

abbrev pub first_node : RandomWalk → Option ℕ
first_node w = head? w.nodes

abbrev pub last_node : RandomWalk → Option ℕ
last_node w = last? w.nodes

-- Only the nodes are dropped.
unfoldable pub clear : RandomWalk → RandomWalk
clear w = record w { nodes = [] }

-- `prev` is the last node; a node that repeats it is refused.
unfoldable pub repeats : Option ℕ → ℕ → Bool
repeats none node_id = false
repeats (some prev) node_id = prev == node_id

unfoldable pub mark_step : RandomWalk → ℕ → Bool → RandomWalk × Result (Unit {0})
mark_step w index true = (w, ok tt)
mark_step w index false = elim w.negative_segment_start [
  | some n ↦ (w, fatal random_walk_push_neg_segment)
  | none ↦ (record w { negative_segment_start = some index }, ok tt)
]

unfoldable pub push : RandomWalk → ℕ → Bool → RandomWalk × Result (Unit {0})
unfolding repeats mark_step
push w node_id step_is_positive =
    if repeats (last? w.nodes) node_id
    then (w, fatal random_walk_push_self_loop)
    else mark_step (record w { nodes = w.nodes ++ node_id ∷ [] }) (length w.nodes) step_is_positive

unfoldable pub insert_first : RandomWalk → ℕ → RandomWalk
insert_first w node_id = record w { nodes = node_id ∷ w.nodes }

-- `self.negative_segment_start.unwrap_or(self.nodes.len())`
abbrev pub boundary : RandomWalk → ℕ
boundary w = unwrap_or w.negative_segment_start (length w.nodes)

unfoldable pub positive_subsegment : RandomWalk → List ℕ
positive_subsegment w = take (boundary w) w.nodes

unfoldable pub negative_subsegment : RandomWalk → List ℕ
negative_subsegment w = drop (boundary w) w.nodes

-- The start after an extension; the segment's start counts from the end of the walk.
extended_start : ℕ → Option ℕ → Option ℕ → Option ℕ
extended_start n old (some s) = some (n + s)
extended_start n old none = old

unfoldable pub both_some : Option ℕ → Option ℕ → Bool
both_some (some a) (some b) = true
both_some (some a) none = false
both_some none b = false

unfoldable pub extend : RandomWalk → RandomWalk → RandomWalk × Result (Unit {0})
unfolding extended_start both_some
extend w new_segment =
    if both_some w.negative_segment_start new_segment.negative_segment_start
    then (w, fatal random_walk_extend_two_neg)
    else (
      record {
        nodes = w.nodes ++ new_segment.nodes;
        negative_segment_start =
            extended_start (length w.nodes) w.negative_segment_start
              new_segment.negative_segment_start;
      },
      ok tt,
    )

-- `filter(|neg_start| at <= neg_start)`: what moves to the new segment, and what stays.
unfoldable pub moved_start : ℕ → Option ℕ → Option ℕ
moved_start at (some n) = if leb at n then some (n - at) else none
moved_start at none = none

unfoldable pub kept_start : ℕ → Option ℕ → Option ℕ
kept_start at (some n) = if leb at n then none else some n
kept_start at none = none

-- The walk that stays and the segment cut off; `split_off` panics past the end.
unfoldable pub split_from : RandomWalk → ℕ → Result (RandomWalk × RandomWalk)
unfolding moved_start kept_start
split_from w at =
    if ltb (length w.nodes) at
    then panic
    else ok (
      record {
        nodes = take at w.nodes;
        negative_segment_start = kept_start at w.negative_segment_start;
      },
      record {
        nodes = drop at w.nodes;
        negative_segment_start = moved_start at w.negative_segment_start;
      },
    )
