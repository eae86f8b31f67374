-- ===== src/RandomWalk/Segments.antt =====
-- core/src/random_walk.rs: the positive and the negative part of a walk, cutting and extending.
use meritrank_rust.Prelude.{
  ℕ, ◌≤◌, ◌≡◌, refl, List, [], ◌∷◌, ◌++◌, Option, none, some, true, false, ◌==◌, length, take,
  arith, length-take, take-append-drop, take_of_length-le, take-length, take-take,
}
use meritrank_rust.Errors.{ok}
use meritrank_rust.RandomWalk.{
  RandomWalk, new, push, extend, extended_start, both_some, split_from, clear, moved_start,
  kept_start, positive_subsegment, negative_subsegment, boundary,
}

-- Every node of a walk is in exactly one of its segments, in order.
pub positive-append-negative :
    (w : RandomWalk) → positive_subsegment w ++ negative_subsegment w ≡ w.nodes
unfolding positive_subsegment negative_subsegment
positive-append-negative w = take-append-drop (boundary w) w.nodes

rejoined_start :
    (at n : ℕ) (o : Option ℕ)
    → at ≤ n
    → (both_some (kept_start at o) (moved_start at o) ≡ false)
      × (extended_start at (kept_start at o) (moved_start at o) ≡ o)
unfolding both_some kept_start moved_start extended_start
rejoined_start at n none h = (refl, refl)
rejoined_start at n (some s) h = (ground arith, ground arith)

-- Where `split_from` returns, extending the walk that stays by the segment cut off returns ok and
-- gives the walk again, its mark included.
pub extend-split_from :
    (w kept cut : RandomWalk) (at : ℕ)
    → split_from w at ≡ ok (kept, cut)
    → extend kept cut ≡ (w, ok tt)
unfolding split_from extend
extend-split_from w kept cut at h = ground (
  arith,
  rejoined_start at (length w.nodes) w.negative_segment_start,
  take-append-drop at w.nodes,
  length-take at w.nodes,
)

kept_positive :
    (xs : List ℕ) (o : Option ℕ) (at : ℕ)
    → at ≤ length xs
    → positive_subsegment (record { nodes = take at xs; negative_segment_start = kept_start at o })
      ≡ take at (positive_subsegment (record { nodes = xs; negative_segment_start = o }))
unfolding positive_subsegment kept_start
kept_positive xs none at h = rw (take-length (take at xs), take-length xs)
kept_positive xs (some s) at h = ground (
  arith,
  take-length (take at xs),
  take-take s at xs,
  take-take at s xs,
  length-take s xs,
  take_of_length-le at (take s xs),
)

-- Where `split_from` returns, the positive segment of what stays is the first `at` nodes of the
-- walk's positive segment, and both its segments together are the walk's first `at` nodes.
pub split_from_segments :
    (w kept cut : RandomWalk) (at : ℕ)
    → split_from w at ≡ ok (kept, cut)
    → (positive_subsegment kept ≡ take at (positive_subsegment w))
      × (positive_subsegment kept ++ negative_subsegment kept ≡ take at w.nodes)
unfolding split_from
split_from_segments w kept cut at h =
    ground (arith, kept_positive w.nodes w.negative_segment_start at, positive-append-negative kept)

pub split_from_nodes :
    (w kept cut : RandomWalk) (at : ℕ)
    → split_from w at ≡ ok (kept, cut)
    → kept.nodes ++ cut.nodes ≡ w.nodes
unfolding split_from
split_from_nodes w kept cut at h = ground (arith, take-append-drop at w.nodes)

-- For a walk marked at position 1, after `clear` and two positive pushes of distinct nodes, the
-- second of these nodes is the walk's negative segment.
pub negative_subsegment-push-clear :
    (w : RandomWalk) (ego x : ℕ)
    → w.negative_segment_start ≡ some 1
    → (ego == x) ≡ false
    → negative_subsegment (push (push (clear w) ego true).0 x true).0 ≡ x ∷ []
unfolding push clear negative_subsegment
negative_subsegment-push-clear w ego x h d = ground arith

-- The same for a walk that was never marked: the node is positive.
pub negative_subsegment-push-new :
    (ego x : ℕ)
    → (ego == x) ≡ false
    → negative_subsegment (push (push new ego true).0 x true).0 ≡ []
unfolding push negative_subsegment
negative_subsegment-push-new ego x d = ground arith
