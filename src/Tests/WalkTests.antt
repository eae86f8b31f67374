-- ===== src/Tests/WalkTests.antt =====
-- Walks, counters and the storage of walks at concrete inputs.
use meritrank_rust.Prelude.{
  ℕ, zero, suc, ◌≡◌, refl, none, some, Bool, true, false, [], ◌∷◌, arith, if◌then◌else◌, ◌==◌,
}
use meritrank_rust.Errors.{ok}
use meritrank_rust.Counter
use meritrank_rust.Counter.{
  Counter, increment_counts, decrement_counts, get_count, total_count, increment_unique_counts,
  decrement_unique_counts,
}
use meritrank_rust.Counter.Laws.{get_count-increment_unique_counts}
use meritrank_rust.RandomWalk.{
  RandomWalk, push, extend, split_from, clear, positive_subsegment, negative_subsegment,
}
use meritrank_rust.RandomWalk.Shape.{IsWalk, push-IsWalk}
use meritrank_rust.RandomWalk.Segments.{extend-split_from, negative_subsegment-push-clear}
use meritrank_rust.WalkStorage.{
  WalkStorage, Hits, ensure_block_for_ego, clear_block_for_ego, update_walk_bookkeeping,
  note_visits, split_and_remove_from_bookkeeping, decide_skip_invalidation_on_edge_deletion,
  decide_skip_invalidation_on_edge_addition, forget_cut, forget_visit, forget_visits, note_visit,
}
use meritrank_rust.WalkStorage.Index.{
  IsIndexed, first_visit, ensure_block_for_ego-IsIndexed, update_walk_bookkeeping-IsIndexed,
  split_and_remove_from_bookkeeping-IsIndexed, clear_block_for_ego-IsIndexed,
}
use meritrank_rust.WalkStorage.Visits.{visit_of}
use meritrank_rust.WalkStorage.Skips.{Decides, decide_skip_on_deletion-Decides}
use meritrank_rust.WalkStorage.Additions.{DecidesHit, decide_skip_on_addition-DecidesHit}
use meritrank_rust.Tests.Concrete.{deps, listed, pos}

-- The walk 4 → 7 → 4 → 9, whose third step is negative.
abbrev marked : RandomWalk
marked = record { nodes = 4 ∷ 7 ∷ 4 ∷ 9 ∷ []; negative_segment_start = some 3 }

program : Unit {0}
unfolding push extend split_from clear positive_subsegment negative_subsegment increment_counts
    decrement_counts get_count total_count increment_unique_counts decrement_unique_counts
    update_walk_bookkeeping note_visits note_visit split_and_remove_from_bookkeeping forget_cut
    forget_visit forget_visits clear_block_for_ego ensure_block_for_ego
    decide_skip_invalidation_on_edge_deletion decide_skip_invalidation_on_edge_addition
program = tt

marked-IsWalk : IsWalk marked
marked-IsWalk = record { no_repeat = (refl, (refl, (refl, tt))); within = omega arith }

push-IsWalk_example : IsWalk (push marked 5 false).0
push-IsWalk_example = push-IsWalk marked 5 false marked-IsWalk

tail_walk : RandomWalk
tail_walk = record { nodes = 5 ∷ []; negative_segment_start = none }

abbrev kept_part : RandomWalk
kept_part = record { nodes = 4 ∷ 7 ∷ []; negative_segment_start = none }

abbrev cut_part : RandomWalk
cut_part = record { nodes = 4 ∷ 9 ∷ []; negative_segment_start = some 1 }

extend-split_from_example : extend kept_part cut_part ≡ (marked, ok tt)
unfolding program
extend-split_from_example = extend-split_from marked kept_part cut_part 2 refl

abbrev stale : RandomWalk
stale = record { nodes = 0 ∷ 3 ∷ []; negative_segment_start = some 1 }

negative_subsegment-push-clear_example :
    negative_subsegment (push (push (clear stale) 0 true).0 8 true).0 ≡ 8 ∷ []
negative_subsegment-push-clear_example = negative_subsegment-push-clear stale 0 8 refl refl

get_count-increment_unique_counts_example :
    get_count (increment_unique_counts listed Counter.new (4 ∷ 7 ∷ 4 ∷ [])) 4 ≡ 1
unfolding program
get_count-increment_unique_counts_example =
    get_count-increment_unique_counts listed Counter.new (4 ∷ 7 ∷ 4 ∷ []) 4

-- One walk in slot 0, with its visits.
abbrev stored : WalkStorage
stored = record { visits = []; walks = marked ∷ []; walks_per_ego = 1; ego_blocks = (4, 0) ∷ [] }

abbrev indexed : WalkStorage
indexed = update_walk_bookkeeping stored 0 0

nothing_before :
    (node k : ℕ)
    → visit_of stored.visits node k ≡ (if 0 == k then none else first_visit stored.walks node k)
nothing_before node zero = refl
nothing_before node (suc k) = ground arith

indexed-IsIndexed : IsIndexed indexed
indexed-IsIndexed =
    update_walk_bookkeeping-IsIndexed stored 0 0 marked refl (omega arith) nothing_before

visits_found :
    (visit_of indexed.visits 4 0 ≡ some 0)
    × (visit_of indexed.visits 9 0 ≡ some 3)
    × (visit_of indexed.visits 5 0 ≡ none)
unfolding program
visits_found = (refl, refl, refl)

update_walk_bookkeeping-IsIndexed_example : IsIndexed (update_walk_bookkeeping stored 0 0)
update_walk_bookkeeping-IsIndexed_example =
    update_walk_bookkeeping-IsIndexed stored 0 0 marked refl (omega arith) nothing_before

split_and_remove_from_bookkeeping-IsIndexed_example :
    IsIndexed (split_and_remove_from_bookkeeping indexed 0 2).0
split_and_remove_from_bookkeeping-IsIndexed_example =
    split_and_remove_from_bookkeeping-IsIndexed indexed 0 2 indexed-IsIndexed

abbrev no_hits : Hits
no_hits = record { pos_hits = []; neg_hits = [] }

clear_block_for_ego-IsIndexed_example :
    IsIndexed (clear_block_for_ego listed indexed no_hits 4 0).0.0
clear_block_for_ego-IsIndexed_example =
    clear_block_for_ego-IsIndexed listed indexed no_hits 4 0 indexed-IsIndexed

ensure_block_for_ego-IsIndexed_example : IsIndexed (ensure_block_for_ego indexed 6).0
ensure_block_for_ego-IsIndexed_example = ensure_block_for_ego-IsIndexed indexed 6 indexed-IsIndexed

decide_skip_on_deletion-Decides_example :
    (r : Bool × ℕ) × (decide_skip_invalidation_on_edge_deletion marked 0 (4, 9) ≡ ok r)
    × Decides marked.nodes 4 9 0 r
decide_skip_on_deletion-Decides_example = decide_skip_on_deletion-Decides marked 0 4 9 (omega arith)

-- The first visit is not hit, by a draw of 8, and the second is.
decide_skip_on_addition-DecidesHit_example :
    (left : deps.rng.State) × (r : Bool × ℕ) × (decide_skip_invalidation_on_edge_addition deps
        marked 0
        (4, 5)
        (pos 3, pos 9)
        (8 ∷ 1 ∷ [])
      ≡ (left, ok r))
    × DecidesHit deps (some 3) (pos 3, pos 9) 4 (8 ∷ 1 ∷ []) 0 0 (4 ∷ 7 ∷ 4 ∷ 9 ∷ []) (left, r)
decide_skip_on_addition-DecidesHit_example =
    decide_skip_on_addition-DecidesHit deps marked (pos 3, pos 9) 4 0 5 (8 ∷ 1 ∷ []) (omega arith)
