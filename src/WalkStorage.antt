-- ===== src/WalkStorage.antt =====
-- core/src/walk_storage.rs: the walks of all egos, each ego owning a block of slots, and for each
-- node the walks that visit it with the position of the first visit.
pub mod Visits
pub mod Index
pub mod Skips
pub mod Additions
use meritrank_rust.Prelude.{
  ℕ, zero, suc, ◌+◌, ◌-◌, List, [], ◌∷◌, ◌++◌, map, Option, none, some, Bool, true, false, not,
  ◌&&◌, if◌then◌else◌, leb, ltb, ◌==◌, unwrap_or, length, get_elem?, set, drop, replicate, is_empty,
  contains, is_some,
}
use meritrank_rust.Prelude.IntMap
use meritrank_rust.Prelude.IntMap.{IntMap}
use meritrank_rust.Deps.{Deps, NodeSet}
use meritrank_rust.Errors.{
  Result, ok, err, panic, no_fuel, fatal, walk_storage_split_get_mut, walk_storage_assert_visits,
  walk_storage_find_affected_get_walk, walk_decide_skip_deletion_pos, walk_decide_skip_addition_pos,
}
use meritrank_rust.Counter
use meritrank_rust.Counter.{Counter, decrement_unique_counts}
use meritrank_rust.RandomWalk.{
  RandomWalk, has_no_nodes, positive_subsegment, negative_subsegment, split_from,
}
use meritrank_rust.RandomWalk

pub record WalkStorage : Type 0 where
  pub visits : List (IntMap ℕ)
  pub walks : List RandomWalk
  pub walks_per_ego : ℕ
  pub ego_blocks : IntMap ℕ

abbrev pub new : ℕ → WalkStorage
new walks_per_ego = record {
  visits = [];
  walks = [];
  walks_per_ego = walks_per_ego;
  ego_blocks = [];
}

abbrev pub get_block_start : WalkStorage → ℕ → Option ℕ
get_block_start st ego = IntMap.get ego st.ego_blocks

abbrev pub get_walk : WalkStorage → ℕ → Option RandomWalk
get_walk st uid = get_elem? st.walks uid

-- `get_walk_mut` followed by an assignment
abbrev pub put_walk : WalkStorage → ℕ → RandomWalk → WalkStorage
put_walk st uid w = record st { walks = set st.walks uid w }

abbrev pub get_visits_through_node : WalkStorage → ℕ → Option (IntMap ℕ)
get_visits_through_node st node_id = get_elem? st.visits node_id

unfoldable pub ensure_block_for_ego : WalkStorage → ℕ → WalkStorage × ℕ
ensure_block_for_ego st ego = elim (get_block_start st ego) [
  | some start ↦ (st, start)
  | none ↦ (
    record st {
      walks = st.walks ++ replicate st.walks_per_ego RandomWalk.new;
      ego_blocks = IntMap.insert ego (length st.walks) st.ego_blocks;
    },
    length st.walks,
  )
]

-- `if let Some(visits) = self.visits.get_mut(node) { visits.remove(&walk_id) }`
unfoldable pub forget_visit : List (IntMap ℕ) → ℕ → ℕ → List (IntMap ℕ)
forget_visit visits walk_id node = elim (get_elem? visits node) [
  | none ↦ visits
  | some m ↦ set visits node (IntMap.remove walk_id m)
]

unfoldable pub forget_visits : List (IntMap ℕ) → ℕ → List ℕ → List (IntMap ℕ)
forget_visits visits walk_id [] = visits
forget_visits visits walk_id (node ∷ nodes) =
    forget_visits (forget_visit visits walk_id node) walk_id nodes

-- The two tables of counters, by ego.
pub record Hits : Type 0 where
  pub pos_hits : IntMap Counter
  pub neg_hits : IntMap Counter

-- `hits.entry(ego).or_default()`, updated in place
abbrev pub with_entry : ℕ → (Counter → Counter) → IntMap Counter → IntMap Counter
with_entry ego f hits = IntMap.insert ego (f (unwrap_or (IntMap.get ego hits) Counter.new)) hits

module _ (sets : NodeSet) where
  -- The counters as if the walk had never been.
  unfoldable pub revert_hits : Hits → ℕ → RandomWalk → Hits
  revert_hits hits ego walk = record {
    pos_hits =
        with_entry ego (λ c. decrement_unique_counts sets c (positive_subsegment walk))
          hits.pos_hits;
    neg_hits =
        with_entry ego (λ c. decrement_unique_counts sets c (negative_subsegment walk))
          hits.neg_hits;
  }

  -- The body of the loop of `clear_block_for_ego`.
  unfoldable pub clear_slot : WalkStorage → Hits → ℕ → ℕ → (WalkStorage × Hits) × Result (Unit {0})
  clear_slot st hits ego walk_id = elim (get_walk st walk_id) [
    | none ↦ ((st, hits), fatal walk_storage_split_get_mut)
    | some walk ↦ if has_no_nodes walk then ((st, hits), ok tt) else (
      (
        record st {
          visits = forget_visits st.visits walk_id walk.nodes;
          walks = set st.walks walk_id (RandomWalk.clear walk);
        },
        revert_hits hits ego walk,
      ),
      ok tt,
    )
  ]

  unfoldable pub and_then :
      (WalkStorage × Hits) × Result (Unit {0})
      → (WalkStorage → Hits → (WalkStorage × Hits) × Result (Unit {0}))
      → (WalkStorage × Hits) × Result (Unit {0})
  and_then ((st, hits), ok _) rest = rest st hits
  and_then ((st, hits), err e) rest = ((st, hits), err e)
  and_then ((st, hits), panic) rest = ((st, hits), panic)
  and_then ((st, hits), no_fuel) rest = ((st, hits), no_fuel)

  -- The slots from a walk id on, as many as are left.
  unfoldable pub clear_slots :
      ℕ → WalkStorage → Hits → ℕ → ℕ → (WalkStorage × Hits) × Result (Unit {0})
  clear_slots zero st hits ego walk_id = ((st, hits), ok tt)
  clear_slots (suc left) st hits ego walk_id =
      and_then (clear_slot st hits ego walk_id)
        (λ st' hits'. clear_slots left st' hits' ego (walk_id + 1))

  unfoldable pub clear_block_for_ego :
      WalkStorage → Hits → ℕ → ℕ → (WalkStorage × Hits) × Result (Unit {0})
  unfolding and_then clear_slots clear_slot
  clear_block_for_ego st hits ego start_id = clear_slots st.walks_per_ego st hits ego start_id

-- `self.visits.resize(node + 1, IntMap::default())`, where the table is shorter
abbrev pub grow : List (IntMap ℕ) → ℕ → List (IntMap ℕ)
grow visits node = visits ++ replicate (node + 1 - length visits) []

abbrev pub or_insert : ℕ → ℕ → IntMap ℕ → IntMap ℕ
or_insert walk_id pos m = if is_some (IntMap.get walk_id m) then m else IntMap.insert walk_id pos m

-- `self.visits[node].entry(walk_id).or_insert(pos)`
unfoldable pub note_visit : List (IntMap ℕ) → ℕ → ℕ → ℕ → List (IntMap ℕ)
note_visit visits walk_id pos node =
    set (grow visits node) node
      (or_insert walk_id pos (unwrap_or (get_elem? (grow visits node) node) []))

unfoldable pub note_visits : List (IntMap ℕ) → ℕ → ℕ → List ℕ → List (IntMap ℕ)
note_visits visits walk_id pos [] = visits
note_visits visits walk_id pos (node ∷ nodes) =
    note_visits (note_visit visits walk_id pos node) walk_id (pos + 1) nodes

unfoldable pub update_walk_bookkeeping : WalkStorage → ℕ → ℕ → WalkStorage
update_walk_bookkeeping st walk_id start_pos = elim (get_walk st walk_id) [
  | none ↦ st
  | some walk ↦ record st {
    visits = note_visits st.visits walk_id start_pos (drop start_pos walk.nodes);
  }
]

unfoldable pub clear : WalkStorage → WalkStorage
clear st = record st { visits = []; walks = []; ego_blocks = [] }

-- `self.walks[walkid].nodes[pos] != node`; an index out of range panics.
check_visit : WalkStorage → ℕ → ℕ → ℕ → Result (Unit {0})
check_visit st node walkid pos = elim (get_walk st walkid) [
  | none ↦ panic
  | some walk ↦ elim (get_elem? walk.nodes pos) [
    | none ↦ panic
    | some x ↦ if x == node then ok tt else fatal walk_storage_assert_visits
  ]
]

before : Result (Unit {0}) → Result (Unit {0}) → Result (Unit {0})
before (ok _) rest = rest
before (err e) rest = err e
before panic rest = panic
before no_fuel rest = no_fuel

check_visits : WalkStorage → ℕ → IntMap ℕ → Result (Unit {0})
check_visits st node [] = ok tt
check_visits st node ((walkid, pos) ∷ m) =
    before (check_visit st node walkid pos) (check_visits st node m)

check_nodes : WalkStorage → ℕ → List (IntMap ℕ) → Result (Unit {0})
check_nodes st node [] = ok tt
check_nodes st node (m ∷ ms) = before (check_visits st node m) (check_nodes st (suc node) ms)

unfoldable pub assert_visits_consistency : WalkStorage → Result (Unit {0})
unfolding check_visit before check_visits check_nodes
assert_visits_consistency st = check_nodes st 0 st.visits

-- The nodes cut off that the walk no longer visits lose the walk.
unfoldable pub forget_cut : List (IntMap ℕ) → ℕ → List ℕ → List ℕ → List (IntMap ℕ)
forget_cut visits walk_id kept [] = visits
forget_cut visits walk_id kept (node ∷ nodes) =
    forget_cut (if contains kept node then visits else forget_visit visits walk_id node) walk_id
      kept nodes

cut_walk : WalkStorage → ℕ → Result (RandomWalk × RandomWalk) → WalkStorage × Result (Unit {0})
cut_walk st walk_id (ok (kept, cut)) = (
  record st {
    walks = set st.walks walk_id kept;
    visits = forget_cut st.visits walk_id kept.nodes cut.nodes;
  },
  ok tt,
)
cut_walk st walk_id (err e) = (st, err e)
cut_walk st walk_id panic = (st, panic)
cut_walk st walk_id no_fuel = (st, no_fuel)

unfoldable pub split_and_remove_from_bookkeeping :
    WalkStorage → ℕ → ℕ → WalkStorage × Result (Unit {0})
unfolding cut_walk
split_and_remove_from_bookkeeping st walk_id cut_pos = elim (get_walk st walk_id) [
  | none ↦ (st, fatal walk_storage_split_get_mut)
  | some walk ↦ cut_walk st walk_id (split_from walk cut_pos)
]

-- The first position from `pos` on where `from` is followed by `to`.
find_step : ℕ → ℕ → ℕ → List ℕ → Option ℕ
find_step from to pos [] = none
find_step from to pos (x ∷ []) = none
find_step from to pos (x ∷ y ∷ rest) =
    if x == from && y == to then some pos else find_step from to (suc pos) (y ∷ rest)

skip_or_cut : Option ℕ → ℕ → Bool × ℕ
skip_or_cut none pos = (true, pos)
skip_or_cut (some at) pos = (false, at)

unfoldable pub decide_skip_invalidation_on_edge_deletion :
    RandomWalk → ℕ → ℕ × ℕ → Result (Bool × ℕ)
unfolding find_step skip_or_cut
decide_skip_invalidation_on_edge_deletion walk pos (invalidated_node, dst_node) =
    if leb (length walk.nodes) pos
    then fatal walk_decide_skip_deletion_pos
    else if pos == length walk.nodes - 1
    then ok (true, pos)
    else ok (skip_or_cut (find_step invalidated_node dst_node pos (drop pos walk.nodes)) pos)

module _ (d : Deps) where
  -- `prob > 0.0 && rng.random::<Weight>() < prob`: the generator is used only behind the `&&`.
  roll : d.rng.State → d.F → d.rng.State × Bool
  roll s prob =
      if d.lt d.zero prob then ((d.rng.random s).1, d.lt (d.rng.random s).0 prob) else (s, false)

  -- The probability by the side of the walk's mark that a position is on.
  abbrev pub prob_at : RandomWalk → d.F × d.F → ℕ → d.F
  prob_at walk (prob_pos_segment, prob_neg_segment) pos = elim walk.negative_segment_start [
    | none ↦ prob_pos_segment
    | some neg_start ↦ if leb neg_start pos then prob_neg_segment else prob_pos_segment
  ]

  -- The state left, whether to skip, and the last occurrence looked at.
  scan_addition :
      RandomWalk → d.F × d.F → ℕ → d.rng.State → ℕ → ℕ → List ℕ → d.rng.State × (Bool × ℕ)
  scan_addition walk probs node s pos new_pos [] = (s, (true, new_pos))
  scan_addition walk probs node s pos new_pos (x ∷ xs) = elim (x == node) [
    | false ↦ scan_addition walk probs node s (suc pos) new_pos xs
    | true ↦
        let r = roll s (prob_at walk probs pos) in
        elim r.1 [
          | true ↦ (r.0, (false, pos))
          | false ↦ scan_addition walk probs node r.0 (suc pos) pos xs
        ]
  ]

  unfoldable pub decide_skip_invalidation_on_edge_addition :
      RandomWalk → ℕ → ℕ × ℕ → d.F × d.F → d.rng.State → d.rng.State × Result (Bool × ℕ)
  unfolding roll scan_addition
  decide_skip_invalidation_on_edge_addition walk pos (invalidated_node, dst_node) probs s =
      if leb (length walk.nodes) pos
      then (s, fatal walk_decide_skip_addition_pos)
      else let r = scan_addition walk probs invalidated_node s pos pos (drop pos walk.nodes) in
        (r.0, ok r.1)

  unfoldable pub decide_skip_invalidation :
      RandomWalk → ℕ → ℕ × ℕ → Option (d.F × d.F) → d.rng.State → d.rng.State × Result (Bool × ℕ)
  decide_skip_invalidation walk pos edge (some probs) s =
      decide_skip_invalidation_on_edge_addition walk pos edge probs s
  decide_skip_invalidation walk pos edge none s =
      (s, decide_skip_invalidation_on_edge_deletion walk pos edge)

  -- A walk that is not skipped is put before those found later.
  abbrev pub kept_walk : ℕ → Bool × ℕ → List (ℕ × ℕ) → List (ℕ × ℕ)
  kept_walk walk_id (true, new_pos) found = found
  kept_walk walk_id (false, new_pos) found = (walk_id, new_pos) ∷ found

  abbrev pub add_found :
      ℕ → Bool × ℕ → d.rng.State × Result (List (ℕ × ℕ)) → d.rng.State × Result (List (ℕ × ℕ))
  add_found walk_id decision (s, ok found) = (s, ok (kept_walk walk_id decision found))
  add_found walk_id decision (s, err e) = (s, err e)
  add_found walk_id decision (s, panic) = (s, panic)
  add_found walk_id decision (s, no_fuel) = (s, no_fuel)

  abbrev pub decided :
      ℕ
      → d.rng.State × Result (Bool × ℕ)
      → (d.rng.State → d.rng.State × Result (List (ℕ × ℕ)))
      → d.rng.State × Result (List (ℕ × ℕ))
  decided walk_id (s, ok decision) rest = add_found walk_id decision (rest s)
  decided walk_id (s, err e) rest = (s, err e)
  decided walk_id (s, panic) rest = (s, panic)
  decided walk_id (s, no_fuel) rest = (s, no_fuel)

  decide_walk :
      WalkStorage
      → ℕ
      → Option ℕ
      → Option (d.F × d.F)
      → d.rng.State
      → ℕ
      → ℕ
      → d.rng.State × Result (Bool × ℕ)
  decide_walk st invalidated_node none probs s walk_id visit_pos = (s, ok (false, visit_pos))
  decide_walk st invalidated_node (some dst_node) probs s walk_id visit_pos =
      elim (get_walk st walk_id) [
        | none ↦ (s, fatal walk_storage_find_affected_get_walk)
        | some walk ↦ decide_skip_invalidation walk visit_pos (invalidated_node, dst_node) probs s
      ]

  find_affected :
      WalkStorage
      → ℕ
      → Option ℕ
      → Option (d.F × d.F)
      → d.rng.State
      → IntMap ℕ
      → d.rng.State × Result (List (ℕ × ℕ))
  find_affected st invalidated_node dst_node probs s [] = (s, ok [])
  find_affected st invalidated_node dst_node probs s ((walk_id, visit_pos) ∷ m) =
      decided walk_id (decide_walk st invalidated_node dst_node probs s walk_id visit_pos)
        (λ s'. find_affected st invalidated_node dst_node probs s' m)

  -- `OPTIMIZE_INVALIDATION` is true.
  unfoldable pub find_affected_walkids :
      WalkStorage
      → ℕ
      → Option ℕ
      → Option (d.F × d.F)
      → d.rng.State
      → d.rng.State × Result (List (ℕ × ℕ))
  unfolding decide_walk find_affected decide_skip_invalidation
  find_affected_walkids st invalidated_node dst_node probs s =
      elim (get_visits_through_node st invalidated_node) [
        | none ↦ (s, ok [])
        | some walks ↦ find_affected st invalidated_node dst_node probs s walks
      ]
