-- ===== src/Rank/Checks.antt =====
-- core/src/rank.rs: the consistency checks, run where the build-time constant ASSERT is set.
use meritrank_rust.Prelude.{
  ℕ, suc, [], ◌∷◌, none, some, Bool, true, false, ◌&&◌, if◌then◌else◌, ltb, ◌==◌, contains, head?,
}
use meritrank_rust.Prelude.IntMap.{IntMap}
use meritrank_rust.Deps.{Deps}
use meritrank_rust.Errors.{
  Result, ok, panic, fatal, rank_assert_get_visits, rank_assert_pos_hits_count,
  rank_assert_neg_hits_count,
}
use meritrank_rust.RandomWalk.{RandomWalk, negative_subsegment}
use meritrank_rust.WalkStorage.{
  WalkStorage, get_walk, assert_visits_consistency, get_visits_through_node,
}
use meritrank_rust.Rank.State.{M, bind_result, ◌>>◌, lift, when, for_each, on_walks}

module _ (d : Deps) where
  -- The filters of the consistency check.
  starts_at : WalkStorage → ℕ → ℕ → (RandomWalk → Bool) → Bool
  starts_at st ego walkid test = elim (get_walk st walkid) [
    | none ↦ false
    | some walk ↦ elim (head? walk.nodes) [ none ↦ false | some x ↦ x == ego && test walk ]
  ]

  before_mark : ℕ → RandomWalk → Bool
  before_mark pos walk = elim walk.negative_segment_start [
    | none ↦ true
    | some seg_start ↦ ltb pos seg_start
  ]

  pos_visits : WalkStorage → ℕ → IntMap ℕ → ℕ
  pos_visits st ego [] = 0
  pos_visits st ego ((walkid, pos) ∷ m) =
      if starts_at st ego walkid (before_mark pos)
      then suc (pos_visits st ego m)
      else pos_visits st ego m

  neg_visits : WalkStorage → ℕ → ℕ → IntMap ℕ → ℕ
  neg_visits st ego peer [] = 0
  neg_visits st ego peer ((walkid, pos) ∷ m) =
      if starts_at st ego walkid (λ walk. contains (negative_subsegment walk) peer)
      then suc (neg_visits st ego peer m)
      else neg_visits st ego peer m

  check_pos : WalkStorage → ℕ → ℕ × ℕ → Result (Unit {0})
  check_pos st ego (peer, count) = elim (get_visits_through_node st peer) [
    | none ↦ fatal rank_assert_get_visits
    | some visits ↦
        if pos_visits st ego visits == count then ok tt else fatal rank_assert_pos_hits_count
  ]

  check_neg : WalkStorage → ℕ → ℕ × ℕ → Result (Unit {0})
  check_neg st ego (peer, count) = elim (get_visits_through_node st peer) [
    | none ↦ panic
    | some visits ↦
        if neg_visits st ego peer visits == count then ok tt else fatal rank_assert_neg_hits_count
  ]

  unfoldable pub assert_counters_consistency_after_edge_addition : M d (Unit {0})
  unfolding starts_at before_mark pos_visits neg_visits check_pos check_neg
  assert_counters_consistency_after_edge_addition w =
      bind_result
        (for_each w.mr.hits.pos_hits
          (λ e. for_each e.1.counter (λ pc. lift (check_pos w.mr.walks e.0 pc))) w)
        (λ _.
          for_each w.mr.hits.neg_hits
            (λ e. for_each e.1.counter (λ pc. lift (check_neg w.mr.walks e.0 pc))))

  unfoldable pub run_checks : Bool → M d (Unit {0})
  run_checks checks = when checks do
    on_walks (λ st. (st, assert_visits_consistency st))
    assert_counters_consistency_after_edge_addition
