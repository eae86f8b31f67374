-- ===== src/Rank/Calculate.antt =====
-- core/src/rank.rs: the walks of an ego are cleared or calculated anew. `checks` is the build-time
-- constant ASSERT, `fuel` the bound on the rounds of a draw (Graph/Walks).
use meritrank_rust.Prelude.{ℕ, none, some, Bool, true}
use meritrank_rust.Prelude.IntMap
use meritrank_rust.Prelude.IntMap.{IntMap}
use meritrank_rust.Deps.{Deps}
use meritrank_rust.Errors.{ok, rank_calculate_get_walk_mut}
use meritrank_rust.RandomWalk.{push}
use meritrank_rust.Graph.Walks.{continue_walk}
use meritrank_rust.WalkStorage.{
  get_block_start, ensure_block_for_ego, clear_block_for_ego, update_walk_bookkeeping,
}
use meritrank_rust.Rank.State.{
  M, bind_result, ◌>>=◌, ◌>>◌, for_each, ids_from, set_mr, on_walks, walk_at, on_walk, draw_on_walk,
  count_walk,
}
use meritrank_rust.Rank.Checks.{run_checks}

module _ (d : Deps) where
  unfoldable pub clear_block : ℕ → ℕ → M d (Unit {0})
  clear_block ego start_id w =
      let r = clear_block_for_ego d.sets w.mr.walks w.mr.hits ego start_id in
      (set_mr w (record (w.mr) { walks = r.0.0; hits = r.0.1 }), r.1)

  forget_ego : ℕ → M d (Unit {0})
  forget_ego ego w = (
    set_mr w (record (w.mr) {
      hits = record {
        pos_hits = IntMap.remove ego w.mr.hits.pos_hits;
        neg_hits = IntMap.remove ego w.mr.hits.neg_hits;
      };
    }),
    ok tt,
  )

  unfoldable pub clear_ego : ℕ → M d (Unit {0})
  unfolding forget_ego
  clear_ego ego w = elim (get_block_start w.mr.walks ego) [
    | none ↦ forget_ego ego w
    | some start_id ↦ bind_result (clear_block ego start_id w) (λ _. forget_ego ego)
  ]

  -- One round of the loop of `calculate`.
  unfoldable pub calculate_walk : ℕ → ℕ → ℕ → M d (Unit {0})
  calculate_walk fuel ego walk_id = do
    on_walk rank_calculate_get_walk_mut walk_id (λ walk. push walk ego true)
    λ w.
        draw_on_walk rank_calculate_get_walk_mut walk_id
          (λ g s walk. continue_walk d fuel g s walk w.mr.alpha) w
    walk ← walk_at rank_calculate_get_walk_mut walk_id
    count_walk ego walk
    on_walks (λ st. (update_walk_bookkeeping st walk_id 0, ok tt))

  unfoldable pub calculate : Bool → ℕ → ℕ → M d (Unit {0})
  calculate checks fuel ego = do
    start_id ←
        on_walks (λ st. ((ensure_block_for_ego st ego).0, ok (ensure_block_for_ego st ego).1))
    clear_block ego start_id
    λ w. for_each (ids_from start_id w.mr.walks.walks_per_ego) (calculate_walk fuel ego) w
    run_checks d checks
