-- ===== src/Rank/State.antt =====
-- core/src/rank.rs: the state of `MeritRank`, and how its methods run. A method takes the value with
-- the state of the thread's generator and returns both as it leaves them, also where it returns an
-- error in the middle.
use meritrank_rust.Prelude.{ℕ, zero, suc, ◌+◌, List, [], ◌∷◌, none, some, Bool, true, false}
use meritrank_rust.Deps.{Deps}
use meritrank_rust.Errors.{Result, ok, err, panic, no_fuel, fatal, InternalFatal}
use meritrank_rust.Counter.{increment_unique_counts}
use meritrank_rust.RandomWalk.{RandomWalk, positive_subsegment, negative_subsegment}
use meritrank_rust.Graph.Edges
use meritrank_rust.Graph.Edges.{Graph, get_node_data, edge_weight}
use meritrank_rust.WalkStorage
use meritrank_rust.WalkStorage.{
  WalkStorage, Hits, with_entry, revert_hits, get_block_start, get_walk, put_walk,
  ensure_block_for_ego, clear_block_for_ego, update_walk_bookkeeping, assert_visits_consistency,
  find_affected_walkids, split_and_remove_from_bookkeeping, get_visits_through_node,
}

module _ (d : Deps) where
  pub record MeritRank : Type 0 where
    pub graph : Graph d
    pub walks : WalkStorage
    pub hits : Hits
    pub alpha : d.F

  unfoldable pub new : Graph d → ℕ → MeritRank
  new graph walks_per_ego = record {
    graph = graph;
    walks = WalkStorage.new walks_per_ego;
    hits = record { pos_hits = []; neg_hits = [] };
    alpha = d.default_alpha;
  }

  pub record World : Type 0 where
    pub mr : MeritRank
    pub state : d.rng.State

  abbrev pub M : Type 0 → Type 0
  M A = World → World × Result A

  -- The walk's nodes are counted for its ego.
  unfoldable pub count_hits : Hits → ℕ → RandomWalk → Hits
  count_hits hits ego walk = record {
    pos_hits =
        with_entry ego (λ c. increment_unique_counts d.sets c (positive_subsegment walk))
          hits.pos_hits;
    neg_hits =
        with_entry ego (λ c. increment_unique_counts d.sets c (negative_subsegment walk))
          hits.neg_hits;
  }

  -- `clear_walks`: the graph is preserved.
  unfoldable pub clear_walks : MeritRank → MeritRank
  clear_walks mr = record mr {
    walks = WalkStorage.clear mr.walks;
    hits = record { pos_hits = []; neg_hits = [] };
  }

  unfoldable pub get_new_nodeid : MeritRank → MeritRank × ℕ
  get_new_nodeid mr = (
    record mr { graph = (Edges.get_new_nodeid d mr.graph).0 },
    (Edges.get_new_nodeid d mr.graph).1,
  )

-- `for i in 0..left`, as the ids from `walk_id` on
unfoldable pub ids_from : ℕ → ℕ → List ℕ
ids_from walk_id zero = []
ids_from walk_id (suc left) = walk_id ∷ ids_from (walk_id + 1) left

module _ {d : Deps} where
  abbrev pub bind_result : {A B : Type 0} → World d × Result A → (A → M d B) → World d × Result B
  bind_result (w, ok a) f = f a w
  bind_result (w, err e) f = (w, err e)
  bind_result (w, panic) f = (w, panic)
  bind_result (w, no_fuel) f = (w, no_fuel)

  infixl 5 ◌>>=◌ ◌>>◌
  unfoldable pub ◌>>=◌ : {A B : Type 0} → M d A → (A → M d B) → M d B
  ◌>>=◌ m f w = bind_result (m w) f

  abbrev pub ◌>>◌ : {B : Type 0} → M d (Unit {0}) → M d B → M d B
  m >> k = m >>= λ _. k

  abbrev pub return : {A : Type 0} → A → M d A
  return a w = (w, ok a)

  abbrev pub lift : {A : Type 0} → Result A → M d A
  lift r w = (w, r)

  unfoldable pub when : Bool → M d (Unit {0}) → M d (Unit {0})
  when true m = m
  when false m = return tt

  -- `for x in xs { body(x)?; }`
  unfoldable pub for_each : {A : Type 0} → List A → (A → M d (Unit {0})) → M d (Unit {0})
  for_each [] body w = (w, ok tt)
  for_each (x ∷ xs) body w = bind_result (body x w) (λ _. for_each xs body)

  abbrev pub set_mr : World d → MeritRank d → World d
  set_mr w mr = record w { mr = mr }

  unfoldable pub on_walks : {A : Type 0} → (WalkStorage → WalkStorage × Result A) → M d A
  on_walks f w = (set_mr w (record (w.mr) { walks = (f w.mr.walks).0 }), (f w.mr.walks).1)

  unfoldable pub on_graph : {A : Type 0} → (Graph d → Graph d × Result A) → M d A
  on_graph f w = (set_mr w (record (w.mr) { graph = (f w.mr.graph).0 }), (f w.mr.graph).1)

  -- The walk in a slot, or the error of the place that looks for it.
  unfoldable pub walk_at : InternalFatal → ℕ → M d RandomWalk
  walk_at site walk_id w = elim (get_walk w.mr.walks walk_id) [
    | none ↦ (w, fatal site)
    | some walk ↦ (w, ok walk)
  ]

  -- A method called on the walk of a slot, which keeps what the method leaves.
  unfoldable pub on_walk :
      {A : Type 0} → InternalFatal → ℕ → (RandomWalk → RandomWalk × Result A) → M d A
  on_walk site walk_id f w = elim (get_walk w.mr.walks walk_id) [
    | none ↦ (w, fatal site)
    | some walk ↦
        (set_mr w (record (w.mr) { walks = put_walk w.mr.walks walk_id (f walk).0 }), (f walk).1)
  ]

  -- A method of the graph that draws, called on the walk of a slot.
  unfoldable pub drawn_walk :
      World d
      → ℕ
      → Graph d × d.rng.State × (RandomWalk × Result (Unit {0}))
      → World d × Result (Unit {0})
  drawn_walk w walk_id (g, s, (walk, r)) = (
    record {
      mr = record (w.mr) { graph = g; walks = put_walk w.mr.walks walk_id walk };
      state = s;
    },
    r,
  )

  unfoldable pub draw_on_walk :
      InternalFatal
      → ℕ
      → (Graph d
          → d.rng.State
          → RandomWalk
          → Graph d × d.rng.State × (RandomWalk × Result (Unit {0})))
      → M d (Unit {0})
  unfolding drawn_walk
  draw_on_walk site walk_id f w = elim (get_walk w.mr.walks walk_id) [
    | none ↦ (w, fatal site)
    | some walk ↦ drawn_walk w walk_id (f w.mr.graph w.state walk)
  ]

  unfoldable pub count_walk : ℕ → RandomWalk → M d (Unit {0})
  count_walk ego walk w =
      (set_mr w (record (w.mr) { hits = count_hits d w.mr.hits ego walk }), ok tt)

  unfoldable pub uncount_walk : ℕ → RandomWalk → M d (Unit {0})
  uncount_walk ego walk w =
      (set_mr w (record (w.mr) { hits = revert_hits d.sets w.mr.hits ego walk }), ok tt)
