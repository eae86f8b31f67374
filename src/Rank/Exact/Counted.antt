-- ===== src/Rank/Exact/Counted.antt =====
-- core/src/rank.rs: counting a walk, and taking its counts back.
use meritrank_rust.Prelude.{
  ℕ, zero, suc, ◌+◌, ◌≡◌, List, [], ◌∷◌, some, Bool, if◌then◌else◌, ◌==◌, arith, unwrap_or, head?,
  get_elem?, set,
}
use meritrank_rust.Prelude.IntMap
use meritrank_rust.Prelude.IntMap.{IntMap}
use meritrank_rust.Deps.{Deps}
use meritrank_rust.Counter
use meritrank_rust.Counter.{Counter, increment_unique_counts, decrement_unique_counts, get_count}
use meritrank_rust.Counter.Laws.{
  get_count-increment_unique_counts, get_count-decrement_unique_counts,
}
use meritrank_rust.RandomWalk.{RandomWalk, new, positive_subsegment, negative_subsegment}
use meritrank_rust.WalkStorage.{Hits, revert_hits, with_entry}
use meritrank_rust.Rank.State.{count_hits}
use meritrank_rust.Rank.Exact.{tally, hit_count, hits_before, hits_behind, IsCounted}

abbrev one : Bool → ℕ
one b = if b then 1 else 0

pub tally-set :
    (test : RandomWalk → Bool) (ws : List RandomWalk) (i : ℕ) (u v : RandomWalk)
    → get_elem? ws i ≡ some u
    → tally test (set ws i v) + one (test u) ≡ tally test ws + one (test v)
unfolding tally
tally-set test [] i u v h = cc
tally-set test (w ∷ ws) zero u v h = ground arith
tally-set test (w ∷ ws) (suc i) u v h = omega (arith, tally-set test ws i u v h)

-- An update of one ego's counter, read anywhere.
hit_count-with_entry :
    (table : IntMap Counter) (ego e node : ℕ) (f : Counter → Counter)
    → hit_count (with_entry ego f table) e node ≡ (
        if ego == e
        then get_count (f (unwrap_or (IntMap.get e table) Counter.new)) node
        else hit_count table e node)
hit_count-with_entry table ego e node f =
    ground (arith, IntMap.get-insert e ego (f (unwrap_or (IntMap.get ego table) Counter.new)) table)

module _ (d : Deps) where
  pub count_hits-IsCounted :
      (ws : List RandomWalk) (i ego : ℕ) (w : RandomWalk) (hits : Hits)
      → get_elem? ws i ≡ some w
      → head? w.nodes ≡ some ego
      → IsCounted (set ws i new) hits
      → IsCounted ws (count_hits d hits ego w)
  unfolding count_hits
  count_hits-IsCounted ws i ego w hits found head p = record {
    before = λ e node. ground (
      arith,
      p.before e node,
      tally-set (hits_before e node) ws i w new found,
      hit_count-with_entry hits.pos_hits ego e node
          (λ c. increment_unique_counts d.sets c (positive_subsegment w)),
      get_count-increment_unique_counts d.sets (unwrap_or (IntMap.get e hits.pos_hits) Counter.new)
          (positive_subsegment w) node,
    );
    behind = λ e node. ground (
      arith,
      p.behind e node,
      tally-set (hits_behind e node) ws i w new found,
      hit_count-with_entry hits.neg_hits ego e node
          (λ c. increment_unique_counts d.sets c (negative_subsegment w)),
      get_count-increment_unique_counts d.sets (unwrap_or (IntMap.get e hits.neg_hits) Counter.new)
          (negative_subsegment w) node,
    );
  }

  pub revert_hits-IsCounted :
      (ws : List RandomWalk) (i ego : ℕ) (w : RandomWalk) (hits : Hits)
      → get_elem? ws i ≡ some w
      → head? w.nodes ≡ some ego
      → IsCounted ws hits
      → IsCounted (set ws i new) (revert_hits d.sets hits ego w)
  unfolding revert_hits
  revert_hits-IsCounted ws i ego w hits found head p = record {
    before = λ e node. ground (
      arith,
      p.before e node,
      tally-set (hits_before e node) ws i w new found,
      hit_count-with_entry hits.pos_hits ego e node
          (λ c. decrement_unique_counts d.sets c (positive_subsegment w)),
      get_count-decrement_unique_counts d.sets (unwrap_or (IntMap.get e hits.pos_hits) Counter.new)
          (positive_subsegment w) node,
    );
    behind = λ e node. ground (
      arith,
      p.behind e node,
      tally-set (hits_behind e node) ws i w new found,
      hit_count-with_entry hits.neg_hits ego e node
          (λ c. decrement_unique_counts d.sets c (negative_subsegment w)),
      get_count-decrement_unique_counts d.sets (unwrap_or (IntMap.get e hits.neg_hits) Counter.new)
          (negative_subsegment w) node,
    );
  }

-- A walk without nodes hits nothing, so any of these may stand in its slot.
pub IsCounted-empty :
    (ws : List RandomWalk) (i : ℕ) (u v : RandomWalk) (hits : Hits)
    → get_elem? ws i ≡ some u
    → u.nodes ≡ []
    → v.nodes ≡ []
    → IsCounted ws hits
    → IsCounted (set ws i v) hits
IsCounted-empty ws i u v hits found eu ev p = record {
  before = λ e node. ground (arith, p.before e node, tally-set (hits_before e node) ws i u v found);
  behind = λ e node. ground (arith, p.behind e node, tally-set (hits_behind e node) ws i u v found);
}
