-- ===== src/Rank/Exact.antt =====
-- core/src/rank.rs: when the counters and the table of visits are those of the walks, and each ego's
-- block of slots holds its own walks only.
pub mod Counted
pub mod Blocks
pub mod Pending
pub mod Redrawing
pub mod Clear
pub mod SetEdge
pub mod Calculate
use meritrank_rust.Prelude.{
  ℕ, ◌+◌, ◌≤◌, ◌<◌, ◌≡◌, ◌⊎◌, List, [], ◌∷◌, Option, none, some, Bool, true, false, ◌&&◌,
  if◌then◌else◌, ◌==◌, unwrap_or, length, head?, contains, get_elem?,
}
use meritrank_rust.Prelude.IntMap
use meritrank_rust.Prelude.IntMap.{IntMap}
use meritrank_rust.Counter
use meritrank_rust.Counter.{Counter, get_count}
use meritrank_rust.RandomWalk.{RandomWalk, positive_subsegment, negative_subsegment}
use meritrank_rust.WalkStorage.{WalkStorage, Hits, get_walk, get_block_start}
use meritrank_rust.WalkStorage.Index.{IsIndexed}

abbrev pub is_some_of : Option ℕ → ℕ → Bool
is_some_of none x = false
is_some_of (some y) x = y == x

-- How many walks pass a test.
unfoldable pub tally : (RandomWalk → Bool) → List RandomWalk → ℕ
tally test [] = 0
tally test (w ∷ ws) = (if test w then 1 else 0) + tally test ws

-- The walk is the ego's, and hits the node before or from its mark.
abbrev pub hits_before : ℕ → ℕ → RandomWalk → Bool
hits_before ego node w = is_some_of (head? w.nodes) ego && contains (positive_subsegment w) node

abbrev pub hits_behind : ℕ → ℕ → RandomWalk → Bool
hits_behind ego node w = is_some_of (head? w.nodes) ego && contains (negative_subsegment w) node

-- What a table of counters says; an ego or a node that is not there has none.
abbrev pub hit_count : IntMap Counter → ℕ → ℕ → ℕ
hit_count table ego node = get_count (unwrap_or (IntMap.get ego table) Counter.new) node

-- Each counter is the number of the ego's walks that hit the node.
pub record IsCounted (walks : List RandomWalk) (hits : Hits) : Type 0 where
  pub before :
      (ego node : ℕ) → hit_count hits.pos_hits ego node ≡ tally (hits_before ego node) walks
  pub behind :
      (ego node : ℕ) → hit_count hits.neg_hits ego node ≡ tally (hits_behind ego node) walks

-- A slot of an ego's block.
abbrev pub InBlock : WalkStorage → ℕ → ℕ → Type 0
InBlock st ego i =
    (start : ℕ) × (get_block_start st ego ≡ some start)
    × (start ≤ i)
    × (i < start + st.walks_per_ego)

-- A block holds walks of its ego or empty ones, and blocks do not overlap.
pub record IsStored (st : WalkStorage) : Type 0 where
  pub owned :
      (ego i : ℕ) (w : RandomWalk)
      → InBlock st ego i
      → get_walk st i ≡ some w
      → (w.nodes ≡ []) ⊎ (head? w.nodes ≡ some ego)
  pub apart : (ego other i : ℕ) → InBlock st ego i → InBlock st other i → ego ≡ other
  pub bounded : (ego i : ℕ) → InBlock st ego i → i < length st.walks

-- The counters, the table of visits and the blocks fit the walks.
pub record IsExact (st : WalkStorage) (hits : Hits) : Type 0 where
  pub indexed : IsIndexed st
  pub counted : IsCounted st.walks hits
  pub stored : IsStored st
