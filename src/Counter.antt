-- ===== src/Counter.antt =====
-- core/src/counter.rs: hit counters by node.
-- A count is an i32 that starts at 0 and falls only while positive, so it is a natural number;
-- overflow past 2^31 - 1 is outside the model.
pub mod Laws
use meritrank_rust.Prelude.{
  ℕ, ◌+◌, ◌-◌, ◌≡◌, List, [], ◌∷◌, Option, none, some, if◌then◌else◌, ltb, unwrap_or,
}
use meritrank_rust.Prelude.IntMap
use meritrank_rust.Prelude.IntMap.{IntMap}
use meritrank_rust.Deps.{NodeSet}

pub record Counter : Type 0 where
  pub counter : IntMap ℕ

-- `new`, and `default` of `Counter` and `&Counter`
abbrev pub new : Counter
new = record { counter = [] }

unfoldable pub keys : Counter → List ℕ
keys c = IntMap.keys c.counter

-- `*self.counter.entry(item).or_insert(0) += 1`
increment : IntMap ℕ → ℕ → IntMap ℕ
increment m item = IntMap.insert item (unwrap_or (IntMap.get item m) 0 + 1) m

unfoldable pub increment_counts : Counter → List ℕ → Counter
unfolding increment
increment_counts c [] = c
increment_counts c (item ∷ items) =
    increment_counts (record { counter = increment c.counter item }) items

decrement : IntMap ℕ → ℕ → IntMap ℕ
decrement m item = elim (IntMap.get item m) [
  | none ↦ m
  | some n ↦ if ltb 0 n then IntMap.insert item (n - 1) m else m
]

unfoldable pub decrement_counts : Counter → List ℕ → Counter
unfolding decrement
decrement_counts c [] = c
decrement_counts c (item ∷ items) =
    decrement_counts (record { counter = decrement c.counter item }) items

unfoldable pub get_count : Counter → ℕ → ℕ
get_count c key = unwrap_or (IntMap.get key c.counter) 0

sum_values : IntMap ℕ → ℕ
sum_values [] = 0
sum_values ((k, v) ∷ m) = v + sum_values m

unfoldable pub total_count : Counter → ℕ
unfolding sum_values
total_count c = sum_values c.counter

module _ (sets : NodeSet) where
  unfoldable pub increment_unique_counts : Counter → List ℕ → Counter
  increment_unique_counts c items = increment_counts c (sets.from_iter items)

  unfoldable pub decrement_unique_counts : Counter → List ℕ → Counter
  decrement_unique_counts c items = decrement_counts c (sets.from_iter items)
