-- ===== src/Counter/Laws.antt =====
-- core/src/counter.rs: counts before and after an update.
use meritrank_rust.Prelude.{
  ℕ, ◌+◌, ◌-◌, ◌≡◌, ◌∙◌, ap, List, [], ◌∷◌, if◌then◌else◌, unwrap_or, arith, count, contains, ◌==◌,
  length,
}
use meritrank_rust.Prelude.IntMap
use meritrank_rust.Prelude.IntMap.{IntMap, get-insert}
use meritrank_rust.Deps.{NodeSet}
use meritrank_rust.Counter.{
  Counter, increment, increment_counts, decrement, decrement_counts, get_count, sum_values,
  total_count, increment_unique_counts, decrement_unique_counts,
}

get_count-increment :
    (m : IntMap ℕ) (x k : ℕ)
    → get_count (record { counter = increment m x }) k
      ≡ get_count (record { counter = m }) k + (if x == k then 1 else 0)
unfolding get_count increment
get_count-increment m x k = ground (arith, get-insert k x (unwrap_or (IntMap.get x m) 0 + 1) m)

pub get_count-increment_counts :
    (c : Counter) (items : List ℕ) (k : ℕ)
    → get_count (increment_counts c items) k ≡ get_count c k + count k items
unfolding increment_counts
get_count-increment_counts c [] k = omega arith
get_count-increment_counts c (x ∷ items) k = ground (
  arith,
  get_count-increment_counts (record { counter = increment c.counter x }) items k,
  get_count-increment c.counter x k,
)

get_count-decrement :
    (m : IntMap ℕ) (x k : ℕ)
    → get_count (record { counter = decrement m x }) k
      ≡ get_count (record { counter = m }) k - (if x == k then 1 else 0)
unfolding get_count decrement
get_count-decrement m x k = ground (arith, get-insert k x (unwrap_or (IntMap.get x m) 0 - 1) m)

pub get_count-decrement_counts :
    (c : Counter) (items : List ℕ) (k : ℕ)
    → get_count (decrement_counts c items) k ≡ get_count c k - count k items
unfolding decrement_counts
get_count-decrement_counts c [] k = omega arith
get_count-decrement_counts c (x ∷ items) k = ground (
  arith,
  get_count-decrement_counts (record { counter = decrement c.counter x }) items k,
  get_count-decrement c.counter x k,
)

sum_values-insert :
    (m : IntMap ℕ) (k v : ℕ)
    → sum_values (IntMap.insert k v m) + unwrap_or (IntMap.get k m) 0 ≡ sum_values m + v
unfolding sum_values
sum_values-insert [] k v = omega arith
sum_values-insert ((j, w) ∷ m) k v = ground (arith, sum_values-insert m k v)

-- `increment_counts` adds the length of the list to the sum of all counts.
pub total_count-increment_counts :
    (c : Counter) (items : List ℕ)
    → total_count (increment_counts c items) ≡ total_count c + length items
unfolding total_count increment_counts increment
total_count-increment_counts c [] = omega arith
total_count-increment_counts c (x ∷ items) = omega (
  arith,
  total_count-increment_counts (record { counter = increment c.counter x }) items,
  sum_values-insert c.counter x (unwrap_or (IntMap.get x c.counter) 0 + 1),
)

module _ (sets : NodeSet) where
  abbrev one_if : List ℕ → ℕ → ℕ
  one_if xs k = if contains xs k then 1 else 0

  -- `increment_unique_counts` adds one to the count of each node of the list, however often the
  -- list has it, and changes no other count.
  pub get_count-increment_unique_counts :
      (c : Counter) (items : List ℕ) (k : ℕ)
      → get_count (increment_unique_counts sets c items) k
        ≡ get_count c k + (if contains items k then 1 else 0)
  unfolding increment_unique_counts
  get_count-increment_unique_counts c items k =
      get_count-increment_counts c (sets.from_iter items) k
      ∙ ap (λ n. get_count c k + n) (sets.count-from_iter k items)

  pub get_count-decrement_unique_counts :
      (c : Counter) (items : List ℕ) (k : ℕ)
      → get_count (decrement_unique_counts sets c items) k
        ≡ get_count c k - (if contains items k then 1 else 0)
  unfolding decrement_unique_counts
  get_count-decrement_unique_counts c items k =
      get_count-decrement_counts c (sets.from_iter items) k
      ∙ ap (λ n. get_count c k - n) (sets.count-from_iter k items)

  -- Decrementing the unique counts of a list that was just counted restores the count of every
  -- node.
  pub decrement-increment_unique_counts :
      (c : Counter) (items : List ℕ) (k : ℕ)
      → get_count (decrement_unique_counts sets (increment_unique_counts sets c items) items) k
        ≡ get_count c k
  decrement-increment_unique_counts c items k = omega (
    arith,
    get_count-decrement_unique_counts (increment_unique_counts sets c items) items k,
    get_count-increment_unique_counts c items k,
  )
