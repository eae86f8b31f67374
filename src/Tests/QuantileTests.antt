-- ===== src/Tests/QuantileTests.antt =====
-- Quantile bounds of five scores, sorted by insertion.
use meritrank_rust.Prelude.{suc, ◌+◌, ◌≡◌, refl, List, [], ◌∷◌, some, if◌then◌else◌, length, arith}
use meritrank_rust.Tests.Concrete.{Num, numbers, lt, pos, negsuc}
use meritrank_rust.Service.Quantiles.{
  Sorting, calculate_quantiles_bounds, calculate_quantiles_bounds_lem,
}

abbrev insert : Num → List Num → List Num
insert x [] = x ∷ []
insert x (y ∷ ys) = if lt y x then y ∷ insert x ys else x ∷ y ∷ ys

abbrev sort : List Num → List Num
sort [] = []
sort (x ∷ xs) = insert x (sort xs)

length-insert : (x : Num) (ys : List Num) → length (insert x ys) ≡ suc (length ys)
length-insert x [] = refl
length-insert x (y ∷ ys) = ground (arith, length-insert x ys)

length-sort : (xs : List Num) → length (sort xs) ≡ length xs
length-sort [] = refl
length-sort (x ∷ xs) = rw (length-insert x (sort xs), length-sort xs) refl

abbrev sorting : Sorting numbers
sorting = record { sort = sort; length-sort = length-sort; machine_epsilon = pos 0 }

abbrev scores : List Num
scores = pos 3 ∷ negsuc 4 ∷ pos 5 ∷ pos 0 ∷ negsuc 2 ∷ []

calculate_quantiles_bounds_lem_example :
    (bounds : List Num) × (calculate_quantiles_bounds numbers sorting scores 4 ≡ some bounds)
    × (length bounds + 1 ≡ 4)
calculate_quantiles_bounds_lem_example =
    calculate_quantiles_bounds_lem numbers sorting scores 4 (omega arith)
