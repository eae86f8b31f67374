-- ===== src/Service/Quantiles.antt =====
-- service/src/utils/quantiles.rs: the bounds between quantiles of scores. The panics, by a
-- subtraction from 0 or an index out of range, are none.
use meritrank_rust.Prelude.{
  ℕ, zero, suc, ◌+◌, ◌-◌, ◌*◌, ◌/◌, ◌<◌, ◌≡◌, refl, inl, inr, List, [], ◌∷◌, Option, none, some,
  Bool, false, if◌then◌else◌, ◌&&◌, ◌==◌, leb, length, length-replicate, get_elem?,
  get_elem?_lt_some, replicate, head?, last?, arith, Bool-cases,
}
use meritrank_rust.Deps.{Float}

-- `sort_by` with `total_cmp`, and `f64::EPSILON`.
pub record Sorting (floats : Float) : Type 0 where
  pub sort : List floats.F → List floats.F
  pub length-sort : (xs : List floats.F) → length (sort xs) ≡ length xs
  pub machine_epsilon : floats.F

module _ (floats : Float) (sorting : Sorting floats) where
  open floats use {F}
  open sorting use {sort, length-sort, machine_epsilon}

  is_zero : Option F → Bool
  is_zero none = false
  is_zero (some x) = floats.eq x floats.zero

  unfoldable pub bounds_are_empty : List F → Bool
  unfolding is_zero
  bounds_are_empty bounds = is_zero (head? bounds) && is_zero (last? bounds)

  average : Option F → Option F → Option F
  average (some lower) (some upper) = some (floats.div (floats.add lower upper) (floats.of_nat 2))
  average _ _ = none

  -- What the loop pushes, for a position in the sorted scores.
  unfoldable pub bound_at : List F → ℕ → Option F
  unfolding average
  bound_at scores position =
      if position == 0
      then get_elem? scores 0
      else if leb (length scores) position
      then get_elem? scores (length scores - 1)
      else average (get_elem? scores (position - 1)) (get_elem? scores position)

  pushed : Option F → Option (List F) → Option (List F)
  pushed (some x) (some xs) = some (x ∷ xs)
  pushed _ _ = none

  -- The loop from `i` on, for as many rounds as are left.
  bounds_from : List F → ℕ → ℕ → ℕ → Option (List F)
  bounds_from scores num_quantiles i zero = some []
  bounds_from scores num_quantiles i (suc left) =
      pushed (bound_at scores (i * length scores / num_quantiles))
        (bounds_from scores num_quantiles (i + 1) left)

  bounds_of : List F → ℕ → Option (List F)
  bounds_of [] left = some (replicate left floats.zero)
  bounds_of (score ∷ []) left = some (replicate left (floats.sub score machine_epsilon))
  bounds_of (a ∷ b ∷ rest) left = bounds_from (sort (a ∷ b ∷ rest)) (left + 1) 1 left

  unfoldable pub calculate_quantiles_bounds : List F → ℕ → Option (List F)
  unfolding pushed bounds_from bounds_of
  calculate_quantiles_bounds scores zero = none
  calculate_quantiles_bounds scores (suc left) = bounds_of scores left

  bound_at-some :
      (scores : List F) (position : ℕ)
      → 0 < length scores
      → (x : F) × (bound_at scores position ≡ some x)
  unfolding bound_at average
  bound_at-some scores position h = elim (Bool-cases (position == 0)) [
    | inl e ↦ let (x, at) = get_elem?_lt_some scores 0 h in (x, ground (arith, at))
    | inr e ↦ elim (Bool-cases (leb (length scores) position)) [
      | inl f ↦
          let (x, at) = get_elem?_lt_some scores (length scores - 1) (omega arith) in
          (x, ground (arith, at))
      | inr f ↦
          let within : position < length scores = ground arith in
          let (lower, low) = get_elem?_lt_some scores (position - 1) (omega arith) in
          let (upper, up) = get_elem?_lt_some scores position within in
          (floats.div (floats.add lower upper) (floats.of_nat 2), ground (arith, low, up))
    ]
  ]

  bounds_from-some :
      (scores : List F) (num_quantiles i left : ℕ)
      → 0 < length scores
      → (bounds : List F) × (bounds_from scores num_quantiles i left ≡ some bounds)
        × (length bounds ≡ left)
  unfolding bounds_from pushed
  bounds_from-some scores num_quantiles i zero h = ([], refl, refl)
  bounds_from-some scores num_quantiles i (suc left) h =
      let (x, at) = bound_at-some scores (i * length scores / num_quantiles) h in
      let (xs, rest, long) = bounds_from-some scores num_quantiles (i + 1) left h in
      (x ∷ xs, rw (at, rest) refl, rw long refl)

  -- For at least one quantile, `calculate_quantiles_bounds` does not panic: no index is out of
  -- range for any list of scores, and it gives one bound less than there are quantiles.
  pub calculate_quantiles_bounds_lem :
      (scores : List F) (num_quantiles : ℕ)
      → 0 < num_quantiles
      → (bounds : List F) × (calculate_quantiles_bounds scores num_quantiles ≡ some bounds)
        × (length bounds + 1 ≡ num_quantiles)
  unfolding calculate_quantiles_bounds bounds_of
  calculate_quantiles_bounds_lem scores zero h = absurd (omega arith)
  calculate_quantiles_bounds_lem [] (suc left) h =
      (replicate left floats.zero, refl, omega (arith, length-replicate left floats.zero))
  calculate_quantiles_bounds_lem (score ∷ []) (suc left) h = (
    replicate left (floats.sub score machine_epsilon),
    refl,
    omega (arith, length-replicate left (floats.sub score machine_epsilon)),
  )
  calculate_quantiles_bounds_lem (a ∷ b ∷ rest) (suc left) h =
      let (bounds, e, long) =
        bounds_from-some (sort (a ∷ b ∷ rest)) (left + 1) 1 left
          (rw (length-sort (a ∷ b ∷ rest)) (omega arith)) in
      (bounds, e, omega (arith, long))
