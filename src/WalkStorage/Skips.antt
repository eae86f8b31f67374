-- ===== src/WalkStorage/Skips.antt =====
-- core/src/walk_storage.rs: which walks the deletion of an edge affects, and where.
use meritrank_rust.Prelude.{
  ℕ, zero, suc, ◌+◌, ◌-◌, ◌<◌, ◌≡◌, refl, inl, inr, List, [], ◌∷◌, Option, none, some, Bool, true,
  false, ◌&&◌, ◌==◌, arith, length, drop, Bool-cases,
}
use meritrank_rust.Errors.{ok}
use meritrank_rust.RandomWalk.{RandomWalk}
use meritrank_rust.WalkStorage.{find_step, skip_or_cut, decide_skip_invalidation_on_edge_deletion}

-- The walk goes from one node straight to another, at a position.
abbrev pub steps_at : List ℕ → ℕ → ℕ → ℕ → Bool
steps_at [] from to i = false
steps_at (x ∷ []) from to i = false
steps_at (x ∷ y ∷ rest) from to zero = x == from && y == to
steps_at (x ∷ y ∷ rest) from to (suc i) = steps_at (y ∷ rest) from to i

-- What a search from the front of a list should find: the first step, or that there is none.
abbrev pub FirstStep : List ℕ → ℕ → ℕ → ℕ → Option ℕ → Type 0
FirstStep nodes from to pos none = (i : ℕ) → steps_at nodes from to i ≡ false
FirstStep nodes from to pos (some at) =
    (k : ℕ) × (at ≡ pos + k)
    × (steps_at nodes from to k ≡ true)
    × ((i : ℕ) → i < k → steps_at nodes from to i ≡ false)

FirstStep-cons :
    (x y from to pos : ℕ) (rest : List ℕ) (o : Option ℕ)
    → (x == from && y == to) ≡ false
    → FirstStep (y ∷ rest) from to (suc pos) o
    → FirstStep (x ∷ y ∷ rest) from to pos o
FirstStep-cons x y from to pos rest none e p = step
  where
    step : (i : ℕ) → steps_at (x ∷ y ∷ rest) from to i ≡ false
    step zero = e
    step (suc i) = p i
FirstStep-cons x y from to pos rest (some at) e (k, q, found, first) =
    (suc k, omega arith, found, step)
  where
    step : (i : ℕ) → i < suc k → steps_at (x ∷ y ∷ rest) from to i ≡ false
    step zero h = e
    step (suc i) h = first i (omega arith)

find_step-FirstStep :
    (from to pos : ℕ) (nodes : List ℕ) → FirstStep nodes from to pos (find_step from to pos nodes)
unfolding find_step
find_step-FirstStep from to pos [] = λ i. refl
find_step-FirstStep from to pos (x ∷ []) = λ i. refl
find_step-FirstStep from to pos (x ∷ y ∷ rest) = elim (Bool-cases (x == from && y == to)) [
  | inl e ↦ rw (e, find_step) (0, omega arith, e, λ i h. absurd (omega arith))
  | inr e ↦
      rw (e, find_step)
        (FirstStep-cons x y from to pos rest _ e (find_step-FirstStep from to (suc pos) (y ∷ rest)))
]

-- What is decided on the deletion of an edge: the walk is skipped exactly if it does not take the
-- edge from `pos` on; otherwise it is cut at the first place where it does.
abbrev pub Decides : List ℕ → ℕ → ℕ → ℕ → Bool × ℕ → Type 0
Decides nodes from to pos (true, at) =
    (at ≡ pos) × ((i : ℕ) → steps_at (drop pos nodes) from to i ≡ false)
Decides nodes from to pos (false, at) =
    (k : ℕ) × (at ≡ pos + k)
    × (steps_at (drop pos nodes) from to k ≡ true)
    × ((i : ℕ) → i < k → steps_at (drop pos nodes) from to i ≡ false)

skip_or_cut-Decides :
    (nodes : List ℕ) (from to pos : ℕ) (o : Option ℕ)
    → FirstStep (drop pos nodes) from to pos o
    → Decides nodes from to pos (skip_or_cut o pos)
unfolding skip_or_cut
skip_or_cut-Decides nodes from to pos none p = (refl, p)
skip_or_cut-Decides nodes from to pos (some at) p = p

no_step_at_end :
    (nodes : List ℕ) (from to pos i : ℕ)
    → pos + 1 ≡ length nodes
    → steps_at (drop pos nodes) from to i ≡ false
no_step_at_end [] from to pos i h = absurd (omega arith)
no_step_at_end (x ∷ []) from to zero i h = refl
no_step_at_end (x ∷ y ∷ nodes) from to zero i h = absurd (omega arith)
no_step_at_end (x ∷ nodes) from to (suc pos) i h = no_step_at_end nodes from to pos i (omega arith)

-- For a position within the walk, `decide_skip_invalidation_on_edge_deletion` returns ok; it says
-- to skip, with the position given, exactly if the walk does not take the edge from there on, and
-- otherwise gives the first position from there on where the walk takes it.
pub decide_skip_on_deletion-Decides :
    (walk : RandomWalk) (pos from to : ℕ)
    → pos < length walk.nodes
    → (r : Bool × ℕ) × (decide_skip_invalidation_on_edge_deletion walk pos (from, to) ≡ ok r)
      × Decides walk.nodes from to pos r
unfolding decide_skip_invalidation_on_edge_deletion
decide_skip_on_deletion-Decides walk pos from to h =
    elim (Bool-cases (pos == length walk.nodes - 1)) [
      | inl last ↦ (
        (true, pos),
        ground arith,
        (refl, λ i. no_step_at_end walk.nodes from to pos i (ground arith)),
      )
      | inr more ↦ (
        skip_or_cut (find_step from to pos (drop pos walk.nodes)) pos,
        ground arith,
        skip_or_cut-Decides walk.nodes from to pos _
            (find_step-FirstStep from to pos (drop pos walk.nodes)),
      )
    ]
