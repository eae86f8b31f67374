-- ===== src/Graph/Walks/Continued.antt =====
-- core/src/graph.rs: how `continue_walk` can fail.
use meritrank_rust.Prelude.{
  ℕ, ◌≤◌, ◌≡◌, refl, inl, inr, [], ◌∷◌, none, some, true, false, is_some, arith, last?,
  Option-cases,
}
use meritrank_rust.Deps.{Deps}
use meritrank_rust.Errors.{Result, ok, err, panic, no_fuel}
use meritrank_rust.RandomWalk.{RandomWalk, extend, both_some}
use meritrank_rust.Graph.Edges.{Graph, get_node_data}
use meritrank_rust.Graph.Edges.Invariant.{IsGraph}
use meritrank_rust.Graph.Walks.{extended, continue_walk}
use meritrank_rust.Graph.Walks.Trail.{Steps, negatives, first_negative}
use meritrank_rust.Graph.Walks.Draws.{Draws, IsUnfit, generate_walk_segment-Draws}

first_negative-none : (steps : Steps) → negatives steps ≤ 0 → first_negative steps ≡ none
first_negative-none [] h = refl
first_negative-none ((x, true) ∷ steps) h = rw (first_negative-none steps h) refl
first_negative-none ((x, false) ∷ steps) h = absurd (omega arith)

-- The only error is that the weights are unfit to draw by.
abbrev pub Continued : Result (Unit {0}) → Type 0
Continued (ok a) = Unit {0}
Continued (err e) = IsUnfit e
Continued panic = ⊥
Continued no_fuel = Unit {0}

module _ (d : Deps) where
  extend-Continued :
      (walk segment : RandomWalk)
      → both_some walk.negative_segment_start segment.negative_segment_start ≡ false
      → Continued (extend walk segment).1
  unfolding extend
  extend-Continued walk segment h = rw (h, extend) tt

  extended-Continued :
      (alpha : d.F) (g : Graph d) (start : ℕ) (whole : IsGraph d g) (walk : RandomWalk)
      (r : Graph d × d.rng.State × Result RandomWalk)
      → Draws d alpha g start (is_some walk.negative_segment_start) whole r.2
      → Continued (extended d walk r).2.1
  unfolding extended both_some
  extended-Continued alpha g start whole walk (g', s, ok segment) (steps, v) =
      extend-Continued walk segment (elim (Option-cases walk.negative_segment_start) [
        | inl e ↦ rw (e, both_some) refl
        | inr (m, e) ↦
            let no_mark : segment.negative_segment_start ≡ none =
              rw v.mark (first_negative-none steps (ground (arith, v.one_negative))) in
            rw (e, no_mark, both_some) refl
      ])
  extended-Continued alpha g start whole walk (g', s, err e) h = h
  extended-Continued alpha g start whole walk (g', s, panic) h = h
  extended-Continued alpha g start whole walk (g', s, no_fuel) h = tt

  pub continue_walk-Continued :
      (fuel : ℕ) (g : Graph d) (s : d.rng.State) (walk : RandomWalk) (alpha : d.F) (x : ℕ)
      → IsGraph d g
      → last? walk.nodes ≡ some x
      → is_some (get_node_data d g x) ≡ true
      → Continued (continue_walk d fuel g s walk alpha).2.1
  unfolding continue_walk
  continue_walk-Continued fuel g s walk alpha x whole last there =
      rw (last, continue_walk)
        (extended-Continued alpha g x whole walk _
          (generate_walk_segment-Draws d alpha g x (is_some walk.negative_segment_start) whole fuel
            s there).1)
