-- ===== src/Rank/Graphs.antt =====
-- core/src/rank.rs: what the operations do to the graph, whatever else happens.
use meritrank_rust.Prelude.{ℕ, inl, inr, List, [], ◌∷◌, Bool, true, false, Option-cases}
use meritrank_rust.Deps.{Deps}
use meritrank_rust.Errors.{Result, ok, err, panic, no_fuel, InternalFatal}
use meritrank_rust.RandomWalk.{RandomWalk}
use meritrank_rust.Graph.Edges.{Graph}
use meritrank_rust.Graph.Edges.Invariant.{IsGraph}
use meritrank_rust.Graph.Walks.{continue_walk}
use meritrank_rust.Graph.Walks.Trail.{SameGraph, SameGraph-refl, SameGraph-trans, SameGraph-IsGraph}
use meritrank_rust.Graph.Walks.Keeps.{continue_walk-Keeps}
use meritrank_rust.WalkStorage.{WalkStorage, get_walk}
use meritrank_rust.Rank.State.{
  World, M, bind_result, ◌>>=◌, when, for_each, on_walks, walk_at, on_walk, draw_on_walk,
  drawn_walk, count_walk, uncount_walk,
}
use meritrank_rust.Rank.Checks.{run_checks, assert_counters_consistency_after_edge_addition}
use meritrank_rust.Rank.Calculate.{calculate, calculate_walk, clear_block}

module _ (d : Deps) (P : Graph d → Type 0) where
  -- A method keeps `P` of the graph.
  abbrev pub Keeps : {A : Type 0} → M d A → Type 0
  Keeps m = (w : World d) → P w.mr.graph → P (m w).0.mr.graph

  pub bind_result-Keeps :
      {A B : Type 0} (r : World d × Result A) (f : A → M d B)
      → P r.0.mr.graph
      → ((a : A) → Keeps (f a))
      → P (bind_result r f).0.mr.graph
  bind_result-Keeps (w, ok a) f p k = k a w p
  bind_result-Keeps (w, err e) f p k = p
  bind_result-Keeps (w, panic) f p k = p
  bind_result-Keeps (w, no_fuel) f p k = p

  pub bind-Keeps :
      {A B : Type 0} (m : M d A) (f : A → M d B)
      → Keeps m
      → ((a : A) → Keeps (f a))
      → Keeps (m >>= f)
  unfolding ◌>>=◌
  bind-Keeps m f km kf w p = bind_result-Keeps (m w) f (km w p) kf

  pub when-Keeps : (b : Bool) (m : M d (Unit {0})) → Keeps m → Keeps (when b m)
  unfolding when
  when-Keeps true m k = k
  when-Keeps false m k = λ w p. p

  pub for_each-Keeps :
      {A : Type 0} (xs : List A) (body : A → M d (Unit {0}))
      → ((x : A) → Keeps (body x))
      → Keeps (for_each xs body)
  unfolding for_each
  for_each-Keeps [] body k w p = p
  for_each-Keeps (x ∷ xs) body k w p =
      bind_result-Keeps (body x w) (λ _. for_each xs body) (k x w p) (λ _. for_each-Keeps xs body k)

  pub on_walks-Keeps : {A : Type 0} (f : WalkStorage → WalkStorage × Result A) → Keeps (on_walks f)
  unfolding on_walks
  on_walks-Keeps f w p = p

  pub walk_at-Keeps : (site : InternalFatal) (walk_id : ℕ) → Keeps (walk_at site walk_id)
  unfolding walk_at
  walk_at-Keeps site walk_id w p = elim (Option-cases (get_walk w.mr.walks walk_id)) [
    | inl e ↦ rw (e, walk_at) p
    | inr (walk, e) ↦ rw (e, walk_at) p
  ]

  pub on_walk-Keeps :
      {A : Type 0} (site : InternalFatal) (walk_id : ℕ) (f : RandomWalk → RandomWalk × Result A)
      → Keeps (on_walk site walk_id f)
  unfolding on_walk
  on_walk-Keeps site walk_id f w p = elim (Option-cases (get_walk w.mr.walks walk_id)) [
    | inl e ↦ rw (e, on_walk) p
    | inr (walk, e) ↦ rw (e, on_walk) p
  ]

  pub draw_on_walk-Keeps :
      (site : InternalFatal) (walk_id : ℕ)
      (f : Graph d
        → d.rng.State
        → RandomWalk
        → Graph d × d.rng.State × (RandomWalk × Result (Unit {0})))
      → ((g : Graph d) (s : d.rng.State) (walk : RandomWalk) → P g → P (f g s walk).0)
      → Keeps (draw_on_walk site walk_id f)
  unfolding draw_on_walk drawn_walk
  draw_on_walk-Keeps site walk_id f k w p = elim (Option-cases (get_walk w.mr.walks walk_id)) [
    | inl e ↦ rw (e, draw_on_walk) p
    | inr (walk, e) ↦ rw (e, draw_on_walk) (k w.mr.graph w.state walk p)
  ]

  pub count_walk-Keeps : (ego : ℕ) (walk : RandomWalk) → Keeps (count_walk ego walk)
  unfolding count_walk
  count_walk-Keeps ego walk w p = p

  pub uncount_walk-Keeps : (ego : ℕ) (walk : RandomWalk) → Keeps (uncount_walk ego walk)
  unfolding uncount_walk
  uncount_walk-Keeps ego walk w p = p

  checks-Keeps : Keeps (assert_counters_consistency_after_edge_addition d)
  unfolding assert_counters_consistency_after_edge_addition
  checks-Keeps w p =
      bind_result-Keeps _ _
        (for_each-Keeps w.mr.hits.pos_hits _ (λ e. for_each-Keeps e.1.counter _ (λ pc w' q. q)) w p)
        (λ _.
          for_each-Keeps w.mr.hits.neg_hits _ (λ e. for_each-Keeps e.1.counter _ (λ pc w' q. q)))

  pub run_checks-Keeps : (checks : Bool) → Keeps (run_checks d checks)
  unfolding run_checks
  run_checks-Keeps checks =
      when-Keeps checks _ (bind-Keeps _ _ (on_walks-Keeps _) (λ _. checks-Keeps))

module _ (d : Deps) (g : Graph d) where
  abbrev pub Same : Graph d → Type 0
  Same g' = IsGraph d g' × SameGraph d g' g

  pub continue_walk-Same :
      (fuel : ℕ) (g' : Graph d) (s : d.rng.State) (walk : RandomWalk) (alpha : d.F)
      → Same g'
      → Same (continue_walk d fuel g' s walk alpha).0
  continue_walk-Same fuel g' s walk alpha (p, q) =
      let same = (continue_walk-Keeps d fuel g' s walk alpha p).0 in
      (SameGraph-IsGraph d _ g' same p, SameGraph-trans d _ g' g same q)

  calculate_walk-Same : (fuel ego walk_id : ℕ) → Keeps d Same (calculate_walk d fuel ego walk_id)
  unfolding calculate_walk
  calculate_walk-Same fuel ego walk_id =
      bind-Keeps d Same _ _ (on_walk-Keeps d Same _ walk_id _) (λ _.
        bind-Keeps d Same _ _
          (λ w.
            draw_on_walk-Keeps d Same _ walk_id _
              (λ g' s walk. continue_walk-Same fuel g' s walk w.mr.alpha) w)
          (λ _. bind-Keeps d Same _ _ (walk_at-Keeps d Same _ walk_id) (λ walk.
            bind-Keeps d Same _ _ (count_walk-Keeps d Same ego walk)
              (λ _. on_walks-Keeps d Same _))))

  -- Whatever it returns, `calculate` changes nothing of the graph but cached distributions.
  pub calculate-Same : (checks : Bool) (fuel ego : ℕ) → Keeps d Same (calculate d checks fuel ego)
  unfolding calculate clear_block
  calculate-Same checks fuel ego = bind-Keeps d Same _ _ (on_walks-Keeps d Same _) (λ start_id.
      bind-Keeps d Same _ _ (λ w p. p)
        (λ _.
          bind-Keeps d Same _ _ (λ w. for_each-Keeps d Same _ _ (calculate_walk-Same fuel ego) w)
            (λ _. run_checks-Keeps d Same checks)))

module _ (d : Deps) where
  -- On a well-formed graph, `calculate` changes nothing of the graph but cached distributions,
  -- however it ends.
  pub calculate-SameGraph :
      (checks : Bool) (fuel ego : ℕ) (w : World d)
      → IsGraph d w.mr.graph
      → SameGraph d (calculate d checks fuel ego w).0.mr.graph w.mr.graph
  calculate-SameGraph checks fuel ego w p =
      (calculate-Same d w.mr.graph checks fuel ego w (p, SameGraph-refl d w.mr.graph)).1
