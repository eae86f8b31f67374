-- ===== src/Rank/Exact/SetEdge/Whole.antt =====
-- core/src/rank.rs: `set_edge` from its first test to its last check.
use meritrank_rust.Prelude.{
  ℕ, ◌≡◌, refl, inl, inr, Bool, true, false, ◌||◌, if◌then◌else◌, ◌==◌, Option-cases,
}
use meritrank_rust.Deps.{Deps}
use meritrank_rust.Errors.{ok, panic}
use meritrank_rust.Graph.Edges.{get_node_data}
use meritrank_rust.Graph.Edges.Invariant.{IsGraph}
use meritrank_rust.Graph.Edges.Operations
use meritrank_rust.Graph.Walks.Removal.{remove_edge-IsGraph}
use meritrank_rust.Rank.State.{World, M, ◌>>=◌, on_graph, on_walks, lift, return}
use meritrank_rust.Rank.Checks.{run_checks, assert_counters_consistency_after_edge_addition}
use meritrank_rust.Rank.Runs.{
  Failures, any_failure, any-Fits, Ends, Ends-ok, ok-Ends, result-Ends, bind-Ends, bind_result-Ends,
  for_each-Ends, when-Ends,
}
use meritrank_rust.Rank.Updates.{
  old_weight, recalc_probability, change_edge, affected_walks, apply_edge, set_edge_inner, set_edge,
}
use meritrank_rust.Rank.Exact.{IsExact}
use meritrank_rust.Rank.Exact.Redrawing.{Good}
use meritrank_rust.Rank.Exact.SetEdge.Redraw.{revise_walk-Good}

module _ (d : Deps) where
  abbrev F : Failures
  F = any_failure

  abbrev Q : World d → Type 0
  Q = Good d F (IsGraph d)

  abbrev Q' : {A : Type 0} → World d → A → Type 0
  Q' w a = Q w

  checks-Good :
      (w : World d) → Q w → Ends d F Q' (assert_counters_consistency_after_edge_addition d w)
  unfolding assert_counters_consistency_after_edge_addition
  checks-Good w q =
      bind_result-Ends d F Q' Q' _ _
        (for_each-Ends d F (λ _ w'. Q w') _
          (λ e _ w1 q1.
            for_each-Ends d F (λ _ w'. Q w') _
              (λ pc _ w2 q2. result-Ends d F _ w2 _ (any-Fits d _) (λ _ _. q2)) e.1.counter w1 q1)
          w.mr.hits.pos_hits w q)
        (λ w3 _ q3.
          for_each-Ends d F (λ _ w'. Q w') _
            (λ e _ w1 q1.
              for_each-Ends d F (λ _ w'. Q w') _
                (λ pc _ w2 q2. result-Ends d F _ w2 _ (any-Fits d _) (λ _ _. q2)) e.1.counter w1 q1)
            w.mr.hits.neg_hits w3 q3)

  pub run_checks-Good : (checks : Bool) (w : World d) → Q w → Ends d F Q' (run_checks d checks w)
  unfolding run_checks on_walks
  run_checks-Good checks w q = when-Ends d F Q' checks _ w q (
      bind-Ends d F Q' Q' _ _ w (result-Ends d F _ _ _ (any-Fits d _) (λ _ _. q))
        (λ w' _ q'. checks-Good w' q'))

  change_edge-Good :
      (deletion_mode : Bool) (src dest : ℕ) (new_weight : d.F) (w : World d)
      → (src == dest) ≡ false
      → Q w
      → Ends d F Q' (change_edge d deletion_mode src dest new_weight w)
  unfolding change_edge on_graph
  change_edge-Good true src dest new_weight w distinct (graph, exact) =
      bind-Ends d F Q' Q' _ _ w
        (result-Ends d F _ _ _ (any-Fits d _)
          (λ _ _. (remove_edge-IsGraph d w.mr.graph src dest distinct graph, exact)))
        (λ w' _ q'. ok-Ends d F Q' w' tt q')
  change_edge-Good false src dest new_weight w distinct (graph, exact) =
      result-Ends d F _ _ _ (any-Fits d _)
        (λ _ _. ((Operations.set_edge-IsGraph d w.mr.graph src dest new_weight graph).0, exact))

  recalc_probability-Good :
      (deletion_mode : Bool) (src : ℕ) (new_weight : d.F) (w : World d)
      → Q w
      → Ends d F Q' (recalc_probability d deletion_mode src new_weight w)
  unfolding recalc_probability Ends
  recalc_probability-Good true src new_weight w q = q
  recalc_probability-Good false src new_weight w q =
      elim (Option-cases (get_node_data d w.mr.graph src)) [
        | inl e ↦ rw (e, recalc_probability) tt
        | inr (n, e) ↦ rw (e, recalc_probability) q
      ]

  apply_edge-Good :
      (checks : Bool) (fuel src dest : ℕ) (new_weight : d.F) (w : World d)
      → (src == dest) ≡ false
      → Q w
      → Ends d F Q' (apply_edge d checks fuel src dest new_weight w)
  unfolding apply_edge affected_walks
  apply_edge-Good checks fuel src dest new_weight w distinct q =
      bind-Ends d F Q' Q' _ _ w (recalc_probability-Good _ src new_weight w q) (λ w1 probs q1.
        bind-Ends d F Q' Q' _ _ w1 (change_edge-Good _ src dest new_weight w1 distinct q1)
          (λ w2 _ q2.
            bind-Ends d F Q' Q' _ _ w2 (result-Ends d F _ _ _ (any-Fits d _) (λ _ _. q2))
              (λ w3 affected q3.
                bind-Ends d F Q' Q' _ _ w3
                  (for_each-Ends d F (λ _ w'. Q w') _
                    (λ visit _ w' q'. revise_walk-Good d fuel _ dest new_weight visit w' q')
                    affected w3 q3)
                  (λ w4 _ q4. run_checks-Good checks w4 q4))))

  if-Good :
      (b : Bool) (m k : M d (Unit {0})) (w : World d)
      → (b ≡ true → Ends d F Q' (m w))
      → (b ≡ false → Ends d F Q' (k w))
      → Ends d F Q' ((if b then m else k) w)
  if-Good true m k w hm hk = hm refl
  if-Good false m k w hm hk = hk refl

  set_edge_inner-Good :
      (checks : Bool) (fuel src dest : ℕ) (new_weight : d.F) (w : World d)
      → Q w
      → Ends d F Q' (set_edge_inner d checks fuel src dest new_weight w)
  unfolding set_edge_inner old_weight
  set_edge_inner-Good checks fuel src dest new_weight w q =
      if-Good (src == dest) _ (old_weight d src dest >>= changed) w
        (λ _. result-Ends d F _ w _ (any-Fits d _) (λ _ _. q))
        (λ distinct.
          bind-Ends d F Q' Q' (old_weight d src dest) changed w
            (result-Ends d F _ w _ (any-Fits d _) (λ _ _. q))
            (λ w' old q'.
              if-Good (d.eq old new_weight) _ (apply_edge d checks fuel src dest new_weight) w'
                (λ _. ok-Ends d F Q' w' tt q')
                (λ _. apply_edge-Good checks fuel src dest new_weight w' distinct q')))
    where
      changed : d.F → M d (Unit {0})
      changed old =
          if d.eq old new_weight then return tt else apply_edge d checks fuel src dest new_weight

  set_edge-Good :
      (checks : Bool) (fuel src dest : ℕ) (new_weight : d.F) (w : World d)
      → Q w
      → Ends d F Q' (set_edge d checks fuel src dest new_weight w)
  unfolding set_edge old_weight
  set_edge-Good checks fuel src dest new_weight w q =
      bind-Ends d F Q' Q' (old_weight d src dest) _ w
        (result-Ends d F _ w _ (any-Fits d _) (λ _ _. q))
        (λ w1 old q1.
          if-Good (d.is_nan new_weight || d.is_infinite new_weight) (lift panic) _ w1
            (λ _. result-Ends d F _ w1 _ (any-Fits d _) (λ _ _. q1))
            (λ _.
              bind-Ends d F Q' Q' _ _ w1
                (when-Ends d F Q' _ _ w1 q1 (set_edge_inner-Good checks fuel src dest d.zero w1 q1))
                (λ w2 _ q2. set_edge_inner-Good checks fuel src dest new_weight w2 q2)))

  -- If `MeritRank::set_edge`, called on a well-formed graph, returns ok, and before it every
  -- counter says how many of its ego's walks visit each node, the table of visits says of every
  -- node exactly which walks visit it and where first, and every ego's block holds its walks, then
  -- all this holds afterwards.
  pub rank_set_edge-IsExact :
      (checks : Bool) (fuel src dest : ℕ) (new_weight : d.F) (w : World d)
      → IsGraph d w.mr.graph
      → IsExact w.mr.walks w.mr.hits
      → (set_edge d checks fuel src dest new_weight w).1 ≡ ok tt
      → IsExact
          (set_edge d checks fuel src dest new_weight w).0.mr.walks
          (set_edge d checks fuel src dest new_weight w).0.mr.hits
  rank_set_edge-IsExact checks fuel src dest new_weight w graph exact done =
      (Ends-ok d F Q' _ tt done (set_edge-Good checks fuel src dest new_weight w (graph, exact))).1
