-- ===== src/Rank/Updates/Graphs.antt =====
-- core/src/rank.rs: `set_edge` and the graph.
use meritrank_rust.Prelude.{
  ℕ, ◌≡◌, refl, if◌then◌else◌, inl, inr, Bool, true, false, not, ◌==◌, ◌||◌, Option-cases,
  Bool-cases,
}
use meritrank_rust.Deps.{Deps}
use meritrank_rust.Errors.{panic}
use meritrank_rust.Graph.Edges.{Graph, get_node_data}
use meritrank_rust.Graph.Edges.Invariant.{IsGraph}
use meritrank_rust.Graph.Edges.Operations
use meritrank_rust.Graph.Walks.{continue_walk}
use meritrank_rust.Graph.Walks.Trail.{SameGraph-IsGraph}
use meritrank_rust.Graph.Walks.Keeps.{
  continue_walk-Keeps, extend_walk_in_case_of_edge_deletion-Keeps,
}
use meritrank_rust.Graph.Walks.Removal.{remove_edge-IsGraph}
use meritrank_rust.RandomWalk.{RandomWalk}
use meritrank_rust.Rank.State.{World, M, ◌>>=◌, on_graph, lift, return}
use meritrank_rust.Rank.Graphs.{
  Keeps, bind-Keeps, bind_result-Keeps, when-Keeps, for_each-Keeps, on_walks-Keeps, walk_at-Keeps,
  on_walk-Keeps, draw_on_walk-Keeps, count_walk-Keeps, uncount_walk-Keeps, run_checks-Keeps,
}
use meritrank_rust.Rank.Updates.{
  old_weight, draw_random, recalc_probability, change_edge, affected_walks, redraw_step,
  revise_walk, apply_edge, set_edge_inner, set_edge,
}

module _ (d : Deps) where
  abbrev Q : Graph d → Type 0
  Q = IsGraph d

  continue_walk-IsGraph :
      (fuel : ℕ) (g : Graph d) (s : d.rng.State) (walk : RandomWalk) (alpha : d.F)
      → Q g
      → Q (continue_walk d fuel g s walk alpha).0
  continue_walk-IsGraph fuel g s walk alpha p =
      SameGraph-IsGraph d _ g (continue_walk-Keeps d fuel g s walk alpha p).0 p

  recalc_probability-Keeps :
      (deletion_mode : Bool) (src : ℕ) (new_weight : d.F)
      → Keeps d Q (recalc_probability d deletion_mode src new_weight)
  unfolding recalc_probability
  recalc_probability-Keeps true src new_weight w p = p
  recalc_probability-Keeps false src new_weight w p =
      elim (Option-cases (get_node_data d w.mr.graph src)) [
        | inl e ↦ rw (e, recalc_probability) p
        | inr (n, e) ↦ rw (e, recalc_probability) p
      ]

  change_edge-Keeps :
      (deletion_mode : Bool) (src dest : ℕ) (new_weight : d.F)
      → (src == dest) ≡ false
      → Keeps d Q (change_edge d deletion_mode src dest new_weight)
  unfolding change_edge on_graph
  change_edge-Keeps true src dest new_weight distinct =
      bind-Keeps d Q _ _ (λ w p. remove_edge-IsGraph d w.mr.graph src dest distinct p) (λ _ w p. p)
  change_edge-Keeps false src dest new_weight distinct =
      λ w p. (Operations.set_edge-IsGraph d w.mr.graph src dest new_weight p).0

  redraw_step-Keeps :
      (deletion_mode : Bool) (dest : ℕ) (new_weight : d.F) (walk_id : ℕ)
      → Keeps d Q (redraw_step d deletion_mode dest new_weight walk_id)
  unfolding redraw_step draw_random
  redraw_step-Keeps true dest new_weight walk_id =
      bind-Keeps d Q _ _
        (draw_on_walk-Keeps d Q _ walk_id _ (λ g s walk p.
          SameGraph-IsGraph d _ g (extend_walk_in_case_of_edge_deletion-Keeps d g s walk p).0 p))
        (λ _ w p. p)
  redraw_step-Keeps false dest new_weight walk_id =
      bind-Keeps d Q _ _ (λ w p. p)
        (λ draw w p. elim (Bool-cases (d.lt draw w.mr.alpha)) [
          | inl e ↦
              rw e (bind_result-Keeps d Q _ _ (on_walk-Keeps d Q _ walk_id _ w p) (λ _ w' q. q))
          | inr e ↦ rw e p
        ])

  revise_walk-Keeps :
      (fuel : ℕ) (deletion_mode : Bool) (dest : ℕ) (new_weight : d.F) (visit : ℕ × ℕ)
      → Keeps d Q (revise_walk d fuel deletion_mode dest new_weight visit)
  unfolding revise_walk
  revise_walk-Keeps fuel deletion_mode dest new_weight (walk_id, visit_pos) =
      bind-Keeps d Q _ _ (walk_at-Keeps d Q _ walk_id) (λ walk.
        bind-Keeps d Q _ _ (λ w p. p)
          (λ ego. bind-Keeps d Q _ _ (uncount_walk-Keeps d Q ego walk) (λ _.
            bind-Keeps d Q _ _ (on_walks-Keeps d Q _) (λ _.
              bind-Keeps d Q _ _ (bind-Keeps d Q _ _ (walk_at-Keeps d Q _ walk_id) (λ _ w p. p))
                (λ _.
                  bind-Keeps d Q _ _ (redraw_step-Keeps deletion_mode dest new_weight walk_id)
                    (λ skip.
                      bind-Keeps d Q _ _
                        (when-Keeps d Q (not skip) _ (λ w.
                          draw_on_walk-Keeps d Q _ walk_id _
                            (λ g s walk'. continue_walk-IsGraph fuel g s walk' w.mr.alpha) w))
                        (λ _. bind-Keeps d Q _ _ (walk_at-Keeps d Q _ walk_id) (λ walk'.
                          bind-Keeps d Q _ _ (count_walk-Keeps d Q ego walk')
                            (λ _. on_walks-Keeps d Q _)))))))))

  apply_edge-Keeps :
      (checks : Bool) (fuel src dest : ℕ) (new_weight : d.F)
      → (src == dest) ≡ false
      → Keeps d Q (apply_edge d checks fuel src dest new_weight)
  unfolding apply_edge affected_walks
  apply_edge-Keeps checks fuel src dest new_weight distinct =
      bind-Keeps d Q _ _ (recalc_probability-Keeps _ src new_weight) (λ probs.
        bind-Keeps d Q _ _ (change_edge-Keeps _ src dest new_weight distinct) (λ _.
          bind-Keeps d Q _ _ (λ w p. p)
            (λ affected.
              bind-Keeps d Q _ _
                (for_each-Keeps d Q affected _ (revise_walk-Keeps fuel _ dest new_weight))
                (λ _. run_checks-Keeps d Q checks))))

  if-Keeps :
      {A : Type 0} (b : Bool) (m k : M d A)
      → (b ≡ true → Keeps d Q m)
      → (b ≡ false → Keeps d Q k)
      → Keeps d Q (if b then m else k)
  if-Keeps true m k km kk = km refl
  if-Keeps false m k km kk = kk refl

  set_edge_inner-Keeps :
      (checks : Bool) (fuel src dest : ℕ) (new_weight : d.F)
      → Keeps d Q (set_edge_inner d checks fuel src dest new_weight)
  unfolding set_edge_inner old_weight
  set_edge_inner-Keeps checks fuel src dest new_weight =
      if-Keeps (src == dest) _ (old_weight d src dest >>= changed) (λ _ w p. p)
        (λ distinct.
          bind-Keeps d Q (old_weight d src dest) changed (λ w p. p)
            (λ old.
              if-Keeps (d.eq old new_weight) _ (apply_edge d checks fuel src dest new_weight)
                (λ _ w p. p) (λ _. apply_edge-Keeps checks fuel src dest new_weight distinct)))
    where
      changed : d.F → M d (Unit {0})
      changed old =
          if d.eq old new_weight then return tt else apply_edge d checks fuel src dest new_weight

  -- `MeritRank::set_edge` leaves a well-formed graph if it found one, whatever it is called with
  -- and however it ends, errors and panics in the middle of redrawing walks included.
  pub rank_set_edge-IsGraph :
      (checks : Bool) (fuel src dest : ℕ) (new_weight : d.F) (w : World d)
      → IsGraph d w.mr.graph
      → IsGraph d (set_edge d checks fuel src dest new_weight w).0.mr.graph
  unfolding set_edge old_weight
  rank_set_edge-IsGraph checks fuel src dest new_weight =
      bind-Keeps d Q (old_weight d src dest) _ (λ w p. p)
        (λ old.
          if-Keeps (d.is_nan new_weight || d.is_infinite new_weight) (lift panic) _ (λ _ w p. p)
            (λ _.
              bind-Keeps d Q _ _
                (when-Keeps d Q _ _ (set_edge_inner-Keeps checks fuel src dest d.zero))
                (λ _. set_edge_inner-Keeps checks fuel src dest new_weight)))
