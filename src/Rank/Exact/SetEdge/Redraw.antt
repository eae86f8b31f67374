-- ===== src/Rank/Exact/SetEdge/Redraw.antt =====
-- core/src/rank.rs: the loop of `set_edge_`, and the methods around it.
use meritrank_rust.Prelude.{
  ℕ, ◌+◌, ◌≤◌, ◌≡◌, inl, inr, List, some, Bool, true, false, not, arith, length, set, head?, take,
  Bool-cases, length-take, take-take,
}
use meritrank_rust.Deps.{Deps}
use meritrank_rust.Errors.{Result, ok, err, panic, no_fuel, InternalFatal}
use meritrank_rust.RandomWalk.{RandomWalk, new}
use meritrank_rust.Graph.Edges.Invariant.{IsGraph}
use meritrank_rust.Graph.Walks.{continue_walk}
use meritrank_rust.Graph.Walks.Trail.{SameGraph-IsGraph}
use meritrank_rust.Graph.Walks.Keeps.{
  push-Continues, continue_walk-Keeps, extend_walk_in_case_of_edge_deletion-Keeps,
}
use meritrank_rust.WalkStorage.{WalkStorage, get_walk, split_and_remove_from_bookkeeping}
use meritrank_rust.WalkStorage.Index.{IsIndexed}
use meritrank_rust.Rank.State.{World, on_walks, uncount_walk, draw_on_walk}
use meritrank_rust.Rank.Runs.{
  Failures, any_failure, any-Fits, Ends, ok-Ends, result-Ends, Ends-mono, bind-Ends,
  bind_result-Ends, when-Ends, walk_at-Ends,
}
use meritrank_rust.Rank.Updates.{redraw_step, draw_random, revise_walk}
use meritrank_rust.Rank.Exact.{IsCounted, IsStored}
use meritrank_rust.Rank.Exact.Counted.{revert_hits-IsCounted}
use meritrank_rust.Rank.Exact.Redrawing.{
  Good, Redrawing, on_walk-Redrawing, draw_on_walk-Redrawing, finish-Good,
}
use meritrank_rust.Rank.Exact.SetEdge.{split-IsPending, head?-take}

module _ (d : Deps) where
  forget-second :
      {A : Type 0} (P : World d → Type 0) (R : A → Type 0) (r : World d × Result A)
      → Ends d any_failure (λ w a. P w × R a) r
      → Ends d any_failure (λ w _. P w) r
  unfolding Ends
  forget-second P R (w, ok a) h = h.0
  forget-second P R (w, err e) h = h
  forget-second P R (w, panic) h = h
  forget-second P R (w, no_fuel) h = h

  abbrev F : Failures
  F = any_failure

  abbrev Q : World d → Type 0
  Q = Good d F (IsGraph d)

  continue_walk-Redrawing :
      (i ego : ℕ) (seen known : List ℕ) (before : WalkStorage) (fuel : ℕ) (site : InternalFatal)
      (w : World d)
      → Redrawing d F (IsGraph d) i ego seen known before w
      → Ends d F
          (λ w' _. Redrawing d F (IsGraph d) i ego seen known before w')
          (draw_on_walk site i (λ g s walk. continue_walk d fuel g s walk w.mr.alpha) w)
  continue_walk-Redrawing i ego seen known before fuel site w r =
      let (same, goes_on) = continue_walk-Keeps d fuel w.mr.graph w.state r.1.walk w.mr.alpha r.0 in
      draw_on_walk-Redrawing d F (IsGraph d) i ego seen known before w r site _
        (SameGraph-IsGraph d _ w.mr.graph same r.0) goes_on (any-Fits d _)

  redraw_step-Redrawing :
      (i ego : ℕ) (seen known : List ℕ) (before : WalkStorage) (deletion_mode : Bool) (dest : ℕ)
      (new_weight : d.F) (w : World d)
      → Redrawing d F (IsGraph d) i ego seen known before w
      → Ends d F
          (λ w' _. Redrawing d F (IsGraph d) i ego seen known before w')
          (redraw_step d deletion_mode dest new_weight i w)
  unfolding redraw_step draw_random
  redraw_step-Redrawing i ego seen known before true dest new_weight w r =
      let (same, goes_on) =
        extend_walk_in_case_of_edge_deletion-Keeps d w.mr.graph w.state r.1.walk r.0 in
      bind-Ends d F (λ w' _. Redrawing d F (IsGraph d) i ego seen known before w') _ _ _ w
        (draw_on_walk-Redrawing d F (IsGraph d) i ego seen known before w r _ _
          (SameGraph-IsGraph d _ w.mr.graph same r.0) goes_on (any-Fits d _))
        (λ w' _ r'. ok-Ends d F _ w' false r')
  redraw_step-Redrawing i ego seen known before false dest new_weight w r =
      bind-Ends d F (λ w' _. Redrawing d F (IsGraph d) i ego seen known before w') _ _ _ w
        (ok-Ends d F _ _ _ r)
        (λ w' draw r'. elim (Bool-cases (d.lt draw w'.mr.alpha)) [
          | inl e ↦ rw e (
              bind_result-Ends d F (λ w'' _. Redrawing d F (IsGraph d) i ego seen known before w'')
                _ _ _
                (forget-second (Redrawing d F (IsGraph d) i ego seen known before) _ _ (
                  on_walk-Redrawing d F (IsGraph d) i ego seen known before w' r' _ _
                    (push-Continues r'.1.walk dest _) (any-Fits d _)))
                (λ w'' _ r''. ok-Ends d F _ w'' false r''))
          | inr e ↦ rw e (ok-Ends d F _ w' true r')
        ])

  -- A walk whose counts are taken back.
  abbrev Taken : ℕ → RandomWalk → World d → Type 0
  Taken i walk w =
      IsGraph d w.mr.graph
      × IsIndexed w.mr.walks
      × IsCounted (set w.mr.walks.walks i new) w.mr.hits
      × IsStored w.mr.walks
      × (get_walk w.mr.walks i ≡ some walk)

  uncount_walk-Taken :
      (i ego : ℕ) (walk : RandomWalk) (w : World d)
      → Q w
      → get_walk w.mr.walks i ≡ some walk
      → head? walk.nodes ≡ some ego
      → Ends d F (λ w' _. Taken i walk w') (uncount_walk ego walk w)
  unfolding uncount_walk Ends
  uncount_walk-Taken i ego walk w (graph, exact) found head = (
    graph,
    exact.indexed,
    revert_hits-IsCounted d w.mr.walks.walks i ego walk w.mr.hits found head exact.counted,
    exact.stored,
    found,
  )

  split-Redrawing :
      (i ego at : ℕ) (walk : RandomWalk) (w : World d)
      → Taken i walk w
      → head? walk.nodes ≡ some ego
      → Ends d F
          (λ w' _.
            (at ≤ length walk.nodes)
            × Redrawing d F
                (IsGraph d)
                i
                ego
                (take at walk.nodes)
                (take at walk.nodes)
                w.mr.walks
                w')
          (on_walks (λ st. split_and_remove_from_bookkeeping st i at) w)
  unfolding on_walks
  split-Redrawing i ego at walk w (graph, indexed, counted, stored, found) head =
      result-Ends d F _ _ _ (any-Fits d _) (λ a e.
        let (within, p) =
          split-IsPending w.mr.walks w.mr.hits i ego at walk found head indexed counted stored e in
        (within, (graph, p)))

  pub revise_walk-Good :
      (fuel : ℕ) (deletion_mode : Bool) (dest : ℕ) (new_weight : d.F) (visit : ℕ × ℕ) (w : World d)
      → Q w
      → Ends d F (λ w' _. Q w') (revise_walk d fuel deletion_mode dest new_weight visit w)
  unfolding revise_walk
  revise_walk-Good fuel deletion_mode dest new_weight (i, visit_pos) w q =
      bind-Ends d F (λ w' walk. Q w' × (get_walk w'.mr.walks i ≡ some walk)) _ _ _ w
        (walk_at-Ends d F _ _ i w (λ h. tt) (λ walk found. (q, found)))
        (λ w1 walk (q1, found).
          bind-Ends d F
            (λ w' ego. Q w' × (get_walk w'.mr.walks i ≡ some walk) × (head? walk.nodes ≡ some ego))
            _ _ _ w1 (result-Ends d F _ w1 _ (any-Fits d _) (λ ego e. (q1, found, ground arith)))
            (λ w2 ego (q2, found2, head).
              bind-Ends d F (λ w' _. Taken i walk w') _ _ _ w2
                (uncount_walk-Taken i ego walk w2 q2 found2 head)
                (λ w3 _ taken.
                  bind-Ends d F _ _ _ _ w3
                    (split-Redrawing i ego (visit_pos + 1) walk w3 taken head)
                    (λ w4 _ (within, r4).
                      let known = take (visit_pos + 1) walk.nodes in
                      bind-Ends d F
                        (λ w' _. Redrawing d F (IsGraph d) i ego known known w3.mr.walks w') _ _ _
                        w4
                        (bind-Ends d F
                          (λ w' _. Redrawing d F (IsGraph d) i ego known known w3.mr.walks w') _ _ _
                          w4 (walk_at-Ends d F _ _ i w4 (λ h. tt) (λ _ _. r4))
                          (λ w' _ r'. ok-Ends d F _ w' tt r'))
                        (λ w5 _ r5.
                          bind-Ends d F
                            (λ w' _. Redrawing d F (IsGraph d) i ego known known w3.mr.walks w') _ _
                            _ w5
                            (redraw_step-Redrawing i ego known known w3.mr.walks deletion_mode dest
                              new_weight w5 r5)
                            (λ w6 skip r6.
                              bind-Ends d F
                                (λ w' _. Redrawing d F (IsGraph d) i ego known known w3.mr.walks w')
                                _ _ _ w6
                                (when-Ends d F _ (not skip) _ w6 r6 (
                                  continue_walk-Redrawing i ego known known w3.mr.walks fuel _ w6
                                    r6))
                                (λ w7 _ r7.
                                  Ends-mono d F _ _ _ (λ w' _ g. g.0)
                                    (finish-Good d F (IsGraph d) i ego known known w3.mr.walks w7 r7
                                      _ (visit_pos + 1) (head?-take visit_pos ego walk.nodes head)
                                      (omega (arith, length-take {0} (visit_pos + 1) walk.nodes))
                                      (take-take (visit_pos + 1) (visit_pos + 1) walk.nodes
                                        (omega arith))))))))))
