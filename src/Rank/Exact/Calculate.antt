-- ===== src/Rank/Exact/Calculate.antt =====
-- core/src/rank.rs: `calculate` draws an ego's walks anew and leaves all tables exact.
use meritrank_rust.Prelude.{
  ℕ, zero, suc, ◌+◌, ◌≤◌, ◌<◌, ◌≡◌, refl, sym, ◌∙◌, inl, inr, [], ◌∷◌, some, true, false, arith,
  length, last?, subst, get_elem?-set, get_elem?-set_self, Option-cases, is_some,
  lt-length_of_get_elem?, get_elem?_lt_some,
}
use meritrank_rust.Prelude.IntMap
use meritrank_rust.Deps.{Deps}
use meritrank_rust.Errors.{Result, ok, err, panic, no_fuel}
use meritrank_rust.RandomWalk.{RandomWalk, new, push}
use meritrank_rust.Graph.Edges.{Graph, get_node_data}
use meritrank_rust.Graph.Edges.Invariant.{IsGraph}
use meritrank_rust.Graph.Walks.Trail.{SameGraph, SameGraph-IsGraph}
use meritrank_rust.Graph.Walks.Keeps.{continue_walk-Keeps}
use meritrank_rust.Graph.Walks.Draws.{IsUnfit}
use meritrank_rust.Graph.Walks.Continued.{Continued, continue_walk-Continued}
use meritrank_rust.WalkStorage.{
  WalkStorage, Hits, get_walk, put_walk, get_block_start, ensure_block_for_ego, clear_block_for_ego,
}
use meritrank_rust.Rank.State.{World, for_each, ids_from, on_walks, when}
use meritrank_rust.Rank.Calculate.{calculate, calculate_walk, clear_block}
use meritrank_rust.Rank.Checks.{run_checks}
use meritrank_rust.Rank.Runs.{
  Failures, Ends, Fits, ok-Ends, result-Ends, bind-Ends, bind_result-Ends, on_walk-Ends,
}
use meritrank_rust.Rank.Exact.{InBlock, IsExact, IsStored, IsCounted}
use meritrank_rust.Rank.Exact.Counted.{IsCounted-empty}
use meritrank_rust.Rank.Exact.Blocks.{set-set, IsStored-put, ensure_block_for_ego-IsExact}
use meritrank_rust.Rank.Exact.Pending.{Frame, Frame-refl, Frame-put, IsPending}
use meritrank_rust.Rank.Exact.Redrawing.{Good, Redrawing, draw_on_walk-Redrawing, finish-Good}
use meritrank_rust.Rank.Exact.Clear.{IsEmptySlot, Frame-InBlock, clear_slots-Cleared}

-- Drawing may be refused for unfit weights, and the model may run out of fuel.
abbrev pub drawing_failure : Failures
drawing_failure = record { error = IsUnfit; panics = ⊥; out = Unit {0} }

push_first :
    (walk : RandomWalk) (ego : ℕ)
    → walk.nodes ≡ []
    → push walk ego true ≡ (record walk { nodes = ego ∷ [] }, ok tt)
unfolding push
push_first walk ego e = rw (e, push) refl

module _ (d : Deps) (ego : ℕ) where
  -- The graph is well formed and has the ego.
  abbrev Home : Graph d → Type 0
  Home g = IsGraph d g × (is_some (get_node_data d g ego) ≡ true)

  abbrev Fine : World d → Type 0
  Fine = Good d drawing_failure Home

  SameGraph-Home : (g' g : Graph d) → SameGraph d g' g → Home g → Home g'
  SameGraph-Home g' g same (whole, there) = (
    SameGraph-IsGraph d g' g same whole,
    elim (Option-cases (get_node_data d g ego)) [
      | inl e ↦ ground arith
      | inr (n, e) ↦
          let within = lt-length_of_get_elem? g.nodes ego n e in
          let (n', e') = get_elem?_lt_some g'.nodes ego (omega (arith, same.size)) in rw e' refl
    ],
  )

  Continued-Fits : (r : Result (Unit {0})) → Continued r → Fits d drawing_failure r
  unfolding Fits
  Continued-Fits (ok a) h = tt
  Continued-Fits (err e) h = h
  Continued-Fits panic h = h
  Continued-Fits no_fuel h = tt

  -- An empty slot of the ego's block, with the ego pushed.
  pushed-IsPending :
      (st : WalkStorage) (hits : Hits) (i : ℕ) (walk : RandomWalk)
      → IsExact st hits
      → InBlock st ego i
      → get_walk st i ≡ some walk
      → walk.nodes ≡ []
      → (p : IsPending i ego [] (ego ∷ []) st (put_walk st i (push walk ego true).0) hits) × (last?
            p.walk.nodes
          ≡ some ego)
  pushed-IsPending st hits i walk p inside found empty = rw (push_first walk ego empty) (
    record {
      walk = record walk { nodes = ego ∷ [] };
      found = get_elem?-set_self st.walks i _ (lt-length_of_get_elem? st.walks i walk found);
      more = [];
      grown = refl;
      visited = λ node k. ground (
        arith,
        p.indexed node k,
        get_elem?-set st.walks i k walk (record walk { nodes = ego ∷ [] }) found,
      );
      counted =
          subst (λ ws. IsCounted ws hits) (sym (set-set st.walks i _ new))
            (IsCounted-empty st.walks i walk new hits found empty refl p.counted);
      stored =
          subst (λ ws. IsStored (record st { walks = ws })) (sym (set-set st.walks i _ new))
            (IsStored-put st i walk new found p.stored (λ _ _. inl refl));
      frame = Frame-put i st st walk _ st.visits found (Frame-refl i st);
      mine = λ e inside'. p.stored.apart e ego i inside' inside;
    },
    refl,
  )

  calculate_walk-Fine :
      (fuel i : ℕ) (w : World d)
      → Fine w
      → InBlock w.mr.walks ego i
      → IsEmptySlot w.mr.walks i
      → Ends d drawing_failure
          (λ w' _. Fine w' × Frame i w.mr.walks w'.mr.walks)
          (calculate_walk d fuel ego i w)
  unfolding calculate_walk
  calculate_walk-Fine fuel i w (home, exact) inside empty =
      bind-Ends d drawing_failure
        (λ w' _.
          (r : Redrawing d drawing_failure Home i ego [] (ego ∷ []) w.mr.walks w') × (last?
              r.1.walk.nodes
            ≡ some ego))
        _ _ _ w
        (on_walk-Ends d drawing_failure _ _ i _ w
          (λ h.
            let (u, f) = get_elem?_lt_some w.mr.walks.walks i (exact.stored.bounded ego i inside) in
            cc)
          (λ walk found.
            let (p, last) =
              pushed-IsPending w.mr.walks w.mr.hits i walk exact inside found (empty walk found) in
            result-Ends d drawing_failure _ _ _
              (Continued-Fits _ (rw (push_first walk ego (empty walk found)) tt))
              (λ _ _. ((home, p), last))))
        (λ w1 _ (r1, last).
          let (same, goes_on) =
            continue_walk-Keeps d fuel w1.mr.graph w1.state r1.1.walk w1.mr.alpha r1.0.0 in
          bind-Ends d drawing_failure
            (λ w' _. Redrawing d drawing_failure Home i ego [] (ego ∷ []) w.mr.walks w') _ _ _ w1
            (draw_on_walk-Redrawing d drawing_failure Home i ego [] (ego ∷ []) w.mr.walks w1 r1 _ _
              (SameGraph-Home _ w1.mr.graph same r1.0) goes_on
              (Continued-Fits _ (
                continue_walk-Continued d fuel w1.mr.graph w1.state r1.1.walk w1.mr.alpha ego r1.0.0
                  last r1.0.1)))
            (λ w2 _ r2.
              finish-Good d drawing_failure Home i ego [] (ego ∷ []) w.mr.walks w2 r2 _ 0 refl
                (omega arith) refl))

  -- Slots of the ego's block that are empty.
  abbrev Ready : ℕ → ℕ → World d → Type 0
  Ready i left w =
      (j : ℕ) → i ≤ j → j < i + left → InBlock w.mr.walks ego j × IsEmptySlot w.mr.walks j

  calculate_walks-Fine :
      (fuel left i : ℕ) (w : World d)
      → Fine w
      → Ready i left w
      → Ends d drawing_failure
          (λ w' _. Fine w')
          (for_each (ids_from i left) (calculate_walk d fuel ego) w)
  unfolding for_each ids_from
  calculate_walks-Fine fuel zero i w p ready = ok-Ends d drawing_failure _ w tt p
  calculate_walks-Fine fuel (suc left) i w p ready =
      let (inside, empty) = ready i (omega arith) (omega arith) in
      bind_result-Ends d drawing_failure (λ w' _. Fine w' × Frame i w.mr.walks w'.mr.walks)
        (λ w' _. Fine w') _ (λ _. for_each (ids_from (i + 1) left) (calculate_walk d fuel ego))
        (calculate_walk-Fine fuel i w p inside empty)
        (λ w' _ (p', frame). calculate_walks-Fine fuel left (i + 1) w' p' (λ j low high.
          let (inside', empty') = ready j (omega arith) (omega arith) in
          (
            Frame-InBlock i ego j w.mr.walks w'.mr.walks frame inside',
            λ u at. empty' u (sym (frame.others j (ground arith)) ∙ at),
          )))

  ensure_block_start :
      (st : WalkStorage)
      → (get_block_start (ensure_block_for_ego st ego).0 ego ≡ some (ensure_block_for_ego st ego).1)
        × ((ensure_block_for_ego st ego).0.walks_per_ego ≡ st.walks_per_ego)
  unfolding ensure_block_for_ego
  ensure_block_start st = elim (Option-cases (get_block_start st ego)) [
    | inl e ↦
        rw (e, ensure_block_for_ego)
          (ground (arith, IntMap.get-insert ego ego (length st.walks) st.ego_blocks), refl)
    | inr (s, e) ↦ rw (e, ensure_block_for_ego) (e, refl)
  ]

  clear_block-Fine :
      (start : ℕ) (w : World d)
      → Fine w
      → get_block_start w.mr.walks ego ≡ some start
      → Ends d drawing_failure
          (λ w' _. Fine w' × Ready start w'.mr.walks.walks_per_ego w')
          (clear_block d ego start w)
  unfolding clear_block clear_block_for_ego
  clear_block-Fine start w (home, exact) at =
      let (done, c) =
        clear_slots-Cleared d w.mr.walks.walks_per_ego w.mr.walks w.mr.hits ego start exact
          (λ j low high. (start, at, low, high)) in
      result-Ends d drawing_failure _ _ _ (rw done (fits_ok)) (λ _ _. (
        (home, c.exact),
        λ j low high. ((start, rw c.blocks at, low, high), c.emptied j low (omega (arith, c.size))),
      ))
    where
      fits_ok : Fits d drawing_failure (ok tt)
      fits_ok = Continued-Fits (ok tt) tt

  -- On a well-formed graph that has the ego, with counters, table of visits and blocks that fit
  -- the walks, `calculate` without run-time checks either ends with ok, or ends with the error
  -- that the weights are unfit to draw by, or runs out of fuel; no other error occurs and it does
  -- not panic. Where it ends with ok, counters, table and blocks fit the walks again.
  pub calculate-IsExact :
      (fuel : ℕ) (w : World d)
      → IsGraph d w.mr.graph
      → is_some (get_node_data d w.mr.graph ego) ≡ true
      → IsExact w.mr.walks w.mr.hits
      → Ends d drawing_failure
          (λ w' _. IsExact w'.mr.walks w'.mr.hits)
          (calculate d false fuel ego w)
  unfolding calculate run_checks on_walks when
  calculate-IsExact fuel w whole there exact =
      bind-Ends d drawing_failure
        (λ w' start. Fine w' × (get_block_start w'.mr.walks ego ≡ some start)) _ _ _ w
        (ok-Ends d drawing_failure _ _ _ (
          ((whole, there), ensure_block_for_ego-IsExact w.mr.walks w.mr.hits ego exact),
          (ensure_block_start w.mr.walks).0,
        ))
        (λ w1 start (p1, at).
          bind-Ends d drawing_failure (λ w' _. Fine w' × Ready start w'.mr.walks.walks_per_ego w') _
            _ _ w1 (clear_block-Fine start w1 p1 at)
            (λ w2 _ (p2, ready).
              bind-Ends d drawing_failure (λ w' _. Fine w') _ _ _ w2
                (calculate_walks-Fine fuel w2.mr.walks.walks_per_ego start w2 p2 ready)
                (λ w3 _ p3. ok-Ends d drawing_failure _ w3 tt p3.1)))
