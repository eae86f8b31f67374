-- ===== src/Rank/Exact/Redrawing.antt =====
-- core/src/rank.rs: the steps of a method on the walk that is being redrawn.
use meritrank_rust.Prelude.{ℕ, ◌≤◌, ◌≡◌, refl, sym, List, some, none, length, head?, take, subst}
use meritrank_rust.Deps.{Deps}
use meritrank_rust.Errors.{Result, ok, InternalFatal}
use meritrank_rust.RandomWalk.{RandomWalk}
use meritrank_rust.Graph.Edges.{Graph}
use meritrank_rust.Graph.Walks.Keeps.{Continues}
use meritrank_rust.WalkStorage.{WalkStorage, get_walk, put_walk, update_walk_bookkeeping}
use meritrank_rust.Rank.State.{
  World, M, ◌>>=◌, on_walk, draw_on_walk, drawn_walk, walk_at, count_walk, on_walks,
}
use meritrank_rust.Rank.Runs.{
  Failures, Ends, Fits, with_walks, result-Ends, bind-Ends, walk_at-Ends, on_walk-Ends,
  draw_on_walk-Ends,
}
use meritrank_rust.Rank.Exact.{IsExact}
use meritrank_rust.Rank.Exact.Pending.{Frame, IsPending, IsPending-put, IsPending-finish}

module _ (d : Deps) (failures : Failures) (G : Graph d → Type 0) where
  open failures use {error, panics, out}

  abbrev pub Good : World d → Type 0
  Good w = G w.mr.graph × IsExact w.mr.walks w.mr.hits

  abbrev pub Redrawing : ℕ → ℕ → List ℕ → List ℕ → WalkStorage → World d → Type 0
  Redrawing i ego seen known before w =
      G w.mr.graph × IsPending i ego seen known before w.mr.walks w.mr.hits

  module _ (i ego : ℕ) (seen known : List ℕ) (before : WalkStorage) (w : World d)
      (r : Redrawing i ego seen known before w) where
    missing : {A : Type 0} → get_walk w.mr.walks i ≡ none → A
    missing h = cc (r.1.found)

    same_walk : (walk : RandomWalk) → get_walk w.mr.walks i ≡ some walk → r.1.walk ≡ walk
    same_walk walk h = cc (r.1.found)

    pub on_walk-Redrawing :
        {A : Type 0} (site : InternalFatal) (f : RandomWalk → RandomWalk × Result A)
        → Continues (f r.1.walk).0 r.1.walk
        → Fits d failures (f r.1.walk).1
        → Ends d failures
            (λ w' a. Redrawing i ego seen known before w' × ((f r.1.walk).1 ≡ ok a))
            (on_walk site i f w)
    on_walk-Redrawing site f goes_on fits =
        on_walk-Ends d failures _ site i f w missing (λ walk found.
          subst
            (λ x.
              Ends d failures
                (λ w' a. Redrawing i ego seen known before w' × ((f r.1.walk).1 ≡ ok a))
                (with_walks d failures w (put_walk w.mr.walks i (f x).0), (f x).1))
            (same_walk walk found)
            (result-Ends d failures _ _ (f r.1.walk).1 fits
              (λ a e. ((r.0, IsPending-put r.1 (f r.1.walk).0 goes_on), e))))

    pub draw_on_walk-Redrawing :
        (site : InternalFatal)
        (f : Graph d
          → d.rng.State
          → RandomWalk
          → Graph d × d.rng.State × (RandomWalk × Result (Unit {0})))
        → G (f w.mr.graph w.state r.1.walk).0
        → Continues (f w.mr.graph w.state r.1.walk).2.0 r.1.walk
        → Fits d failures (f w.mr.graph w.state r.1.walk).2.1
        → Ends d failures (λ w' _. Redrawing i ego seen known before w') (draw_on_walk site i f w)
    unfolding drawn_walk
    draw_on_walk-Redrawing site f graph goes_on fits =
        draw_on_walk-Ends d failures _ site i f w missing (λ walk found.
          subst
            (λ x.
              Ends d failures (λ w' _. Redrawing i ego seen known before w')
                (drawn_walk w i (f w.mr.graph w.state x)))
            (same_walk walk found)
            (result-Ends d failures _ _ (f w.mr.graph w.state r.1.walk).2.1 fits
              (λ a e. (graph, IsPending-put r.1 (f w.mr.graph w.state r.1.walk).2.0 goes_on))))

    abbrev last_steps : ℕ → RandomWalk → M d (Unit {0})
    last_steps start walk =
        count_walk ego walk >>= λ _. on_walks (λ st. (update_walk_bookkeeping st i start, ok tt))

    steps_Good :
        (start : ℕ)
        → head? known ≡ some ego
        → start ≤ length known
        → take start known ≡ seen
        → Ends d failures
            (λ w' _. Good w' × Frame i before w'.mr.walks)
            (last_steps start r.1.walk w)
    unfolding count_walk on_walks ◌>>=◌ Ends
    steps_Good start first within same =
        let (exact, frame) =
          IsPending-finish d i ego start seen known before w.mr.walks w.mr.hits r.1 first within
            same in
        ((r.0, exact), frame)

    -- The last steps: the walk is counted and its visits are noted.
    pub finish-Good :
        (site : InternalFatal) (start : ℕ)
        → head? known ≡ some ego
        → start ≤ length known
        → take start known ≡ seen
        → Ends d failures
            (λ w' _. Good w' × Frame i before w'.mr.walks)
            ((walk_at site i >>= last_steps start) w)
    finish-Good site start first within same =
        bind-Ends d failures (λ w' walk. (w' ≡ w) × (r.1.walk ≡ walk))
          (λ w' _. Good w' × Frame i before w'.mr.walks) _ (last_steps start) w
          (walk_at-Ends d failures _ site i w missing (λ walk found. (refl, same_walk walk found)))
          (λ w' walk e.
            subst
              (λ x.
                Ends d failures (λ w' _. Good w' × Frame i before w'.mr.walks)
                  (last_steps start walk x))
              (sym e.0)
              (subst
                (λ y.
                  Ends d failures (λ w' _. Good w' × Frame i before w'.mr.walks)
                    (last_steps start y w))
                e.1 (steps_Good start first within same)))
