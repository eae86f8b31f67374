-- ===== src/Rank/Runs.antt =====
-- core/src/rank.rs: what a method ends with, where only some failures are possible.
use meritrank_rust.Prelude.{
  ℕ, ◌≡◌, refl, subst, inl, inr, List, [], ◌∷◌, none, some, Bool, true, false, Option-cases,
}
use meritrank_rust.Deps.{Deps}
use meritrank_rust.Errors.{
  MeritRankError, Result, ok, err, panic, no_fuel, InternalFatal, internal_fatal_error,
}
use meritrank_rust.RandomWalk.{RandomWalk}
use meritrank_rust.Graph.Edges.{Graph}
use meritrank_rust.WalkStorage.{WalkStorage, get_walk, put_walk}
use meritrank_rust.Rank.State.{
  World, M, bind_result, ◌>>=◌, for_each, when, walk_at, on_walk, draw_on_walk, drawn_walk, set_mr,
}

-- The failures that are possible.
pub record Failures : Type 1 where
  pub error : MeritRankError → Type 0
  pub panics : Type 0
  pub out : Type 0

abbrev pub any_failure : Failures
any_failure = record { error = λ e. Unit {0}; panics = Unit {0}; out = Unit {0} }

module _ (d : Deps) (failures : Failures) where
  open failures use {error, panics, out}

  unfoldable pub Ends : {A : Type 0} → (World d → A → Type 0) → World d × Result A → Type 0
  Ends Q (w, ok a) = Q w a
  Ends Q (w, err e) = error e
  Ends Q (w, panic) = panics
  Ends Q (w, no_fuel) = out

  pub ok-Ends :
      {A : Type 0} (Q : World d → A → Type 0) (w : World d) (a : A) → Q w a → Ends Q (w, ok a)
  unfolding Ends
  ok-Ends Q w a h = h

  -- A result that is no other failure.
  unfoldable pub Fits : {A : Type 0} → Result A → Type 0
  Fits (ok a) = Unit {0}
  Fits (err e) = error e
  Fits panic = panics
  Fits no_fuel = out

  pub result-Ends :
      {A : Type 0} (Q : World d → A → Type 0) (w : World d) (r : Result A)
      → Fits r
      → ((a : A) → r ≡ ok a → Q w a)
      → Ends Q (w, r)
  unfolding Ends Fits
  result-Ends Q w (ok a) h k = k a refl
  result-Ends Q w (err e) h k = h
  result-Ends Q w panic h k = h
  result-Ends Q w no_fuel h k = h

  pub Ends-mono :
      {A : Type 0} (Q R : World d → A → Type 0) (r : World d × Result A)
      → ((w : World d) (a : A) → Q w a → R w a)
      → Ends Q r
      → Ends R r
  unfolding Ends
  Ends-mono Q R (w, ok a) f h = f w a h
  Ends-mono Q R (w, err e) f h = h
  Ends-mono Q R (w, panic) f h = h
  Ends-mono Q R (w, no_fuel) f h = h

  pub Ends-ok :
      {A : Type 0} (Q : World d → A → Type 0) (r : World d × Result A) (a : A)
      → r.1 ≡ ok a
      → Ends Q r
      → Q r.0 a
  unfolding Ends
  Ends-ok Q (w, ok b) a e h = let e' : b ≡ a = cc in subst (Q w) e' h
  Ends-ok Q (w, err x) a e h = cc
  Ends-ok Q (w, panic) a e h = cc
  Ends-ok Q (w, no_fuel) a e h = cc

  pub bind_result-Ends :
      {A B : Type 0} (Q : World d → A → Type 0) (R : World d → B → Type 0) (r : World d × Result A)
      (f : A → M d B)
      → Ends Q r
      → ((w : World d) (a : A) → Q w a → Ends R (f a w))
      → Ends R (bind_result r f)
  unfolding Ends
  bind_result-Ends Q R (w, ok a) f h k = k w a h
  bind_result-Ends Q R (w, err e) f h k = h
  bind_result-Ends Q R (w, panic) f h k = h
  bind_result-Ends Q R (w, no_fuel) f h k = h

  pub bind-Ends :
      {A B : Type 0} (Q : World d → A → Type 0) (R : World d → B → Type 0) (m : M d A)
      (f : A → M d B) (w : World d)
      → Ends Q (m w)
      → ((w' : World d) (a : A) → Q w' a → Ends R (f a w'))
      → Ends R ((m >>= f) w)
  unfolding ◌>>=◌
  bind-Ends Q R m f w h k = bind_result-Ends Q R (m w) f h k

  -- The loop's invariant may speak of the rounds that are left.
  pub for_each-Ends :
      {A : Type 0} (I : List A → World d → Type 0) (body : A → M d (Unit {0}))
      → ((x : A) (xs : List A) (w : World d) → I (x ∷ xs) w → Ends (λ w' _. I xs w') (body x w))
      → (xs : List A) (w : World d) → I xs w
      → Ends (λ w' _. I [] w') (for_each xs body w)
  unfolding for_each
  for_each-Ends I body step [] w h = ok-Ends (λ w' _. I [] w') w tt h
  for_each-Ends I body step (x ∷ xs) w h =
      bind_result-Ends (λ w' _. I xs w') (λ w' _. I [] w') (body x w) (λ _. for_each xs body)
        (step x xs w h) (λ w' _ h'. for_each-Ends I body step xs w' h')

  pub when-Ends :
      (Q : World d → Unit {0} → Type 0) (b : Bool) (m : M d (Unit {0})) (w : World d)
      → Q w tt
      → Ends Q (m w)
      → Ends Q (when b m w)
  unfolding when
  when-Ends Q true m w h k = k
  when-Ends Q false m w h k = ok-Ends Q w tt h

  pub walk_at-Ends :
      (Q : World d → RandomWalk → Type 0) (site : InternalFatal) (i : ℕ) (w : World d)
      → (get_walk w.mr.walks i ≡ none → error (internal_fatal_error (some site)))
      → ((walk : RandomWalk) → get_walk w.mr.walks i ≡ some walk → Q w walk)
      → Ends Q (walk_at site i w)
  unfolding walk_at Ends
  walk_at-Ends Q site i w missing h = elim (Option-cases (get_walk w.mr.walks i)) [
    | inl e ↦ rw (e, walk_at) (missing e)
    | inr (walk, e) ↦ rw (e, walk_at) (h walk e)
  ]

  -- The world with other walks.
  abbrev pub with_walks : World d → WalkStorage → World d
  with_walks w st = set_mr w (record (w.mr) { walks = st })

  pub on_walk-Ends :
      {A : Type 0} (Q : World d → A → Type 0) (site : InternalFatal) (i : ℕ)
      (f : RandomWalk → RandomWalk × Result A) (w : World d)
      → (get_walk w.mr.walks i ≡ none → error (internal_fatal_error (some site)))
      → ((walk : RandomWalk)
          → get_walk w.mr.walks i ≡ some walk
          → Ends Q (with_walks w (put_walk w.mr.walks i (f walk).0), (f walk).1))
      → Ends Q (on_walk site i f w)
  unfolding on_walk Ends
  on_walk-Ends Q site i f w missing h = elim (Option-cases (get_walk w.mr.walks i)) [
    | inl e ↦ rw (e, on_walk) (missing e)
    | inr (walk, e) ↦ rw (e, on_walk) (h walk e)
  ]

  pub draw_on_walk-Ends :
      (Q : World d → Unit {0} → Type 0) (site : InternalFatal) (i : ℕ)
      (f : Graph d
        → d.rng.State
        → RandomWalk
        → Graph d × d.rng.State × (RandomWalk × Result (Unit {0})))
      (w : World d)
      → (get_walk w.mr.walks i ≡ none → error (internal_fatal_error (some site)))
      → ((walk : RandomWalk)
          → get_walk w.mr.walks i ≡ some walk
          → Ends Q (drawn_walk w i (f w.mr.graph w.state walk)))
      → Ends Q (draw_on_walk site i f w)
  unfolding draw_on_walk Ends
  draw_on_walk-Ends Q site i f w missing h = elim (Option-cases (get_walk w.mr.walks i)) [
    | inl e ↦ rw (e, draw_on_walk) (missing e)
    | inr (walk, e) ↦ rw (e, draw_on_walk) (h walk e)
  ]

module _ (d : Deps) where
  pub any-Fits : {A : Type 0} (r : Result A) → Fits d any_failure r
  unfolding Fits
  any-Fits (ok a) = tt
  any-Fits (err e) = tt
  any-Fits panic = tt
  any-Fits no_fuel = tt
