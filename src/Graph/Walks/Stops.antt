-- ===== src/Graph/Walks/Stops.antt =====
-- core/src/graph.rs: the loop of `generate_walk_segment` ends. It is left when the generator draws
-- a value above alpha, so how long it runs is a matter of the generator alone.
use meritrank_rust.Prelude.{
  ℕ, zero, suc, ◌<◌, ◌≡◌, ◌⊎◌, refl, sym, subst, inl, inr, Option, none, some, Bool, true, false,
  ◌||◌, arith, Option-cases, Bool-cases, last?, if◌then◌else◌, is_empty, ◌&&◌,
}
use meritrank_rust.Deps.{Deps}
use meritrank_rust.Errors.{Result, ok, err, panic, no_fuel}
use meritrank_rust.RandomWalk.{RandomWalk, push, extend}
use meritrank_rust.Graph.Node.{
  NodeData, cached, values, combined_weights, positive_neighbor, any_neighbor, random_neighbor,
  get_node_at_index,
}
use meritrank_rust.Graph.Edges.{Graph, get_node_data, put}
use meritrank_rust.Graph.Walks.{
  Drawing, stepped, follow, chosen, draw, round, go_on, rounds, started, finished, extended,
  generate_walk_segment, continue_walk,
}

-- The loop draws a value in each round, and at most one index from a distribution behind it, which
-- uses up values of the same stream. `patience` counts the rounds until a value above alpha is
-- drawn, whichever of these rounds also draw an index. Where an index takes one value, such a count
-- is 0 if the next value is above alpha, and else the distance to the next two in a row above it.
pub record Stopping (d : Deps) (alpha : d.F) : Type 0 where
  pub patience : d.rng.State → ℕ
  pub falls_without_index :
      (s : d.rng.State)
      → d.lt alpha (d.rng.random s).0 ≡ false
      → patience (d.rng.random s).1 < patience s
  pub falls_with_index :
      (s : d.rng.State) (wi : d.rng.WeightedIndex)
      → d.lt alpha (d.rng.random s).0 ≡ false
      → patience (d.rng.sample wi (d.rng.random s).1).1 < patience s

-- The model's loop was not cut short.
abbrev pub Ended {ℓ} : {A : Type ℓ} → Result A → Type 0
Ended (ok a) = Unit {0}
Ended (err e) = Unit {0}
Ended panic = Unit {0}
Ended no_fuel = ⊥

push-Ended : (w : RandomWalk) (x : ℕ) (b : Bool) → Ended (push w x b).1
unfolding push
push-Ended w x true = ground arith
push-Ended w x false = ground arith

extend-Ended : (w s : RandomWalk) → Ended (extend w s).1
unfolding extend
extend-Ended w s = ground arith

module _ (d : Deps) (alpha : d.F) (stopping : Stopping d alpha) where
  open stopping use {patience, falls_without_index, falls_with_index}

  -- The state is that before, or that behind one index drawn from a distribution.
  abbrev IndexedOnce : d.rng.State → d.rng.State → Type 0
  IndexedOnce s' s = (s' ≡ s) ⊎ ((wi : d.rng.WeightedIndex) × (s' ≡ (d.rng.sample wi s).1))

  abbrev Calm : NodeData d × d.rng.State × Result (Option (ℕ × Bool)) → d.rng.State → Type 0
  Calm r s = IndexedOnce r.1 s × Ended r.2

  if_Calm :
      (b : Bool) (x y : NodeData d × d.rng.State × Result (Option (ℕ × Bool))) (s : d.rng.State)
      → Calm x s
      → Calm y s
      → Calm (if b then x else y) s
  if_Calm true x y s p q = p
  if_Calm false x y s p q = q

  IndexedOnce-lt :
      (s s' : d.rng.State)
      → d.lt alpha (d.rng.random s).0 ≡ false
      → IndexedOnce s' (d.rng.random s).1
      → patience s' < patience s
  IndexedOnce-lt s s' go (inl same) =
      subst (λ q. patience q < patience s) (sym same) (falls_without_index s go)
  IndexedOnce-lt s s' go (inr (wi, same)) =
      subst (λ q. patience q < patience s) (sym same) (falls_with_index s wi go)

  get_node_at_index-Ended : (n : NodeData d) (i : ℕ) → Ended (get_node_at_index d n i)
  unfolding get_node_at_index
  get_node_at_index-Ended n i = ground arith

  random_neighbor-Calm :
      (n : NodeData d) (b : Bool) (s : d.rng.State) → Calm (random_neighbor d n b s) s
  unfolding random_neighbor positive_neighbor any_neighbor
  random_neighbor-Calm n true s =
      elim (Option-cases (cached d n.pos_distr_cache (values d n.pos_edges))) [
        | inl e ↦
            rw (e, random_neighbor)
              (if_Calm (is_empty (d.edges.entries n.pos_edges)) _ _ s (inl refl, tt) (inl refl, tt))
        | inr (wi, e) ↦
            rw (e, random_neighbor)
              (if_Calm (is_empty (d.edges.entries n.pos_edges)) _ _ s (inl refl, tt)
                (inr (wi, refl), ground arith))
      ]
  random_neighbor-Calm n false s =
      elim (Option-cases (cached d n.abs_distr_cache (combined_weights d n))) [
        | inl e ↦
            rw (e, random_neighbor)
              (if_Calm
                (is_empty (d.edges.entries n.pos_edges) && is_empty (d.edges.entries n.neg_edges)) _
                _ s (inl refl, tt) (inl refl, tt))
        | inr (wi, e) ↦
            rw (e, random_neighbor)
              (if_Calm
                (is_empty (d.edges.entries n.pos_edges) && is_empty (d.edges.entries n.neg_edges)) _
                _ s (inl refl, tt)
                (inr (wi, refl), get_node_at_index-Ended n (d.rng.sample wi s).0))
      ]

  -- A round that goes on has less patience to come.
  abbrev Falls : Drawing d × Result Bool → ℕ → Type 0
  Falls (l, ok b) p = b ≡ true → patience l.state < p
  Falls (l, err e) p = Unit {0}
  Falls (l, panic) p = Unit {0}
  Falls (l, no_fuel) p = ⊥

  stepped-Falls :
      (l : Drawing d) (x : ℕ) (b : Bool) (r : RandomWalk × Result (Unit {0})) (p : ℕ)
      → Ended r.1
      → patience l.state < p
      → Falls (stepped d l x b r) p
  unfolding stepped
  stepped-Falls l x true (w, ok u) p e h = λ t. h
  stepped-Falls l x false (w, ok u) p e h = ground arith
  stepped-Falls l x b (w, err u) p e h = tt
  stepped-Falls l x b (w, panic) p e h = tt
  stepped-Falls l x b (w, no_fuel) p e h = e

  follow-Falls :
      (l : Drawing d) (c : Result (Option (ℕ × Bool))) (p : ℕ)
      → Ended c
      → patience l.state < p
      → Falls (follow d l c) p
  unfolding follow
  follow-Falls l (ok none) p e h = λ t. h
  follow-Falls l (ok (some (x, b))) p e h =
      stepped-Falls l x b (push l.segment x b) p (push-Ended l.segment x b) h
  follow-Falls l (err u) p e h = tt
  follow-Falls l panic p e h = tt
  follow-Falls l no_fuel p e h = e

  round-Falls :
      (positive_only : Bool) (l : Drawing d)
      → Falls (round d alpha positive_only l) (patience l.state)
  unfolding round draw chosen
  round-Falls positive_only l = elim (Option-cases (get_node_data d l.graph l.node)) [
    | inl e ↦ rw (e, round) tt
    | inr (n, e) ↦
        rw (e, round)
          (elim (Bool-cases (d.lt alpha (d.rng.random l.state).0)) [
            | inl stop ↦ rw (stop, draw) (λ t. cc)
            | inr go ↦
                let only = l.negative_continuation_mode || positive_only in
                let s = (d.rng.random l.state).1 in
                let (once, ended) = random_neighbor-Calm n only s in
                rw (go, draw)
                  (follow-Falls
                    (record l {
                      graph = put d l.graph l.node (random_neighbor d n only s).0;
                      state = (random_neighbor d n only s).1;
                    })
                    (random_neighbor d n only s).2 (patience l.state) ended
                    (IndexedOnce-lt l.state (random_neighbor d n only s).1 go once))
          ])
  ]

  go_on-Ended :
      (r : Drawing d × Result Bool) (rest : Drawing d → Drawing d × Result (Unit {0})) (p : ℕ)
      → Falls r p
      → ((l : Drawing d) → patience l.state < p → Ended (rest l).1)
      → Ended (go_on d r rest).1
  unfolding go_on
  go_on-Ended (l, ok true) rest p f k = k l (f refl)
  go_on-Ended (l, ok false) rest p f k = tt
  go_on-Ended (l, err e) rest p f k = tt
  go_on-Ended (l, panic) rest p f k = tt
  go_on-Ended (l, no_fuel) rest p f k = f

  rounds-Ended :
      (fuel : ℕ) (positive_only : Bool) (l : Drawing d)
      → patience l.state < fuel
      → Ended (rounds d fuel alpha positive_only l).1
  unfolding rounds
  rounds-Ended zero positive_only l h = absurd (omega arith)
  rounds-Ended (suc fuel) positive_only l h =
      go_on-Ended (round d alpha positive_only l) (rounds d fuel alpha positive_only)
        (patience l.state) (round-Falls positive_only l)
        (λ l' less. rounds-Ended fuel positive_only l' (omega arith))

  -- Where some count of the generator's state falls by each draw of a value that is not above
  -- alpha, both if an index is drawn from a distribution behind it and if none is,
  -- `generate_walk_segment` with more fuel than that count is never cut short.
  pub generate_walk_segment-Ended :
      (fuel : ℕ) (g : Graph d) (s : d.rng.State) (start : ℕ) (positive_only : Bool)
      → patience s < fuel
      → Ended (generate_walk_segment d fuel g s start alpha positive_only).2
  unfolding generate_walk_segment finished
  generate_walk_segment-Ended fuel g s start positive_only h =
      finish (rounds d fuel alpha positive_only (started d g s start))
        (rounds-Ended fuel positive_only (started d g s start) h)
    where
      finish : (r : Drawing d × Result (Unit {0})) → Ended r.1 → Ended (finished d r).2
      finish (l, ok u) e = tt
      finish (l, err x) e = tt
      finish (l, panic) e = tt
      finish (l, no_fuel) e = e

  -- So it is for the continuation of a walk.
  pub continue_walk-Ended :
      (fuel : ℕ) (g : Graph d) (s : d.rng.State) (walk : RandomWalk)
      → patience s < fuel
      → Ended (continue_walk d fuel g s walk alpha).2.1
  unfolding continue_walk
  continue_walk-Ended fuel g s walk h = elim (Option-cases (last? walk.nodes)) [
    | inl e ↦ rw (e, continue_walk) tt
    | inr (x, e) ↦
        rw (e, continue_walk)
          (extended-Ended (generate_walk_segment d fuel g s x alpha _)
            (generate_walk_segment-Ended fuel g s x _ h))
  ]
    where
      extended-Ended :
          (r : Graph d × d.rng.State × Result RandomWalk)
          → Ended r.2
          → Ended (extended d walk r).2.1
      extended-Ended (g', s', ok segment) e = extend-Ended walk segment
      extended-Ended (g', s', err x) e = tt
      extended-Ended (g', s', panic) e = tt
      extended-Ended (g', s', no_fuel) e = e
