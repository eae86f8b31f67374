-- ===== src/Rank/Updates/Tiny.antt =====
-- core/src/rank.rs: `set_edge` with a weight of at most EPSILON where there is no edge.
use meritrank_rust.Prelude.{ℕ, ◌≡◌, refl, none, Bool, true, false, ◌==◌, ◌||◌, ◌&&◌, arith}
use meritrank_rust.Deps.{Deps}
use meritrank_rust.Errors.{ok, panic}
use meritrank_rust.Graph.Edges.{contains_node, edge_weight}
use meritrank_rust.Graph.Edges.Invariant.{weight_at}
use meritrank_rust.Graph.Edges.Operations.{remove_edge_panics, edge_weight-eq-weight_at}
use meritrank_rust.Rank.State.{World, ◌>>=◌, on_graph, when}
use meritrank_rust.Rank.Updates.{
  small, large, old_weight, recalc_probability, change_edge, apply_edge, set_edge_inner, set_edge,
}

and_false : (b : Bool) → (b && false) ≡ false
and_false true = refl
and_false false = refl

module _ (d : Deps) (checks : Bool) (fuel src dest : ℕ) (new_weight : d.F) (w : World d)
    (source : contains_node d w.mr.graph src ≡ true)
    (target : contains_node d w.mr.graph dest ≡ true) (distinct : (src == dest) ≡ false)
    (absent : weight_at d w.mr.graph src dest ≡ none) (nonzero : d.eq d.zero new_weight ≡ false)
    (tiny : small d new_weight ≡ true) where
  old_weight_absent : old_weight d src dest w ≡ (w, ok d.zero)
  unfolding old_weight
  old_weight_absent =
      let e : edge_weight d w.mr.graph src dest ≡ ok none =
        ground (arith, edge_weight-eq-weight_at d w.mr.graph src dest) in
      rw (old_weight, e) refl

  apply_edge_panics : (apply_edge d checks fuel src dest new_weight w).1 ≡ panic
  unfolding apply_edge ◌>>=◌ recalc_probability change_edge on_graph
  apply_edge_panics =
      let gone = remove_edge_panics d w.mr.graph src dest source target distinct absent in
      rw (apply_edge, tiny, gone) refl

  set_edge_inner_panics : (set_edge_inner d checks fuel src dest new_weight w).1 ≡ panic
  unfolding set_edge_inner ◌>>=◌
  set_edge_inner_panics =
      rw (set_edge_inner, distinct, old_weight_absent, nonzero) apply_edge_panics

  -- Between two distinct nodes of the graph with no edge from the first to the second,
  -- `MeritRank::set_edge` panics for a weight that differs from zero and whose absolute value is
  -- at most EPSILON.
  pub set_edge_tiny_panics :
      large d new_weight ≡ false
      → (d.is_nan new_weight || d.is_infinite new_weight) ≡ false
      → (set_edge d checks fuel src dest new_weight w).1 ≡ panic
  unfolding set_edge ◌>>=◌ when
  set_edge_tiny_panics not_large finite =
      rw (set_edge, old_weight_absent, finite, not_large, and_false (large d d.zero))
        set_edge_inner_panics
