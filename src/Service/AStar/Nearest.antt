-- ===== src/Service/AStar/Nearest.antt =====
-- service/src/utils/astar.rs: the stage of `iteration` that takes the nearest open node.
use meritrank_rust.Prelude.{
  gt_of_leb, or_false, ℕ, ◌+◌, ◌-◌, ◌<◌, ◌≡◌, refl, subst, List, false, ◌||◌, ◌==◌, ==_iff, length,
  arith, leb,
}
use meritrank_rust.Prelude.Partial.{
  Returns, some-Returns, bind-Returns, if-Returns, map-Returns, some_injective, put-Returns,
  get-Returns,
}
use meritrank_rust.Service.AStar.{Types, Node, Search}
use meritrank_rust.Service.AStar.Steps.{fill_gap, take_nearest, search_nearest_step}
use meritrank_rust.Service.AStar.Invariant.{
  Holds, Holds-write, Holds-push, Holds-fewer, IsStored, nearest_from-Returns, Continues,
}

ne_zero : (n : ℕ) → (n == 0) ≡ false → 0 < n
ne_zero n e = ground (arith, e)

module _ (t : Types) (Fits : Node t → Type 0) (source destination : t.NodeId) where
  fill_gap-Returns :
      (xs : List (Node t)) (index last : ℕ)
      → index < last + 1
      → last < length xs
      → Holds t Fits xs (last + 1)
      → Returns (fill_gap t xs index last) (λ ys. (length ys ≡ length xs) × Holds t Fits ys last)
  unfolding fill_gap
  fill_gap-Returns xs index last le lt h =
      if-Returns (index == last)
        (λ _. some-Returns xs (refl, Holds-fewer t Fits xs last (last + 1) (omega arith) h))
        (λ _. bind-Returns (get-Returns xs last lt) (λ x at.
          map-Returns (put-Returns xs index x (omega arith)) (λ ys w. (
            w.same_length,
            Holds-write t Fits xs ys index last x
                (Holds-fewer t Fits xs last (last + 1) (omega arith) h) (h last (omega arith) x at)
                w,
          ))))

  take_nearest-Continues :
      (s : Search t)
      → IsStored t Fits source destination s
      → 0 < s.state.num_open
      → s.state.num_open + 1 < length s.open_nodes
      → s.state.num_closed + 2 < length s.closed_nodes
      → Returns (take_nearest t s) (Continues t Fits source destination s)
  unfolding take_nearest
  take_nearest-Continues s i some_open open_room closed_room =
      bind-Returns
        (nearest_from-Returns t Fits s.open_nodes (s.state.num_open - 1) 1 0 (omega arith)
          (omega arith))
        (λ index lt. bind-Returns (get-Returns s.open_nodes index (omega arith)) (λ nearest taken.
          bind-Returns
            (fill_gap-Returns s.open_nodes index (s.state.num_open - 1) (omega arith) (omega arith)
              (Holds-fewer t Fits s.open_nodes _ s.state.num_open (omega arith) i.open_good))
            (λ filled g.
              let good = i.open_good index (omega arith) nearest taken in
              if-Returns (t.eq nearest.id s.state.destination)
                (λ is_destination.
                  bind-Returns (put-Returns s.closed_nodes s.state.num_closed nearest (omega arith))
                    (λ closed w. some-Returns _ (
                      record {
                        from = i.from;
                        to = i.to;
                        open_fits = omega (arith, g.0);
                        closed_fits = omega (arith, w.same_length);
                        open_good = g.1;
                        closed_good =
                            Holds-push t Fits s.closed_nodes closed s.state.num_closed nearest
                              i.closed_good good w;
                        node_good = λ x here. subst Fits (some_injective here) good;
                        closest = omega arith;
                      },
                      record {
                        found = nearest;
                        place = w.written;
                        used = omega arith;
                        destination = (t.eq_iff nearest.id s.state.destination).0 is_destination;
                      },
                    )))
                (λ _. some-Returns _ (
                  record {
                    from = i.from;
                    to = i.to;
                    open_fits = omega (arith, g.0);
                    closed_fits = i.closed_fits;
                    open_good = g.1;
                    closed_good = i.closed_good;
                    node_good = λ x here. subst Fits (some_injective here) good;
                    closest = i.closest;
                  },
                  (nearest, record { current = refl; room = closed_room }, refl, refl),
                )))))

  pub search_nearest_step-Continues :
      (s : Search t)
      → IsStored t Fits source destination s
      → Returns (search_nearest_step t s) (Continues t Fits source destination s)
  unfolding search_nearest_step
  search_nearest_step-Continues s i =
      if-Returns (s.state.num_open == 0)
        (λ e. some-Returns _ (i, (refl, (==_iff s.state.num_open 0).0 e)))
        (λ e.
          if-Returns
            (leb (length s.open_nodes) (s.state.num_open + 1)
              || leb (length s.closed_nodes) (s.state.num_closed + 2))
            (λ _. some-Returns _ (i, refl))
            (λ f.
              take_nearest-Continues s i (ne_zero s.state.num_open e) (gt_of_leb _ _ (or_false f).0)
                (gt_of_leb _ _ (or_false f).1)))
