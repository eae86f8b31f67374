-- ===== src/Service/AStar/Links.antt =====
-- service/src/utils/astar.rs: the stage of `iteration` that goes through the neighbours of a node.
use meritrank_rust.Prelude.{
  gt_of_leb, ℕ, ◌+◌, ◌-◌, ◌≤◌, ◌<◌, ◌≡◌, refl, List, Option, none, some, Bool, true, false,
  if◌then◌else◌, length, arith, leb,
}
use meritrank_rust.Prelude.Partial.{
  Returns, some-Returns, bind-Returns, if-Returns, IsWritten, put-Returns, get-Returns,
}
use meritrank_rust.Service.AStar.{Types, enum_neighbors, Node, Search, Link}
use meritrank_rust.Service.AStar.Steps.{
  finish_search, revise_closed, revise_open, add_open, link_step, close_step, where_open,
  where_closed, neighbor_node, next_neighbor,
}
use meritrank_rust.Service.AStar.Invariant.{
  Holds-write, Holds-push, Holds-fewer, IsStored, IsEnumerating, find-Returns, none-some, Continues,
}

if-le : (b : Bool) (m n k : ℕ) → m ≤ k → n ≤ k → (if b then m else n) ≤ k
if-le true m n k h l = h
if-le false m n k h l = l

module _ (t : Types) (Fits : Node t → Type 0) (source destination : t.NodeId) where
  next-Continues :
      (before s : Search t) (nearest : Node t)
      → IsStored t Fits source destination s
      → IsEnumerating t Fits s nearest
      → s.state.stage ≡ enum_neighbors
      → Continues t Fits source destination before (next_neighbor t nearest s)
  next-Continues before s nearest i e at = (
    record {
      from = i.from;
      to = i.to;
      open_fits = i.open_fits;
      closed_fits = i.closed_fits;
      open_good = i.open_good;
      closed_good = i.closed_good;
      node_good = i.node_good;
      closest = i.closest;
    },
    (nearest, record { current = e.current; room = e.room }, at, refl),
  )

  module _ (s : Search t) (nearest : Node t) (i : IsStored t Fits source destination s)
      (e : IsEnumerating t Fits s nearest) where
    pub close_step-Continues :
        Returns (close_step t s nearest) (Continues t Fits source destination s)
    unfolding close_step
    close_step-Continues =
        let room = e.room in
        bind-Returns (put-Returns s.closed_nodes s.state.num_closed nearest (omega arith))
          (λ closed w. some-Returns _ (
            record {
              from = i.from;
              to = i.to;
              open_fits = i.open_fits;
              closed_fits = omega (arith, w.same_length);
              open_good = i.open_good;
              closed_good =
                  Holds-push t Fits s.closed_nodes closed s.state.num_closed nearest i.closed_good
                    (i.node_good nearest e.current) w;
              node_good = λ x here. absurd (none-some here);
              closest =
                  if-le (t.lt nearest.estimate s.state.closest_estimate) s.state.num_closed
                    s.state.closest_index _ (omega arith) (let c = i.closest in omega arith);
            },
            refl,
          ))

    module _ (found : Node t) (fits : Fits found) where
      finish_search-Continues :
          found.id ≡ s.state.destination
          → Returns (finish_search t s nearest found) (Continues t Fits source destination s)
      unfolding finish_search
      finish_search-Continues same =
          let room = e.room in
          bind-Returns (put-Returns s.closed_nodes s.state.num_closed nearest (omega arith))
            (λ once w.
              bind-Returns
                (put-Returns once (s.state.num_closed + 1) found (omega (arith, w.same_length)))
                (λ twice v. some-Returns _ (
                  record {
                    from = i.from;
                    to = i.to;
                    open_fits = i.open_fits;
                    closed_fits = omega (arith, w.same_length, v.same_length);
                    open_good = i.open_good;
                    closed_good =
                        Holds-fewer t Fits twice _ (s.state.num_closed + 1 + 1) (omega arith) (
                          Holds-push t Fits once twice (s.state.num_closed + 1) found
                            (Holds-push t Fits s.closed_nodes once s.state.num_closed nearest
                              i.closed_good (i.node_good nearest e.current) w)
                            fits v);
                    node_good = λ x here. absurd (none-some here);
                    closest = omega arith;
                  },
                  record {
                    found = found;
                    place = v.written;
                    used = omega arith;
                    destination = same;
                  },
                )))

      module _ (at : s.state.stage ≡ enum_neighbors) where
        rewritten-Continues :
            (index : ℕ) (closed : List (Node t))
            → IsWritten s.closed_nodes index found closed
            → (closest : ℕ) (estimate : t.Cost) → closest ≤ s.state.num_closed - 1
            → Continues t Fits source destination s (
                next_neighbor t nearest (record s {
                  closed_nodes = closed;
                  state = record (s.state) { closest_index = closest; closest_estimate = estimate };
                }))
        rewritten-Continues index closed w closest estimate le =
            let room = e.room in
            next-Continues s _ nearest
              (record {
                from = i.from;
                to = i.to;
                open_fits = i.open_fits;
                closed_fits = omega (arith, i.closed_fits, w.same_length);
                open_good = i.open_good;
                closed_good =
                    Holds-write t Fits s.closed_nodes closed index s.state.num_closed found
                      i.closed_good fits w;
                node_good = i.node_good;
                closest = le;
              })
              (record { current = e.current; room = omega (arith, w.same_length) }) at

        closer-Continues :
            (index : ℕ)
            → index < s.state.num_closed
            → (closed : List (Node t)) → IsWritten s.closed_nodes index found closed
            → (b : Bool)
            → Continues t Fits source destination s (
                next_neighbor t nearest (record s {
                  closed_nodes = closed;
                  state =
                      (if b
                        then record (s.state) {
                          closest_index = index;
                          closest_estimate = found.estimate;
                        }
                        else s.state);
                }))
        closer-Continues index lt closed w true =
            rewritten-Continues index closed w index _ (omega arith)
        closer-Continues index lt closed w false =
            rewritten-Continues index closed w s.state.closest_index s.state.closest_estimate
              i.closest

        revise_closed-Continues :
            (index : ℕ)
            → index < s.state.num_closed
            → Returns
                (revise_closed t s nearest found index)
                (Continues t Fits source destination s)
        unfolding revise_closed
        revise_closed-Continues index lt =
            let room = e.room in
            let inside = i.closed_fits in
            bind-Returns (get-Returns s.closed_nodes index (omega arith)) (λ old _.
              if-Returns (t.lt found.exact_distance old.exact_distance)
                (λ _.
                  bind-Returns (put-Returns s.closed_nodes index found (omega arith)) (λ closed w.
                    some-Returns _ (
                      closer-Continues index lt closed w
                        (t.lt found.estimate s.state.closest_estimate))))
                (λ _. some-Returns _ (next-Continues s s nearest i e at)))

        revise_open-Continues :
            (index : ℕ)
            → index < s.state.num_open
            → Returns (revise_open t s nearest found index) (Continues t Fits source destination s)
        unfolding revise_open
        revise_open-Continues index lt =
            let inside = i.open_fits in
            bind-Returns (get-Returns s.open_nodes index (omega arith)) (λ old _.
              if-Returns (t.lt found.exact_distance old.exact_distance)
                (λ _. bind-Returns (put-Returns s.open_nodes index found (omega arith)) (λ nodes w.
                  some-Returns _ (
                    next-Continues s _ nearest
                      (record {
                        from = i.from;
                        to = i.to;
                        open_fits = omega (arith, w.same_length);
                        closed_fits = i.closed_fits;
                        open_good =
                            Holds-write t Fits s.open_nodes nodes index s.state.num_open found
                              i.open_good fits w;
                        closed_good = i.closed_good;
                        node_good = i.node_good;
                        closest = i.closest;
                      })
                      (record { current = e.current; room = e.room }) at)))
                (λ _. some-Returns _ (next-Continues s s nearest i e at)))

        add_open-Continues :
            s.state.num_open + 1 < length s.open_nodes
            → Returns (add_open t s nearest found) (Continues t Fits source destination s)
        unfolding add_open
        add_open-Continues open_room =
            bind-Returns (put-Returns s.open_nodes s.state.num_open found (omega arith)) (λ nodes w.
              some-Returns _ (
                next-Continues s _ nearest
                  (record {
                    from = i.from;
                    to = i.to;
                    open_fits = omega (arith, w.same_length);
                    closed_fits = i.closed_fits;
                    open_good =
                        Holds-push t Fits s.open_nodes nodes s.state.num_open found i.open_good fits
                          w;
                    closed_good = i.closed_good;
                    node_good = i.node_good;
                    closest = i.closest;
                  })
                  (record { current = e.current; room = e.room }) at))

        where_open-Continues :
            s.state.num_open + 1 < length s.open_nodes
            → (r : Option ℕ) → ((index : ℕ) → r ≡ some index → index < s.state.num_open)
            → Returns (where_open t s nearest found r) (Continues t Fits source destination s)
        unfolding where_open
        where_open-Continues open_room (some index) inside =
            revise_open-Continues index (inside index refl)
        where_open-Continues open_room none inside = add_open-Continues open_room

        where_closed-Continues :
            s.state.num_open + 1 < length s.open_nodes
            → (r : Option ℕ) → ((index : ℕ) → r ≡ some index → index < s.state.num_closed)
            → Returns (where_closed t s nearest found r) (Continues t Fits source destination s)
        unfolding where_closed
        where_closed-Continues open_room (some index) inside =
            revise_closed-Continues index (inside index refl)
        where_closed-Continues open_room none inside =
            bind-Returns (find-Returns t Fits s.open_nodes found.id s.state.num_open i.open_fits)
              (λ r inside. where_open-Continues open_room r inside)

    pub link_step-Continues :
        (link : Link t)
        → s.state.stage ≡ enum_neighbors
        → Fits (neighbor_node t nearest link)
        → Returns (link_step t s nearest link) (Continues t Fits source destination s)
    unfolding link_step
    link_step-Continues link at fits =
        if-Returns (leb (length s.open_nodes) (s.state.num_open + 1))
          (λ _. some-Returns _ (i, refl))
          (λ room.
            if-Returns (t.eq link.neighbor_id s.state.destination)
              (λ same.
                finish_search-Continues _ fits
                  ((t.eq_iff link.neighbor_id s.state.destination).0 same))
              (λ _.
                bind-Returns
                  (find-Returns t Fits s.closed_nodes link.neighbor_id s.state.num_closed
                    i.closed_fits)
                  (λ r inside. where_closed-Continues _ fits at (gt_of_leb _ _ room) r inside)))
