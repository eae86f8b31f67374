-- ===== src/Service/AStar/Walk.antt =====
-- service/src/utils/astar.rs: the path that `path` reads out of the closed nodes.
use meritrank_rust.Prelude.{
  gt_of_leb, or_false, ℕ, zero, suc, ◌+◌, ◌-◌, ◌/◌, ◌≤◌, ◌<◌, ◌≡◌, ◌⊎◌, refl, sym, ap, ◌∙◌, inl,
  inr, List, Option, none, some, leb, is_empty, ◌||◌, length, get_elem?, arith,
}
use meritrank_rust.Prelude.Partial.{
  Returns, some-Returns, bind-Returns, if-Returns, put-Returns, get-Returns, at-Returns,
}
use meritrank_rust.Service.AStar.{Types, Node, State}
use meritrank_rust.Service.AStar.Trace.{or_stop, walk_back, reversed, path}
use meritrank_rust.Service.AStar.Invariant.{Holds}
use meritrank_rust.Service.AStar.Reverse.{
  IsSwapped, swapped-all, swap_from-Returns, start-IsSwapped,
}
use meritrank_rust.Service.AStar.Trail.{
  IsLinked, IsTrail, IsTrail-longer, find_previous-Returns, start-IsTrail,
}

module _ (t : Types) (Edge : t.NodeId → t.NodeId → Type 0) where
  open t use {NodeId}

  module _ (closed : List (Node t)) (state : State t) (fits : state.num_closed ≤ length closed)
      (good : Holds t (IsLinked t Edge) closed state.num_closed) where
    -- What the loop ends with: nothing, or a trail that has come to the source.
    abbrev IsWalked : NodeId → Option ℕ × List NodeId → Type 0
    IsWalked target (none, ids) = Unit {0}
    IsWalked target (some n, ids) =
        (current : ℕ) × IsTrail t Edge closed state fits good target ids n current
        × (get_elem? ids (n - 1) ≡ some state.source)

    or_stop-Returns :
        (target : NodeId) (found : Option ℕ) (ids : List NodeId)
        (go_on : ℕ → Option (Option ℕ × List NodeId))
        → ((i : ℕ) → found ≡ some i → Returns (go_on i) (IsWalked target))
        → Returns (or_stop t found ids go_on) (IsWalked target)
    or_stop-Returns target none ids go_on h = some-Returns (none, ids) tt
    or_stop-Returns target (some i) ids go_on h = h i refl

    walk_back-Returns :
        (target : NodeId) (fuel n current : ℕ) (ids : List NodeId)
        → IsTrail t Edge closed state fits good target ids n current
        → state.num_closed < n + fuel
        → Returns (walk_back t fuel closed state n current ids) (IsWalked target)
    unfolding walk_back
    walk_back-Returns target zero n current ids r enough =
        absurd (let few = r.few_ids in omega arith)
    walk_back-Returns target (suc fuel) n current ids r enough =
        bind-Returns (at-Returns ids (n - 1) r.node.id r.ends) (λ last same.
          if-Returns (t.eq last state.source)
            (λ e.
              some-Returns (some n, ids)
                (current, r, r.ends ∙ ap some (sym same ∙ (t.eq_iff last state.source).0 e)))
            (λ _.
              if-Returns (leb state.num_closed n) (λ _. some-Returns (none, ids) tt)
                (λ f.
                  bind-Returns
                    (find_previous-Returns t Edge closed state fits good current r.node r.node_place
                      state.num_closed 0 (omega arith))
                    (λ found h. or_stop-Returns target found ids _ (λ i e.
                      let (lt, from) = h i e in
                      bind-Returns (get-Returns closed i (omega arith)) (λ y at.
                        bind-Returns
                          (put-Returns ids n y.id
                            (let room = r.room in let few = gt_of_leb _ _ f in omega arith))
                          (λ longer w.
                            walk_back-Returns target fuel (n + 1) i longer
                              (IsTrail-longer t Edge closed state fits good target ids longer n
                                current i y r (gt_of_leb _ _ f) lt at (from y at) w)
                              (omega arith))))))))

    -- The first `n` ids lead from the source to the target, edge by edge.
    pub record IsPath (target : NodeId) (ids : List NodeId) (n : ℕ) : Type 0 where
      pub some_ids : 0 < n
      pub few_ids : n ≤ state.num_closed
      pub begins : get_elem? ids 0 ≡ some state.source
      pub ends : get_elem? ids (n - 1) ≡ some target
      pub steps :
          (k : ℕ) (u v : NodeId)
          → k + 1 < n
          → get_elem? ids k ≡ some u
          → get_elem? ids (k + 1) ≡ some v
          → Edge u v

    -- No path, or one to the closest node.
    abbrev pub IsReported : ℕ × List NodeId → Type 0
    IsReported (n, ids) =
        (n ≡ 0)
        ⊎ ((x : Node t) × (get_elem? closed state.closest_index ≡ some x) × IsPath x.id ids n)

    reversed-IsPath :
        (target : NodeId) (ids back : List NodeId) (n current : ℕ)
        → IsTrail t Edge closed state fits good target ids n current
        → get_elem? ids (n - 1) ≡ some state.source
        → IsSwapped t ids back n (n / 2)
        → IsPath target back n
    reversed-IsPath target ids back n current r source s =
        let at = swapped-all t ids back n s in
        let some_ids = r.some_ids in
        record {
          some_ids = r.some_ids;
          few_ids = r.few_ids;
          begins = at 0 (omega arith) ∙ ap (get_elem? ids) (omega arith) ∙ source;
          ends = at (n - 1) (omega arith) ∙ ap (get_elem? ids) (omega arith) ∙ r.begins;
          steps = λ k u v lt at_u at_v.
              r.steps (n - 1 - (k + 1)) v u (omega arith) (sym (at (k + 1) lt) ∙ at_v)
                (ap (get_elem? ids) (omega arith) ∙ sym (at k (omega arith)) ∙ at_u);
        }

    reversed-Returns :
        (x : Node t) (r : Option ℕ × List NodeId)
        → get_elem? closed state.closest_index ≡ some x
        → IsWalked x.id r
        → Returns (reversed t r) IsReported
    unfolding reversed
    reversed-Returns x (none, ids) at w = some-Returns (0, ids) (inl refl)
    reversed-Returns x (some n, ids) at (current, r, source) =
        bind-Returns
          (swap_from-Returns t ids n (n / 2) 0 ids
            (let few = r.few_ids in let room = r.room in omega arith) (omega arith)
            (start-IsSwapped t ids n))
          (λ back s.
            some-Returns (n, back)
              (inr (x, at, reversed-IsPath x.id ids back n current r source s)))

    -- If the closed nodes are within their slice and the `previous` of each is the source of an
    -- edge to it, then `path` does not panic, its loop ends within as many rounds as there are
    -- closed nodes and one, and it returns no ids or as many ids as it says at the start of the
    -- slice, which lead edge by edge from the source to the closest node.
    pub path-IsReported : (ids : List NodeId) → Returns (path t closed state ids) IsReported
    unfolding path
    path-IsReported ids =
        if-Returns
          (is_empty closed
            || leb state.num_closed state.closest_index
            || leb (suc (length ids)) state.num_closed)
          (λ _. some-Returns (0, ids) (inl refl))
          (λ f.
            let some_closed : state.closest_index < state.num_closed =
              gt_of_leb state.num_closed state.closest_index
                (or_false {a = is_empty closed}
                  (or_false {a = is_empty closed || leb state.num_closed state.closest_index}
                    f).0).1 in
            let few : state.num_closed < suc (length ids) =
              gt_of_leb (suc (length ids)) state.num_closed
                (or_false {a = is_empty closed || leb state.num_closed state.closest_index} f).1 in
            bind-Returns (get-Returns closed state.closest_index (omega arith)) (λ x at.
              bind-Returns (put-Returns ids 0 x.id (omega arith)) (λ started w.
                bind-Returns
                  (walk_back-Returns x.id (suc state.num_closed) 1 state.closest_index started
                    (start-IsTrail t Edge closed state fits good x ids started some_closed at
                      (omega arith) w)
                    (omega arith))
                  (λ walked r. reversed-Returns x walked at r))))
