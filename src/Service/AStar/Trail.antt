-- ===== src/Service/AStar/Trail.antt =====
-- service/src/utils/astar.rs: the ids that the loop of `path` has written, from the target back.
use meritrank_rust.Prelude.{
  ne_test, ℕ, zero, suc, ◌+◌, ◌-◌, ◌≤◌, ◌<◌, ◌≡◌, sym, ap, ◌∙◌, subst, inl, inr, List, Option, none,
  some, true, ◌==◌, ==_iff, length, get_elem?, arith, Bool-cases,
}
use meritrank_rust.Prelude.Partial.{
  Returns, some-Returns, bind-Returns, if-Returns, IsWritten, get-Returns, at-Returns,
  some_injective,
}
use meritrank_rust.Service.AStar.{Types, Node, State}
use meritrank_rust.Service.AStar.Trace.{find_previous, is_previous}
use meritrank_rust.Service.AStar.Invariant.{Holds, none-some}

previous_found :
    (t : Types) (o : Option t.NodeId) (id : t.NodeId) → is_previous t o id ≡ true → o ≡ some id
previous_found t none id e = cc
previous_found t (some p) id e = ap some (sym ((t.eq_iff id p).0 e))

module _ (t : Types) (Edge : t.NodeId → t.NodeId → Type 0) where
  open t use {NodeId}

  -- A node's `previous` is the source of an edge to it.
  abbrev pub IsLinked : Node t → Type 0
  IsLinked x = (p : NodeId) → x.previous ≡ some p → Edge p x.id

  module _ (closed : List (Node t)) (state : State t) (fits : state.num_closed ≤ length closed)
      (good : Holds t IsLinked closed state.num_closed) where
    -- The first `n` ids lead back from the target to the node at `current`, edge by edge.
    pub record IsTrail (target : NodeId) (ids : List NodeId) (n current : ℕ) : Type 0 where
      pub some_ids : 0 < n
      pub few_ids : n ≤ state.num_closed
      pub room : state.num_closed ≤ length ids
      pub closed_place : current < state.num_closed
      pub node : Node t
      pub node_place : get_elem? closed current ≡ some node
      pub begins : get_elem? ids 0 ≡ some target
      pub ends : get_elem? ids (n - 1) ≡ some node.id
      pub steps :
          (k : ℕ) (u v : NodeId)
          → k + 1 < n
          → get_elem? ids k ≡ some u
          → get_elem? ids (k + 1) ≡ some v
          → Edge v u

    pub find_previous-Returns :
        (current : ℕ) (x : Node t)
        → get_elem? closed current ≡ some x
        → (left index : ℕ) → index + left ≤ state.num_closed
        → Returns (find_previous t closed current left index) (λ r.
          (i : ℕ)
          → r ≡ some i
          → (i < state.num_closed)
            × ((y : Node t) → get_elem? closed i ≡ some y → x.previous ≡ some y.id))
    unfolding find_previous
    find_previous-Returns current x at zero index le =
        some-Returns none (λ i e. absurd (none-some e))
    find_previous-Returns current x at (suc left) index le =
        bind-Returns (get-Returns closed index (omega arith)) (λ y at_y.
          bind-Returns (at-Returns closed current x at) (λ from same.
            if-Returns (is_previous t from.previous y.id)
              (λ e. some-Returns (some index) (λ i e'.
                let here = some_injective e' in
                (
                  omega arith,
                  λ z at_z.
                      ap (λ (m : Node t). m.previous) (sym same)
                      ∙ previous_found t from.previous y.id e
                      ∙ ap (λ (m : Node t). some m.id)
                          (some_injective (sym at_y ∙ ap (get_elem? closed) here ∙ at_z)),
                )))
              (λ _. find_previous-Returns current x at left (index + 1) (omega arith))))

    -- The step that the longer trail ends with.
    last_step :
        (target : NodeId) (ids longer : List NodeId) (n current k : ℕ) (y : Node t) (u v : NodeId)
        → (r : IsTrail target ids n current) → r.node.previous ≡ some y.id
        → IsWritten ids n y.id longer
        → k + 1 ≡ n
        → get_elem? longer k ≡ some u
        → get_elem? longer (k + 1) ≡ some v
        → Edge v u
    last_step target ids longer n current k y u v r from w here at_u at_v =
        let is_y = some_injective (sym w.written ∙ ap (get_elem? longer) (sym here) ∙ at_v) in
        let is_node = some_injective (
          sym r.ends
          ∙ ap (get_elem? ids) (omega arith)
          ∙ sym (w.others k (λ f. omega arith))
          ∙ at_u) in
        subst (λ a. Edge a u) is_y
          (subst (Edge y.id) is_node (good current r.closed_place r.node r.node_place y.id from))

    pub IsTrail-longer :
        (target : NodeId) (ids longer : List NodeId) (n current next : ℕ) (y : Node t)
        → (r : IsTrail target ids n current) → n < state.num_closed
        → next < state.num_closed
        → get_elem? closed next ≡ some y
        → r.node.previous ≡ some y.id
        → IsWritten ids n y.id longer
        → IsTrail target longer (n + 1) next
    IsTrail-longer target ids longer n current next y r few lt at from w = record {
      some_ids = omega arith;
      few_ids = omega arith;
      room = omega (arith, r.room, w.same_length);
      closed_place = lt;
      node = y;
      node_place = at;
      begins = w.others 0 (λ e. let low = r.some_ids in omega arith) ∙ r.begins;
      ends = ap (get_elem? longer) (omega arith) ∙ w.written;
      steps = λ k u v below at_u at_v. elim (Bool-cases (k + 1 == n)) [
        | inl e ↦
            last_step target ids longer n current k y u v r from w ((==_iff (k + 1) n).0 e) at_u
              at_v
        | inr e ↦
            let ne = ne_test (k + 1) n e in
            r.steps k u v (omega arith) (sym (w.others k (λ f. omega arith)) ∙ at_u)
              (sym (w.others (k + 1) (λ f. omega arith)) ∙ at_v)
      ];
    }

    pub start-IsTrail :
        (x : Node t) (ids started : List NodeId)
        → state.closest_index < state.num_closed
        → get_elem? closed state.closest_index ≡ some x
        → state.num_closed ≤ length ids
        → IsWritten ids 0 x.id started
        → IsTrail x.id started 1 state.closest_index
    start-IsTrail x ids started lt at room w = record {
      some_ids = omega arith;
      few_ids = omega arith;
      room = omega (arith, w.same_length);
      closed_place = lt;
      node = x;
      node_place = at;
      begins = w.written;
      ends = w.written;
      steps = λ k u v below. absurd (omega arith);
    }
