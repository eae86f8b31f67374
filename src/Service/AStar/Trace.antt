-- ===== src/Service/AStar/Trace.antt =====
-- service/src/utils/astar.rs: `path`, which follows `previous` back through the closed nodes.
use meritrank_rust.Prelude.{
  ℕ, zero, suc, ◌+◌, ◌-◌, ◌/◌, List, Option, none, some, Bool, false, if◌then◌else◌, ◌||◌, leb,
  length, get_elem?, is_empty,
}
use meritrank_rust.Prelude.Partial.{◌>>=◌, put}
use meritrank_rust.Service.AStar.{Types, Node, State}

module _ (t : Types) where
  open t use {NodeId, Cost}

  -- `Some(closed[i].id) == closed[current].previous`
  abbrev pub is_previous : Option NodeId → NodeId → Bool
  is_previous none id = false
  is_previous (some previous) id = t.eq id previous

  unfoldable pub find_previous : List (Node t) → ℕ → ℕ → ℕ → Option (Option ℕ)
  find_previous closed current zero index = some none
  find_previous closed current (suc left) index = do
    node ← get_elem? closed index
    from ← get_elem? closed current
    let rest = find_previous closed current left (index + 1)
    if is_previous from.previous node.id then some (some index) else rest

  -- Without a node to go on with, `return 0`.
  abbrev pub or_stop :
      Option ℕ
      → List NodeId
      → (ℕ → Option (Option ℕ × List NodeId))
      → Option (Option ℕ × List NodeId)
  or_stop none ids go_on = some (none, ids)
  or_stop (some index) ids go_on = go_on index

  -- The `loop` of `path`; it ends by itself, and the first number bounds its rounds.
  unfoldable pub walk_back :
      ℕ → List (Node t) → State t → ℕ → ℕ → List NodeId → Option (Option ℕ × List NodeId)
  walk_back zero closed state num_nodes current ids = none
  walk_back (suc fuel) closed state num_nodes current ids = do
    last ← get_elem? ids (num_nodes - 1)
    let onward = (do
      found ← find_previous closed current state.num_closed 0
      or_stop found ids (λ index. get_elem? closed index >>= λ node.
          put ids num_nodes node.id >>= λ longer.
          walk_back fuel closed state (num_nodes + 1) index longer))
    if t.eq last state.source
        then some (some num_nodes, ids)
        else if leb state.num_closed num_nodes
        then some (none, ids)
        else onward

  -- The loop that reverses the first `num_nodes` ids.
  unfoldable pub swap_from : ℕ → ℕ → ℕ → List NodeId → Option (List NodeId)
  swap_from num_nodes zero i ids = some ids
  swap_from num_nodes (suc left) i ids = do
    x ← get_elem? ids i
    y ← get_elem? ids (num_nodes - 1 - i)
    once ← put ids i y
    twice ← put once (num_nodes - 1 - i) x
    swap_from num_nodes left (i + 1) twice

  unfoldable pub reversed : Option ℕ × List NodeId → Option (ℕ × List NodeId)
  reversed (none, ids) = some (0, ids)
  reversed (some num_nodes, ids) =
      swap_from num_nodes (num_nodes / 2) 0 ids >>= λ ids'. some (num_nodes, ids')

  -- The number of ids of the path, and the slice that they are written to.
  unfoldable pub path : List (Node t) → State t → List NodeId → Option (ℕ × List NodeId)
  unfolding reversed
  path closed state ids =
      if is_empty closed
        || leb state.num_closed state.closest_index
        || leb (suc (length ids)) state.num_closed
      then some (0, ids)
      else (do
        node ← get_elem? closed state.closest_index
        started ← put ids 0 node.id
        walked ← walk_back (suc state.num_closed) closed state 1 state.closest_index started
        reversed walked)
