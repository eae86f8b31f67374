-- ===== src/Tests/RegistryTests.antt =====
-- The registry of nodes at concrete inputs.
use meritrank_rust.Prelude.{ℕ, ◌≡◌, refl, [], ◌∷◌, none, some}
use meritrank_rust.Graph.Edges
use meritrank_rust.Rank.State
use meritrank_rust.Rank.State.{MeritRank}
use meritrank_rust.Tests.Concrete.{deps}
use meritrank_rust.Service.NodeRegistry.{
  NodeName, NodeRegistry, new, user, beacon, register, register_with_owner, nodes_by_kind,
  node_kind_from_prefix,
}
use meritrank_rust.Service.NodeRegistry.Laws.{
  IsRegistry, InStep, Registers, new-IsRegistry, register-IsRegistry, register_lem,
  register_with_owner-IsRegistry, register_with_owner_lem,
}

-- "U1" and "B7"
abbrev alice : NodeName
alice = 85 ∷ 49 ∷ []

abbrev lamp : NodeName
lamp = 66 ∷ 55 ∷ []

abbrev core : MeritRank deps
core = State.new deps (Edges.new deps) 10

abbrev with_alice : (NodeRegistry × MeritRank deps) × ℕ
with_alice = register deps new core alice user

with_alice-IsRegistry : IsRegistry with_alice.0.0 × InStep deps with_alice.0.0 with_alice.0.1
unfolding register State.get_new_nodeid Edges.get_new_nodeid State.new
with_alice-IsRegistry = register-IsRegistry deps new core alice user new-IsRegistry refl

abbrev with_lamp : (NodeRegistry × MeritRank deps) × ℕ
with_lamp = register_with_owner deps with_alice.0.0 with_alice.0.1 lamp beacon 0

register-IsRegistry_example :
    IsRegistry (register deps with_alice.0.0 with_alice.0.1 lamp beacon).0.0
    × InStep deps
        (register deps with_alice.0.0 with_alice.0.1 lamp beacon).0.0
        (register deps with_alice.0.0 with_alice.0.1 lamp beacon).0.1
register-IsRegistry_example =
    register-IsRegistry deps with_alice.0.0 with_alice.0.1 lamp beacon with_alice-IsRegistry.0
      with_alice-IsRegistry.1

register_with_owner-IsRegistry_example :
    IsRegistry with_lamp.0.0 × InStep deps with_lamp.0.0 with_lamp.0.1
register_with_owner-IsRegistry_example =
    register_with_owner-IsRegistry deps with_alice.0.0 with_alice.0.1 lamp beacon
      with_alice-IsRegistry.0 0 with_alice-IsRegistry.1

register_lem_example :
    Registers deps with_alice.0.0
      (record { id = 1; name = lamp; kind = beacon; owner = none })
      (register deps with_alice.0.0 with_alice.0.1 lamp beacon)
unfolding register State.get_new_nodeid Edges.get_new_nodeid State.new
register_lem_example =
    register_lem deps with_alice.0.0 with_alice.0.1 lamp beacon with_alice-IsRegistry.0

register_with_owner_lem_example :
    Registers deps with_alice.0.0
      (record { id = 1; name = lamp; kind = beacon; owner = some 0 })
      with_lamp
unfolding register State.get_new_nodeid Edges.get_new_nodeid State.new
register_with_owner_lem_example =
    register_with_owner_lem deps with_alice.0.0 with_alice.0.1 lamp beacon with_alice-IsRegistry.0 0

two_names : (nodes_by_kind with_lamp.0.0 beacon ≡ 1 ∷ []) × (with_lamp.1 ≡ 1)
unfolding register register_with_owner State.get_new_nodeid Edges.get_new_nodeid State.new
two_names = (refl, refl)

kind_of_alice : node_kind_from_prefix alice ≡ some user
unfolding node_kind_from_prefix
kind_of_alice = refl
