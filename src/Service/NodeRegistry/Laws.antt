-- ===== src/Service/NodeRegistry/Laws.antt =====
-- service/src/node_registry.rs: names and ids are in one-to-one correspondence, and the lists by
-- kind are those of the table of nodes.
use meritrank_rust.Prelude.{
  ℕ, ◌≡◌, ◌≢◌, refl, subst, inl, inr, List, [], ◌∷◌, ◌++◌, Option, none, some, if◌then◌else◌, ◌==◌,
  arith, unwrap_or, length, length-append, lt-length_of_get_elem?, get_elem?-snoc, Bool-cases,
  Option-cases,
}
use meritrank_rust.Prelude.HashMap
use meritrank_rust.Prelude.HashMap.{Key}
use meritrank_rust.Deps.{Deps}
use meritrank_rust.Rank.State.{MeritRank, get_new_nodeid}
use meritrank_rust.Graph.Edges
use meritrank_rust.Service.NodeRegistry.{
  NodeName, NodeKind, NodeInfo, NodeRegistry, new, add_info, register, register_with_owner,
  get_by_id, get_by_name, nodes_by_kind, name_key, kind_key,
}

abbrev pub ids_of_kind : NodeKind → List NodeInfo → List ℕ
ids_of_kind kind [] = []
ids_of_kind kind (info ∷ infos) =
    if kind_key.same info.kind kind
    then info.id ∷ ids_of_kind kind infos
    else ids_of_kind kind infos

-- The three tables agree.
pub record IsRegistry (r : NodeRegistry) : Type 0 where
  pub counted : r.next_id ≡ length r.id_to_info
  pub named :
      (n : NodeName) (i : ℕ)
      → HashMap.get name_key n r.name_to_id ≡ some i
      → (info : NodeInfo) × (get_by_id r i ≡ some info) × (info.name ≡ n)
  pub found :
      (i : ℕ) (info : NodeInfo)
      → get_by_id r i ≡ some info
      → (HashMap.get name_key info.name r.name_to_id ≡ some i) × (info.id ≡ i)
  pub listed : (kind : NodeKind) → nodes_by_kind r kind ≡ ids_of_kind kind r.id_to_info

ids_of_kind-snoc :
    (kind : NodeKind) (infos : List NodeInfo) (info : NodeInfo)
    → ids_of_kind kind (infos ++ info ∷ []) ≡ (
        if kind_key.same info.kind kind
        then ids_of_kind kind infos ++ info.id ∷ []
        else ids_of_kind kind infos)
ids_of_kind-snoc kind [] info = ground arith
ids_of_kind-snoc kind (x ∷ infos) info = ground (arith, ids_of_kind-snoc kind infos info)

module _ (r : NodeRegistry) (name : NodeName) (kind : NodeKind) (owner : Option ℕ)
    (p : IsRegistry r) (fresh : HashMap.get name_key name r.name_to_id ≡ none) where
  open p use {counted, named, found, listed}

  abbrev added : NodeInfo
  added = record { id = r.next_id; name = name; kind = kind; owner = owner }

  abbrev after : NodeRegistry
  after = add_info r name kind owner

  name_to_id-added :
      (n : NodeName)
      → HashMap.get name_key n after.name_to_id
        ≡ (if name_key.same name n then some r.next_id else HashMap.get name_key n r.name_to_id)
  name_to_id-added n = HashMap.get-insert name_key n name r.next_id r.name_to_id

  get_by_id-added :
      (i : ℕ) → get_by_id after i ≡ (if length r.id_to_info == i then some added else get_by_id r i)
  get_by_id-added i = get_elem?-snoc r.id_to_info added i

  named-added :
      (n : NodeName) (i : ℕ)
      → HashMap.get name_key n after.name_to_id ≡ some i
      → (info : NodeInfo) × (get_by_id after i ≡ some info) × (info.name ≡ n)
  named-added n i h = elim (Bool-cases (name_key.same name n)) [
    | inl e ↦ (
      added,
      ground (arith, name_to_id-added n, get_by_id-added i, counted),
      name_key.same_true name n e,
    )
    | inr e ↦
        let (info, at, same) = named n i (ground (arith, name_to_id-added n)) in
        let within = lt-length_of_get_elem? r.id_to_info i info at in
        (info, ground (arith, get_by_id-added i), same)
  ]

  found-added :
      (i : ℕ) (info : NodeInfo)
      → get_by_id after i ≡ some info
      → (HashMap.get name_key info.name after.name_to_id ≡ some i) × (info.id ≡ i)
  found-added i info h = elim (Bool-cases (length r.id_to_info == i)) [
    | inl e ↦
        let same : added ≡ info = ground (arith, get_by_id-added i) in
        subst (λ x. (HashMap.get name_key x.name after.name_to_id ≡ some i) × (x.id ≡ i)) same
          (
            ground (arith, name_to_id-added name, name_key.same_self name, counted),
            ground (arith, counted),
          )
    | inr e ↦
        let (at, same) = found i info (ground (arith, get_by_id-added i)) in
        (ground (arith, name_to_id-added info.name, name_key.same_true name info.name), same)
  ]

  kind_to_ids-added :
      (k : NodeKind)
      → HashMap.get kind_key k after.kind_to_ids ≡ (
          if kind_key.same kind k
          then some (nodes_by_kind r kind ++ r.next_id ∷ [])
          else HashMap.get kind_key k r.kind_to_ids)
  kind_to_ids-added k =
      HashMap.get-insert kind_key k kind (nodes_by_kind r kind ++ r.next_id ∷ []) r.kind_to_ids

  listed-added : (k : NodeKind) → nodes_by_kind after k ≡ ids_of_kind k after.id_to_info
  listed-added k = elim (Bool-cases (kind_key.same kind k)) [
    | inl e ↦
        subst (λ x. nodes_by_kind after x ≡ ids_of_kind x after.id_to_info)
          (kind_key.same_true kind k e)
          (ground (
            arith,
            kind_to_ids-added kind,
            kind_key.same_self kind,
            ids_of_kind-snoc kind r.id_to_info added,
            listed kind,
          ))
    | inr e ↦ ground (arith, kind_to_ids-added k, ids_of_kind-snoc k r.id_to_info added, listed k)
  ]

  -- The node that was added is found by its name; all others are as before.
  pub add_info_lem :
      (get_by_name after name ≡ some added)
      × ((n : NodeName) → n ≢ name → get_by_name after n ≡ get_by_name r n)
  unfolding get_by_name
  add_info_lem = (
    ground
        (arith, name_to_id-added name, name_key.same_self name, get_by_id-added r.next_id, counted),
    λ n ne. elim (Option-cases (HashMap.get name_key n r.name_to_id)) [
      | inl e ↦ ground (arith, name_to_id-added n, name_key.same_true name n)
      | inr (i, e) ↦
          let (info, at, _) = named n i e in
          let within = lt-length_of_get_elem? r.id_to_info i info at in
          ground (arith, name_to_id-added n, name_key.same_true name n, get_by_id-added i)
    ],
  )

  pub add_info-IsRegistry : IsRegistry after
  add_info-IsRegistry = record {
    counted = rw length-append (rw counted refl);
    named = named-added;
    found = found-added;
    listed = listed-added;
  }

module _ (d : Deps) where
  -- The next id is the one that the core's graph gives next.
  abbrev pub InStep : NodeRegistry → MeritRank d → Type 0
  InStep r mr = r.next_id ≡ length mr.graph.nodes

  -- What a registration leaves, if `fresh` is the entry for a name that was not registered.
  abbrev pub Registers : NodeRegistry → NodeInfo → (NodeRegistry × MeritRank d) × ℕ → Type 0
  Registers r fresh ((after_it, mr), id) =
      (get_by_name after_it fresh.name ≡ some (unwrap_or (get_by_name r fresh.name) fresh))
      × (id ≡ (unwrap_or (get_by_name r fresh.name) fresh).id)
      × ((n : NodeName) → n ≢ fresh.name → get_by_name after_it n ≡ get_by_name r n)

  module _ (r : NodeRegistry) (mr : MeritRank d) (name : NodeName) (kind : NodeKind)
      (p : IsRegistry r) where
    get_by_name-named :
        (i : ℕ)
        → HashMap.get name_key name r.name_to_id ≡ some i
        → (info : NodeInfo) × (get_by_name r name ≡ some info) × (i ≡ info.id)
    unfolding get_by_name
    get_by_name-named i e =
        let (info, at, _) = p.named name i e in
        (info, rw (e, get_by_name) at, ground (arith, p.found i info at))

    get_by_name_absent : HashMap.get name_key name r.name_to_id ≡ none → get_by_name r name ≡ none
    unfolding get_by_name
    get_by_name_absent e = rw (e, get_by_name) refl

    -- A registered name is left alone.
    registered-Registers :
        (fresh : NodeInfo) (i : ℕ)
        → fresh.name ≡ name
        → HashMap.get name_key name r.name_to_id ≡ some i
        → Registers r fresh ((r, mr), i)
    registered-Registers fresh i same e =
        let (info, at, number) = get_by_name-named i e in rw (same, at) (refl, number, λ n ne. refl)

    added-Registers :
        (owner : Option ℕ) (mr' : MeritRank d)
        → HashMap.get name_key name r.name_to_id ≡ none
        → Registers r
            (record { id = r.next_id; name = name; kind = kind; owner = owner })
            ((add_info r name kind owner, mr'), r.next_id)
    added-Registers owner mr' e =
        let (found_again, others) = add_info_lem r name kind owner p e in
        rw (get_by_name_absent e) (found_again, refl, others)

    -- If the tables of the registry agree and its next id is the core graph's next id, then both
    -- hold again after `register`: each name leads to the one node of that name, each node's id is
    -- its place, and the list of each kind is that of the ids of its nodes in order of
    -- registration.
    pub register-IsRegistry :
        InStep r mr
        → IsRegistry (register d r mr name kind).0.0
          × InStep (register d r mr name kind).0.0 (register d r mr name kind).0.1
    unfolding register get_new_nodeid Edges.get_new_nodeid
    register-IsRegistry h = elim (Option-cases (HashMap.get name_key name r.name_to_id)) [
      | inl e ↦
          rw (e, register) (add_info-IsRegistry r name kind none p e, rw length-append (rw h refl))
      | inr (i, e) ↦ rw (e, register) (p, h)
    ]

    -- If the tables of the registry agree, then after `register` the name leads to the node it had
    -- before, unchanged, or to a new one with the next id, the given kind and no owner; the id
    -- returned is that node's, and every other name leads to what it did before.
    pub register_lem :
        Registers r
          (record { id = r.next_id; name = name; kind = kind; owner = none })
          (register d r mr name kind)
    unfolding register
    register_lem = elim (Option-cases (HashMap.get name_key name r.name_to_id)) [
      | inl e ↦ rw (e, register) (added-Registers none (get_new_nodeid d mr).0 e)
      | inr (i, e) ↦ rw (e, register) (registered-Registers _ i refl e)
    ]

    -- If the tables of the registry agree and its next id is the core graph's next id, then both
    -- hold again after `register_with_owner`.
    pub register_with_owner-IsRegistry :
        (owner : ℕ)
        → InStep r mr
        → IsRegistry (register_with_owner d r mr name kind owner).0.0
          × InStep
              (register_with_owner d r mr name kind owner).0.0
              (register_with_owner d r mr name kind owner).0.1
    unfolding register_with_owner get_new_nodeid Edges.get_new_nodeid
    register_with_owner-IsRegistry owner h =
        elim (Option-cases (HashMap.get name_key name r.name_to_id)) [
          | inl e ↦
              rw (e, register_with_owner)
                (add_info-IsRegistry r name kind (some owner) p e, rw length-append (rw h refl))
          | inr (i, e) ↦ rw (e, register_with_owner) (p, h)
        ]

    -- If the tables of the registry agree, then after `register_with_owner` the name leads to the
    -- node it had before, its old owner included, or to a new one with the next id, the given kind
    -- and the given owner; the id returned is that node's, and every other name leads to what it
    -- did before.
    pub register_with_owner_lem :
        (owner : ℕ)
        → Registers r
            (record { id = r.next_id; name = name; kind = kind; owner = some owner })
            (register_with_owner d r mr name kind owner)
    unfolding register_with_owner
    register_with_owner_lem owner = elim (Option-cases (HashMap.get name_key name r.name_to_id)) [
      | inl e ↦ rw (e, register_with_owner) (added-Registers (some owner) (get_new_nodeid d mr).0 e)
      | inr (i, e) ↦ rw (e, register_with_owner) (registered-Registers _ i refl e)
    ]

-- Nothing is registered at first.
pub new-IsRegistry : IsRegistry new
new-IsRegistry = record {
  counted = refl;
  named = λ n i h. ground arith;
  found = λ i info h. ground arith;
  listed = λ k. refl;
}
